-- ===== src/Game/Combatant/Vitals.antt =====
-- Hit points of a CombatantState in combatant_state.py.
use ai_dm.Prelude.{
  ◌&&◌, true, false, ◌≡◌, inl, inr, refl, arith, Option, none, some, if◌then◌else◌, Bool-cases, All,
  ap,
}
use ai_dm.Prelude.Int.{
  eq_of_parts, pos_part, neg_part, leb_ℤ, ltb_ℤ, ℤ, pos, ◌≤ℤ◌, ◌<ℤ◌, ◌+ℤ◌, min_ℤ, int_laws,
  sum_laws, eq_ℤ,
}
use ai_dm.Rules.DeathSaves.{DeathSaveTrack, reset}
use ai_dm.Rules.DeathSaves.Invariant.{IsTrack, reset-IsTrack}
use ai_dm.Game.Tracker.{matches}
use ai_dm.Game.Tracker.Removal.{remove_complete}
use ai_dm.Game.Combatant.{
  Concentration, absorbed, hp_left, wounded, risen, CombatantState, take_damage, heal,
  register_failure, remove_condition,
}

-- The vital fields of a combatant between two operations.
pub record IsVital (c : CombatantState) : Type 0 where
  pub hp_low : pos 0 ≤ℤ c.hp
  pub hp_high : c.hp ≤ℤ c.max_hp
  pub temp_low : pos 0 ≤ℤ c.temp_hp
  pub track : IsTrack c.death_saves
  pub at_zero : c.hp ≡ pos 0 → c.concentration ≡ none

register-IsTrack : (t : DeathSaveTrack) → IsTrack t → IsTrack (register_failure t)
unfolding register_failure ◌+ℤ◌ min_ℤ
register-IsTrack t h = ground arith

pub absorbed_bounds :
    (t a : ℤ)
    → pos 0 ≤ℤ t
    → pos 0 ≤ℤ a
    → (pos 0 ≤ℤ absorbed t a) × (absorbed t a ≤ℤ t) × (absorbed t a ≤ℤ a)
unfolding absorbed min_ℤ
absorbed_bounds t a h k = ground arith

hp_left_bounds :
    (h t a m : ℤ)
    → pos 0 ≤ℤ h
    → h ≤ℤ m
    → pos 0 ≤ℤ t
    → pos 0 ≤ℤ a
    → (pos 0 ≤ℤ hp_left h t a) × (hp_left h t a ≤ℤ m)
unfolding hp_left
hp_left_bounds h t a m p q r s = omega (int_laws, absorbed_bounds t a r s)

ended : (h : ℤ) (o : Option Concentration) → h ≡ pos 0 → (if eq_ℤ h (pos 0) then none else o) ≡ none
ended h o e = rw e

-- Damage keeps the hit points in range and the death saves sound, and a combatant at 0 hit points
-- concentrates on nothing.
pub take_damage-IsVital :
    (c : CombatantState) (amount : ℤ) → IsVital c → IsVital (take_damage c amount).0
unfolding take_damage wounded
take_damage-IsVital c amount h = elim (Bool-cases (leb_ℤ amount (pos 0))) [
  | inl e ↦ rw e h
  | inr e ↦
      let positive : pos 0 ≤ℤ amount = ground arith in
      let bounds =
        hp_left_bounds c.hp c.temp_hp amount c.max_hp h.hp_low h.hp_high h.temp_low positive in
      let soak = absorbed_bounds c.temp_hp amount h.temp_low positive in
      rw e (record {
        hp_low = bounds.0;
        hp_high = bounds.1;
        temp_low = omega (sum_laws, soak);
        track = tracked;
        at_zero = ended (hp_left c.hp c.temp_hp amount) c.concentration;
      })
]
  where
    tracked : IsTrack (if eq_ℤ c.hp (pos 0) then register_failure c.death_saves else c.death_saves)
    tracked = elim (Bool-cases (eq_ℤ c.hp (pos 0))) [
      | inl z ↦ rw z (register-IsTrack c.death_saves h.track)
      | inr z ↦ rw z h.track
    ]

healed_bounds :
    (h a m : ℤ)
    → pos 0 ≤ℤ h
    → h ≤ℤ m
    → pos 0 ≤ℤ a
    → (h ≤ℤ min_ℤ m (h +ℤ a)) × (min_ℤ m (h +ℤ a) ≤ℤ m)
healed_bounds h a m p q r = omega int_laws

still_zero : (h h' : ℤ) → pos 0 ≤ℤ h → h ≤ℤ h' → h' ≡ pos 0 → h ≡ pos 0
still_zero h h' p q e = eq_of_parts h (pos 0) (omega (arith, ap pos_part e, ap neg_part e))

-- Healing does so too, and it never lowers the hit points.
pub heal-IsVital :
    (c : CombatantState) (amount : ℤ)
    → IsVital c
    → IsVital (heal c amount).0 × (c.hp ≤ℤ (heal c amount).0.hp)
unfolding heal risen remove_condition
heal-IsVital c amount h = elim (Bool-cases (leb_ℤ amount (pos 0))) [
  | inl e ↦ rw e (h, omega arith)
  | inr e ↦
      let positive : pos 0 ≤ℤ amount = ground arith in
      let bounds = healed_bounds c.hp amount c.max_hp h.hp_low h.hp_high positive in
      let up : pos 0 ≤ℤ min_ℤ c.max_hp (c.hp +ℤ amount) = omega (arith, bounds) in
      elim (Bool-cases (eq_ℤ c.hp (pos 0) && ltb_ℤ (pos 0) (min_ℤ c.max_hp (c.hp +ℤ amount)))) [
        | inl r ↦
            rw (e, r)
              (
                record {
                  hp_low = up;
                  hp_high = bounds.1;
                  temp_low = h.temp_low;
                  track = reset-IsTrack;
                  at_zero = λ z.
                      h.at_zero
                        (still_zero c.hp (min_ℤ c.max_hp (c.hp +ℤ amount)) h.hp_low bounds.0 z);
                },
                bounds.0,
              )
        | inr r ↦
            rw (e, r)
              (
                record {
                  hp_low = up;
                  hp_high = bounds.1;
                  temp_low = h.temp_low;
                  track = h.track;
                  at_zero = λ z.
                      h.at_zero
                        (still_zero c.hp (min_ℤ c.max_hp (c.hp +ℤ amount)) h.hp_low bounds.0 z);
                },
                bounds.0,
              )
      ]
]

rises :
    (h a m : ℤ)
    → h ≡ pos 0
    → pos 0 <ℤ a
    → pos 0 <ℤ m
    → (eq_ℤ h (pos 0) && ltb_ℤ (pos 0) (min_ℤ m (h +ℤ a))) ≡ true
unfolding min_ℤ ◌+ℤ◌
rises h a m z p q = ground arith

pub positive_amount : (a : ℤ) → pos 0 <ℤ a → leb_ℤ a (pos 0) ≡ false
positive_amount a h = ground arith

-- Healing a combatant from 0 hit points ends its dying and every unconsciousness that came with 0
-- hit points.
pub heal_rises :
    (c : CombatantState) (amount : ℤ)
    → c.hp ≡ pos 0
    → pos 0 <ℤ amount
    → pos 0 <ℤ c.max_hp
    → ((heal c amount).0.death_saves ≡ reset)
      × All (λ i. matches "unconscious" (some "hp_zero") i ≡ false) (heal c amount).0.conditions
unfolding heal risen remove_condition
heal_rises c amount z p q =
    rw (positive_amount amount p, rises c.hp amount c.max_hp z p q)
      (refl, remove_complete _ "unconscious" (some "hp_zero"))
