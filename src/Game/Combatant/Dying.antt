-- ===== src/Game/Combatant/Dying.antt =====
-- Damage to a CombatantState at 0 hit points, beside damage_at_zero of death_saves.py.
use ai_dm.Prelude.{ap, true, false, ◌≡◌, refl, arith, List, [], ◌∷◌}
use ai_dm.Prelude.Int.{ℤ, pos, pos_part, neg_part, ◌≤ℤ◌, ◌<ℤ◌, ◌+ℤ◌, min_ℤ, int_laws, eq_ℤ}
use ai_dm.Rules.DeathSaves.{DeathSaveTrack, damage_at_zero}
use ai_dm.Game.Combatant.{CombatantState, take_damage, wounded, hp_left, register_failure}
use ai_dm.Game.Combatant.Vitals.{absorbed_bounds, positive_amount, IsVital, take_damage-IsVital}

-- A series of hits.
unfoldable pub take_all : CombatantState → List ℤ → CombatantState
take_all c [] = c
take_all c (a ∷ hits) = take_all (take_damage c a).0 hits

left_zero : (h t a : ℤ) → h ≡ pos 0 → pos 0 ≤ℤ t → pos 0 <ℤ a → hp_left h t a ≡ pos 0
unfolding hp_left
left_zero h t a z q p =
    omega (int_laws, ap pos_part z, ap neg_part z, absorbed_bounds t a q (omega arith))

is_zero : (h : ℤ) → h ≡ pos 0 → eq_ℤ h (pos 0) ≡ true
is_zero h z = ground arith

hit_at_zero :
    (c : CombatantState) (a : ℤ)
    → IsVital c
    → c.hp ≡ pos 0
    → pos 0 <ℤ a
    → ((take_damage c a).0.hp ≡ pos 0)
      × ((take_damage c a).0.death_saves ≡ register_failure c.death_saves)
unfolding take_damage wounded
hit_at_zero c a h z p =
    rw (positive_amount a p, is_zero c.hp z) (left_zero c.hp c.temp_hp a z h.temp_low p, refl)

third_failure :
    (t : DeathSaveTrack)
    → pos 0 ≤ℤ t.failures
    → (register_failure (register_failure (register_failure t))).dead ≡ true
unfolding register_failure min_ℤ ◌+ℤ◌
third_failure t h = ground arith

-- Three hits kill a combatant at 0 hit points, however weak they are.
pub three_hits_kill :
    (c : CombatantState) (a b d : ℤ)
    → IsVital c
    → c.hp ≡ pos 0
    → pos 0 <ℤ a
    → pos 0 <ℤ b
    → pos 0 <ℤ d
    → (take_all c (a ∷ b ∷ d ∷ [])).death_saves.dead ≡ true
unfolding take_all
three_hits_kill c a b d h z p q r =
    let one = (take_damage c a).0 in
    let two = (take_damage one b).0 in
    let vital = take_damage-IsVital c a h in
    let first = hit_at_zero c a h z p in
    let second = hit_at_zero one b vital first.0 q in
    let third = hit_at_zero two d (take_damage-IsVital one b vital) second.0 r in
    rw (third.1, second.1, first.1) (third_failure c.death_saves h.track.failures_low)

-- damage_at_zero ends the stable state of a creature, and take_damage, which registers the same
-- failure, leaves it: the two agree on the failures and on death.
pub take_damage-damage_at_zero :
    (c : CombatantState) (a : ℤ)
    → IsVital c
    → c.hp ≡ pos 0
    → pos 0 <ℤ a
    → let after = (take_damage c a).0.death_saves in
      let rules = damage_at_zero c.death_saves false in
      (after.failures ≡ rules.failures)
      × (after.dead ≡ rules.dead)
      × (after.successes ≡ rules.successes)
      × (after.stable ≡ c.death_saves.stable)
      × (rules.stable ≡ false)
unfolding damage_at_zero register_failure
take_damage-damage_at_zero c a h z p = rw ((hit_at_zero c a h z p).1) (refl, refl, refl, refl, refl)
