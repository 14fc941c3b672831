-- ===== src/Rules/Rests/Recovery.antt =====
-- What a long rest of rests.py gives back.
use ai_dm.Prelude.{
  ap, if◌then◌else◌, false, ◌≡◌, refl, arith, true, false, [], ◌∷◌, String, Bool-cases, inl, inr,
}
use ai_dm.Prelude.Int.{ℤ, pos, ltb_ℤ, ◌+ℤ◌, ◌-ℤ◌, ◌≤ℤ◌, ◌<ℤ◌, eq_ℤ, min_ℤ, max_ℤ, div_ℤ, int_laws}
use ai_dm.Prelude.Dict.{Dict, keys, AllValues, string_key}
use ai_dm.Game.Combatant.{CombatantState}
use ai_dm.Game.Resources.{SpellSlot, ResourceUse, Recharge}
use ai_dm.Rules.Rests.{
  HitDie, Actor, RestResult, is_spent, restore_pools, restore_slots, regained, recover_dice,
  apply_long_rest,
}
use ai_dm.Rules.Rests.HitDice.{IsHitDie}

-- The keys whose count differs, with the difference.
abbrev pub gains : {K V : Type 0} → (V → ℤ) → Dict K V → Dict K V → Dict K ℤ
gains count [] after = []
gains count before [] = []
gains count ((k, v) ∷ before) ((j, w) ∷ after) =
    let rest = gains count before after in
    if eq_ℤ (count w) (count v) then rest else (k, count w -ℤ count v) ∷ rest

-- The same keys, with related values.
abbrev pub Pointwise : {K V : Type 0} → (V → V → Type 0) → Dict K V → Dict K V → Type 0
Pointwise R [] [] = Unit
Pointwise R ((j, v) ∷ before) ((k, w) ∷ after) = (j ≡ k) × R v w × Pointwise R before after
Pointwise R _ _ = ⊥

-- Half of the maximum more, at least one more, and no more than the maximum.
pub record IsRegained (before after : HitDie) : Type 0 where
  pub same_max : after.max ≡ before.max
  pub current :
      after.current ≡ min_ℤ before.max (before.current +ℤ max_ℤ (pos 1) (div_ℤ before.max 2))

IsRegained_lem :
    (d : HitDie) → IsHitDie d → IsRegained d (record d { current = d.current +ℤ regained d })
unfolding regained
IsRegained_lem d h = record { same_max = refl; current = grind (int_laws, h.low, h.high) }

no_gain : (a b : ℤ) → eq_ℤ (a +ℤ b) a ≡ eq_ℤ b (pos 0)
no_gain a b = grind int_laws

the_gain : (a b : ℤ) → a +ℤ b -ℤ a ≡ b
the_gain a b = grind int_laws

-- With each pool between 0 and its maximum, a long rest raises each kind of hit die by half of its maximum,
-- by at least one and to no more than the maximum, and reports the dice that each kind has gained.
pub recover_dice-Pointwise :
    (pool : Dict String HitDie)
    → AllValues IsHitDie pool
    → let (after, recovered) = recover_dice pool in
      Pointwise IsRegained pool after × (recovered ≡ gains (λ (d : HitDie). d.current) pool after)
unfolding recover_dice
recover_dice-Pointwise [] h = (tt, refl)
recover_dice-Pointwise ((die, d) ∷ pool) h =
    let (later, reported) = recover_dice-Pointwise pool h.1 in
    (
      (refl, IsRegained_lem d h.0, later),
      rw (no_gain d.current (regained d), the_gain d.current (regained d), reported) refl,
    )

-- As many spell slots of the level as there can be.
pub record IsFilled (before after : SpellSlot) : Type 0 where
  pub same_max : after.max ≡ before.max
  pub full : after.current ≡ before.max

restore_slots-Pointwise :
    (slots : Dict ℤ SpellSlot)
    → let (after, restored) = restore_slots slots in
      Pointwise IsFilled slots after × (restored ≡ gains (λ (s : SpellSlot). s.current) slots after)
unfolding restore_slots
restore_slots-Pointwise [] = (tt, refl)
restore_slots-Pointwise ((level, s) ∷ slots) =
    let (later, reported) = restore_slots-Pointwise slots in
    ((refl, record { same_max = refl; full = refl }, later), rw reported refl)

-- A resource with a recharge on a short or long rest holds its maximum, or more if it did; the others are
-- untouched.
abbrev recharged : Recharge → ResourceUse → ResourceUse
recharged Recharge.short r = record r { current = max_ℤ r.current r.max }
recharged Recharge.long r = record r { current = max_ℤ r.current r.max }
recharged _ r = r

abbrev pub IsRecharged : ResourceUse → ResourceUse → Type 0
IsRecharged before after = after ≡ recharged before.recharge before

raised_to : (a m : ℤ) → ltb_ℤ a m ≡ true → m ≡ max_ℤ a m
raised_to a m h = let low : a <ℤ m = ground (arith, h) in omega (int_laws, low)

stays_at : (a m : ℤ) → ltb_ℤ a m ≡ false → a ≡ max_ℤ a m
stays_at a m h = let high : m ≤ℤ a = ground (arith, h) in omega (int_laws, high)

spent_recharged :
    (r : ResourceUse) (k : Recharge)
    → r.recharge ≡ k
    → is_spent true r ≡ true
    → record r { current = r.max } ≡ recharged k r
unfolding is_spent
spent_recharged r Recharge.short e h =
    ap (λ c. record r { current = c }) (raised_to r.current r.max (ground (arith, h)))
spent_recharged r Recharge.long e h =
    ap (λ c. record r { current = c }) (raised_to r.current r.max (ground (arith, h)))
spent_recharged r Recharge.turn e h = let bad = rw e at h in cc
spent_recharged r Recharge.round e h = let bad = rw e at h in cc
spent_recharged r Recharge.encounter e h = let bad = rw e at h in cc
spent_recharged r Recharge.never e h = let bad = rw e at h in cc

unspent_recharged :
    (r : ResourceUse) (k : Recharge) → r.recharge ≡ k → is_spent true r ≡ false → r ≡ recharged k r
unfolding is_spent
unspent_recharged r Recharge.short e h =
    let low : ltb_ℤ r.current r.max ≡ false = rw e at h in
    ap (λ c. record r { current = c }) (stays_at r.current r.max low)
unspent_recharged r Recharge.long e h =
    let low : ltb_ℤ r.current r.max ≡ false = rw e at h in
    ap (λ c. record r { current = c }) (stays_at r.current r.max low)
unspent_recharged r Recharge.turn e h = refl
unspent_recharged r Recharge.round e h = refl
unspent_recharged r Recharge.encounter e h = refl
unspent_recharged r Recharge.never e h = refl

spent_gains : (r : ResourceUse) → is_spent true r ≡ true → eq_ℤ r.max r.current ≡ false
unfolding is_spent
spent_gains r h = ground (arith, h)

same_count : (a : ℤ) → eq_ℤ a a ≡ true
same_count a = ground arith

restore_pools-Pointwise :
    (d : Dict String ResourceUse)
    → let (after, restored) = restore_pools true d in
      Pointwise IsRecharged d after
      × (restored ≡ keys (gains (λ (r : ResourceUse). r.current) d after))
unfolding restore_pools
restore_pools-Pointwise [] = (tt, refl)
restore_pools-Pointwise ((key, r) ∷ d) =
    let (later, reported) = restore_pools-Pointwise d in
    elim (Bool-cases (is_spent true r)) [
      | inl e ↦
          rw e (
            (refl, spent_recharged r r.recharge refl e, later),
            rw (spent_gains r e, reported) refl,
          )
      | inr e ↦ rw e (
        (refl, unspent_recharged r r.recharge refl e, later),
        rw (same_count r.current, reported) refl,
      )
    ]

not_zero : (m : ℤ) → pos 0 <ℤ m → eq_ℤ m (pos 0) ≡ false
not_zero m p = ground arith

missing : (hp max_hp : ℤ) → hp ≤ℤ max_hp → hp +ℤ max_ℤ (pos 0) (max_hp -ℤ hp) ≡ max_hp
missing hp max_hp h = grind (int_laws, h)

-- What a long rest gives back, and what it reports of it.
pub record IsRested (before : CombatantState) (after : CombatantState) (result : RestResult)
    : Type 0 where
  pub hp_full : after.hp ≡ before.max_hp
  pub hp_reported : before.hp +ℤ result.hp_restored ≡ after.hp
  pub slots_filled : Pointwise IsFilled before.spell_slots after.spell_slots
  pub slots_reported :
      result.slots_restored
      ≡ gains (λ (s : SpellSlot). s.current) before.spell_slots after.spell_slots
  pub resources_recharged : Pointwise IsRecharged before.resources after.resources
  pub resources_reported :
      result.resources_restored
      ≡ keys (gains (λ (r : ResourceUse). r.current) before.resources after.resources)

-- For an actor with a positive maximum of hit points and no more than it, a long rest gives all hit points back;
-- each level of spell slots keeps its maximum and is full; each resource with a recharge on a short or
-- long rest is at its maximum, or above it if it was, and the others are untouched. The report has the
-- hit points gained, the slots gained for each level that gained any, and the keys of the resources
-- whose count has changed.
pub apply_long_rest-IsRested :
    (a : Actor)
    → pos 0 <ℤ a.body.max_hp
    → a.body.hp ≤ℤ a.body.max_hp
    → IsRested a.body (apply_long_rest a).0.body (apply_long_rest a).1
unfolding apply_long_rest
apply_long_rest-IsRested a h sound =
    let (filled, slots_told) = restore_slots-Pointwise a.body.spell_slots in
    let (refilled, resources_told) = restore_pools-Pointwise a.body.resources in
    record {
      hp_full = rw (not_zero a.body.max_hp h) refl;
      hp_reported = rw (not_zero a.body.max_hp h) (missing a.body.hp a.body.max_hp sound);
      slots_filled = filled;
      slots_reported = slots_told;
      resources_recharged = refilled;
      resources_reported = resources_told;
    }
