-- ===== src/Game/Resources/Pools.antt =====
-- What the slots and resources of combatant_state.py keep.
use ai_dm.Prelude.{true, false, ◌≡◌, ◌⊎◌, arith, some, Option-cases, inl, inr}
use ai_dm.Prelude.Int.{ℤ, pos, ◌≤ℤ◌, ◌<ℤ◌, ◌+ℤ◌, ◌-ℤ◌, min_ℤ, eq_ℤ, -ℤ_parts}
use ai_dm.Prelude.Dict.{
  Dict, AllValues, AllValues-get, AllValues-put, get, get-put_self, get-put_ne, int_key, string_key,
}
use ai_dm.Game.Resources.{SpellSlot, spend, restore, spend_slot}

pub record IsPool (s : SpellSlot) : Type 0 where
  pub low : pos 0 ≤ℤ s.current
  pub high : s.current ≤ℤ s.max

pub spend-IsPool : (s : SpellSlot) (n : ℤ) → pos 0 ≤ℤ n → IsPool s → IsPool (spend s n).0
unfolding spend
spend-IsPool s n h p = ground (arith, -ℤ_parts s.current n)

-- A spend that succeeds is undone by a restore of as many.
pub restore-spend :
    (s : SpellSlot) (n : ℤ) → IsPool s → (spend s n).1 ≡ true → restore (spend s n).0 (some n) ≡ s
unfolding spend restore ◌+ℤ◌ ◌-ℤ◌ min_ℤ
restore-spend s n p e = ground arith

-- Spending a number of slots that is not negative keeps every pool between 0 and its maximum,
-- whether or not the level exists and has enough left.
pub spend_slot-pools :
    (slots : Dict ℤ SpellSlot) (level n : ℤ)
    → pos 0 ≤ℤ n
    → AllValues IsPool slots
    → AllValues IsPool (spend_slot slots level n).0
unfolding spend_slot
spend_slot-pools slots level n h p = elim (Option-cases (get slots level)) [
  | inl e ↦ rw (e, spend_slot) p
  | inr (slot, e) ↦
      rw (e, spend_slot)
        (AllValues-put IsPool slots level (spend slot n).0 p
          (spend-IsPool slot n h (AllValues-get IsPool slots level slot p e)))
]

-- A spend succeeds exactly if the level has that many slots; then the level has so many fewer, and
-- otherwise it keeps what it has.
pub spend_slot_exact :
    (slots : Dict ℤ SpellSlot) (level n : ℤ) (slot : SpellSlot)
    → get slots level ≡ some slot
    → ((n ≤ℤ slot.current)
        × ((spend_slot slots level n).1 ≡ true)
        × (get (spend_slot slots level n).0 level
            ≡ some (record slot { current = slot.current -ℤ n })))
      ⊎ ((slot.current <ℤ n)
          × ((spend_slot slots level n).1 ≡ false)
          × (get (spend_slot slots level n).0 level ≡ some slot))
unfolding spend_slot spend
spend_slot_exact slots level n slot e =
    rw (e, spend_slot)
      (ground (
        arith,
        get-put_self slots level slot,
        get-put_self slots level (record slot { current = slot.current -ℤ n }),
      ))

-- Other levels keep their slots.
pub spend_slot_frame :
    (slots : Dict ℤ SpellSlot) (level other n : ℤ)
    → eq_ℤ level other ≡ false
    → get (spend_slot slots level n).0 other ≡ get slots other
unfolding spend_slot
spend_slot_frame slots level other n h = elim (Option-cases (get slots level)) [
  | inl e ↦ rw (e, spend_slot)
  | inr (slot, e) ↦ rw (e, spend_slot) (get-put_ne slots level other (spend slot n).0 h)
]
