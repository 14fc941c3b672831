-- ===== src/Game/Resources.antt =====
-- SpellSlot, ResourceUse and Nourishment of src/ai_dm/game/combatant_state.py, with the slot and
-- resource methods of CombatantState, on its dictionaries `spell_slots` and `resources`.
pub mod Pools
pub mod Upcast
mod Examples
use ai_dm.Prelude.{Bool, true, false, not, Option, none, some, List, [], ◌∷◌, String, if◌then◌else◌}
use ai_dm.Prelude.Int.{ℤ, pos, ◌+ℤ◌, ◌-ℤ◌, ltb_ℤ, leb_ℤ, min_ℤ}
use ai_dm.Prelude.Dict.{Dict, get, put, keys, map_values, int_key, string_key}

pub record SpellSlot : Type 0 where
  pub level : ℤ
  pub current : ℤ
  pub max : ℤ

unfoldable pub spend : SpellSlot → ℤ → SpellSlot × Bool
spend slot n =
    if ltb_ℤ slot.current n
    then (slot, false)
    else (record slot { current = slot.current -ℤ n }, true)

-- Without an amount the pool is filled.
unfoldable pub restore : SpellSlot → Option ℤ → SpellSlot
restore slot none = record slot { current = slot.max }
restore slot (some n) = record slot { current = min_ℤ slot.max (slot.current +ℤ n) }

pub data Recharge : Type 0 where
  short long turn round encounter never : Recharge

abbrev pub eq_recharge : Recharge → Recharge → Bool
eq_recharge short short = true
eq_recharge long long = true
eq_recharge turn turn = true
eq_recharge round round = true
eq_recharge encounter encounter = true
eq_recharge never never = true
eq_recharge _ _ = false

pub record ResourceUse : Type 0 where
  pub key : String
  pub current : ℤ
  pub max : ℤ
  pub recharge : Recharge

abbrev pub refresh : Recharge → ResourceUse → ResourceUse
refresh kind r = if eq_recharge r.recharge kind then record r { current = r.max } else r

-- `_restore_resources_with_recharge`
unfoldable pub restore_resources : Recharge → Dict String ResourceUse → Dict String ResourceUse
restore_resources kind = map_values (refresh kind)

-- `spend_slot`: the slot object in the dictionary is changed in place.
unfoldable pub spend_slot : Dict ℤ SpellSlot → ℤ → ℤ → Dict ℤ SpellSlot × Bool
unfolding spend
spend_slot slots level n = elim (get slots level) [
  | none ↦ (slots, false)
  | some slot ↦ let (slot', done) = spend slot n in (put slots level slot', done)
]

-- `sorted` on the keys, by insertion.
insert_level : ℤ → List ℤ → List ℤ
insert_level a [] = a ∷ []
insert_level a (b ∷ bs) = let rest = insert_level a bs in if leb_ℤ a b then a ∷ b ∷ bs else b ∷ rest

unfoldable pub sorted : List ℤ → List ℤ
unfolding insert_level
sorted [] = []
sorted (a ∷ bs) = insert_level a (sorted bs)

unfoldable pub has_spend : Dict ℤ SpellSlot → ℤ → Bool
has_spend slots level = elim (get slots level) [
  | none ↦ false
  | some slot ↦ ltb_ℤ (pos 0) slot.current
]

unfoldable pub first_spend : Dict ℤ SpellSlot → ℤ → List ℤ → Option ℤ
unfolding has_spend
first_spend slots min_level [] = none
first_spend slots min_level (level ∷ levels) =
    let later = first_spend slots min_level levels in
    if ltb_ℤ level min_level then later else if has_spend slots level then some level else later

unfoldable pub lowest_available_slot : Dict ℤ SpellSlot → ℤ → Option ℤ
lowest_available_slot slots min_level =
    if ltb_ℤ min_level (pos 1) then none else first_spend slots min_level (sorted (keys slots))

pub record Nourishment : Type 0 where
  pub days_without_food : ℤ
  pub days_without_water : ℤ
  pub last_meal_minute : Option ℤ
  pub last_drink_minute : Option ℤ
  pub dehydration_failed_days : ℤ

unfoldable pub eat_ration : Nourishment → Option ℤ → Nourishment
eat_ration n at_minute = record n { days_without_food = pos 0; last_meal_minute = at_minute }

unfoldable pub drink_water : Nourishment → Option ℤ → Nourishment
drink_water n at_minute = record n {
  days_without_water = pos 0;
  dehydration_failed_days = pos 0;
  last_drink_minute = at_minute;
}

unfoldable pub start_new_day : Nourishment → Bool → Bool → Nourishment
start_new_day n ate_today drank_today = record n {
  days_without_food = if ate_today then pos 0 else n.days_without_food +ℤ pos 1;
  days_without_water = if drank_today then pos 0 else n.days_without_water +ℤ pos 1;
}
