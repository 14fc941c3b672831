-- ===== src/Game/Resources/Examples.antt =====
-- Runs of the spell slots of src/ai_dm/game/combatant_state.py.
use ai_dm.Prelude.{true, ◌≡◌, refl, arith, some, [], ◌∷◌}
use ai_dm.Prelude.Int.{ℤ, pos, ◌≤ℤ◌}
use ai_dm.Prelude.Dict.{Dict, get, AllValues, int_key}
use ai_dm.Game.Resources.{SpellSlot, lowest_available_slot, has_spend}
use ai_dm.Game.Resources.Pools.{IsPool}
use ai_dm.Game.Resources.Upcast.{lowest_available_slot_least}

abbrev second : SpellSlot
second = record { level = pos 2; current = pos 2; max = pos 3 }

abbrev third : SpellSlot
third = record { level = pos 3; current = pos 1; max = pos 2 }

abbrev slots : Dict ℤ SpellSlot
slots = (pos 3, third) ∷ (pos 2, second) ∷ []

second-IsPool : IsPool second
second-IsPool = record { low = omega arith; high = omega arith }

slots-pools : AllValues IsPool slots
slots-pools = (record { low = omega arith; high = omega arith }, (second-IsPool, tt))

found : get slots (pos 2) ≡ some second
unfolding get
found = refl

has_third : has_spend slots (pos 3) ≡ true
unfolding has_spend get
has_third = refl

lowest_available_slot_least_example :
    (k : ℤ) × (lowest_available_slot slots (pos 1) ≡ some k)
    × (pos 1 ≤ℤ k)
    × (k ≤ℤ pos 3)
    × (has_spend slots k ≡ true)
lowest_available_slot_least_example =
    lowest_available_slot_least slots (pos 1) (pos 3) (omega arith) (omega arith) has_third
