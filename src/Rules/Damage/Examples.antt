-- ===== src/Rules/Damage/Examples.antt =====
-- Runs of src/ai_dm/rules/damage.py.
use ai_dm.Prelude.{◌≡◌, arith, some, List, [], ◌∷◌, String}
use ai_dm.Prelude.Int.{pos, ◌-ℤ◌, max_ℤ}
use ai_dm.Rules.Damage.{Target, apply_damage}
use ai_dm.Rules.Damage.Pool.{pool, IsSound, apply_damage-pool}

abbrev goblin : Target
goblin = record { hp = some (pos 10); temp_hp = some (pos 4); max_hp = some (pos 12) }

goblin-IsSound : IsSound goblin
goblin-IsSound = record { hp_nonneg = omega arith; temp_nonneg = omega arith }

fire : String
fire = "fire"

apply_damage-pool_example :
    pool (apply_damage goblin (pos 9) fire).0 ≡ max_ℤ (pos 0) (pool goblin -ℤ max_ℤ (pos 0) (pos 9))
apply_damage-pool_example = apply_damage-pool goblin (pos 9) fire goblin-IsSound

abbrev resisted : List String
resisted = "fire" ∷ []
