-- ===== src/Rules/Exhaustion.antt =====
-- src/ai_dm/rules/exhaustion.py. The constants are those of assets/srd5_2/core/exhaustion.json.
pub mod Levels
use ai_dm.Prelude.{Bool}
use ai_dm.Prelude.Int.{ℤ, pos, ◌+ℤ◌, ◌-ℤ◌, ◌*ℤ◌, min_ℤ, max_ℤ, leb_ℤ}

abbrev pub max_level : ℤ
max_level = pos 6

abbrev pub death_at : ℤ
death_at = pos 6

unfoldable pub clamp : ℤ → ℤ
clamp level = max_ℤ (pos 0) (min_ℤ max_level level)

unfoldable pub add : ℤ → ℤ → ℤ
unfolding clamp
add level n = clamp (level +ℤ n)

unfoldable pub remove : ℤ → ℤ → ℤ
unfolding clamp
remove level n = clamp (level -ℤ n)

-- -2 for each level
unfoldable pub d20_penalty : ℤ → ℤ
unfolding clamp
d20_penalty level = pos 0 -ℤ clamp level *ℤ 2

-- -5 feet for each level
unfoldable pub speed_penalty : ℤ → ℤ
unfolding clamp
speed_penalty level = pos 0 -ℤ clamp level *ℤ 5

unfoldable pub is_dead : ℤ → Bool
unfolding clamp
is_dead level = leb_ℤ death_at (clamp level)
