-- ===== src/Rules/Sustenance.antt =====
-- src/ai_dm/rules/sustenance.py: starvation and dehydration. The constants are those of
-- assets/srd5_2/core/sustenance.json; an actor is its Constitution modifier and its level of exhaustion. The
-- pounds and gallons for each size are left out.
pub mod Fasting
mod Examples
use ai_dm.Prelude.{Bool, true, false, Option, none, some, if◌then◌else◌, get_or_default}
use ai_dm.Prelude.Int.{ℤ, pos, ◌+ℤ◌, ◌*ℤ◌, max_ℤ, leb_ℤ, ltb_ℤ}
use ai_dm.Rules.Exhaustion.{add}

abbrev pub min_grace_days : ℤ
min_grace_days = pos 1

-- `GRACE_PER_CON_MOD` is 1.
unfoldable pub starvation_grace_days : ℤ → ℤ
starvation_grace_days con_modifier = max_ℤ min_grace_days (min_grace_days +ℤ con_modifier *ℤ 1)

-- The new level of the actor.
unfoldable pub tick_starvation : ℤ → ℤ → ℤ → ℤ
unfolding starvation_grace_days
tick_starvation con_modifier exhaustion days_without_food =
    if ltb_ℤ (starvation_grace_days con_modifier) days_without_food
    then add exhaustion (pos 1)
    else exhaustion

unfoldable pub dehydration_dc : ℤ → ℤ
dehydration_dc prev_failed_days = pos 15 +ℤ max_ℤ (pos 0) prev_failed_days *ℤ 5

-- `rolled` is the total of the save where none is given.
unfoldable pub tick_dehydration : ℤ → ℤ → Option ℤ → ℤ → ℤ × Bool
unfolding dehydration_dc
tick_dehydration exhaustion prev_failed_days save_total rolled =
    if leb_ℤ (dehydration_dc prev_failed_days) (get_or_default rolled save_total)
    then (exhaustion, true)
    else (add exhaustion (pos 1), false)
