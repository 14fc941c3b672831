-- ===== src/Rules/Sustenance/Examples.antt =====
-- Runs of src/ai_dm/rules/sustenance.py.
use ai_dm.Prelude.{◌≡◌, refl, false, some, arith}
use ai_dm.Prelude.Int.{pos, ◌+ℤ◌, ◌*ℤ◌, max_ℤ, min_ℤ}
use ai_dm.Rules.Exhaustion.{add}
use ai_dm.Rules.Sustenance.{starvation_grace_days, tick_dehydration}
use ai_dm.Rules.Sustenance.Fasting.{starve, starved, starve-starved}

thirsty : tick_dehydration (pos 2) (pos 1) (some (pos 19)) (pos 0) ≡ (pos 3, false)
unfolding tick_dehydration ◌+ℤ◌ ◌*ℤ◌ max_ℤ add min_ℤ
thirsty = refl

starve-starved_example :
    starve (pos 2) 5 (pos 1) ≡ starved (starvation_grace_days (pos 2)) (pos 5) (pos 1)
starve-starved_example = starve-starved (pos 2) 5 (pos 1) (omega arith, omega arith)
