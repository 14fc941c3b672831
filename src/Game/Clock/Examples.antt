-- ===== src/Game/Clock/Examples.antt =====
-- Runs of src/ai_dm/game/clock.py.
use ai_dm.Prelude.{true, false, ◌↔◌}
use ai_dm.Prelude.Int.{pos, ◌≤ℤ◌, ◌<ℤ◌, ◌*ℤ◌}
use ai_dm.Game.Clock.{Clock, absolute_minute, watches, minutes_per_watch}
use ai_dm.Game.Clock.Watches.{Listed, watches_crossed}

abbrev morning : Clock
morning = record { has_bus = true; start_minute_of_day = pos 480; total_minutes = pos 0 }

abbrev evening : Clock
evening = record { has_bus = false; start_minute_of_day = pos 480; total_minutes = pos 700 }

watches_crossed_example : Listed (pos 3) (watches morning evening) ↔ (
    (absolute_minute morning <ℤ pos 3 *ℤ minutes_per_watch)
    × (pos 3 *ℤ minutes_per_watch ≤ℤ absolute_minute evening))
watches_crossed_example = watches_crossed morning evening (pos 3)
