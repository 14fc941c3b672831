-- ===== src/Game/Clock.antt =====
-- src/ai_dm/game/clock.py: the clock, its phases of the day and the events that it publishes. The
-- event bus is the list of the published events; `_publish` passes over a subscriber that raises.
-- The text `hh_mm` of a payload, which only repeats the hour and the minute, is left out.
pub mod Watches
pub mod Advancing
mod Examples
use ai_dm.Prelude.{
  is_some, ◌||◌, ℕ, zero, suc, Bool, true, false, ◌&&◌, Option, none, some, List, [], ◌∷◌, ◌++◌,
  map, String, if◌then◌else◌, get_or_default,
}
use ai_dm.Prelude.Int.{ℤ, pos, pos_part, ◌+ℤ◌, ◌-ℤ◌, ◌*ℤ◌, leb_ℤ, ltb_ℤ, eq_ℤ, div_ℤ, mod_ℤ}

pub data Phase : Type 0 where
  dawn day dusk night : Phase

abbrev pub dawn_start : ℤ
dawn_start = pos 300

abbrev pub day_start : ℤ
day_start = pos 420

abbrev pub dusk_start : ℤ
dusk_start = pos 1080

abbrev pub night_start : ℤ
night_start = pos 1200

abbrev pub minutes_per_hour : ℕ
minutes_per_hour = 60

abbrev pub minutes_per_day : ℕ
minutes_per_day = 1440

abbrev pub minutes_per_watch : ℕ
minutes_per_watch = 240

abbrev pub short_rest_min : ℤ
short_rest_min = pos 60

abbrev pub long_rest_min : ℤ
long_rest_min = pos 480

unfoldable pub phase_for : ℤ → Phase
phase_for minute_of_day =
    if leb_ℤ dawn_start minute_of_day && ltb_ℤ minute_of_day day_start
    then dawn
    else if leb_ℤ day_start minute_of_day && ltb_ℤ minute_of_day dusk_start
    then day
    else if leb_ℤ dusk_start minute_of_day && ltb_ℤ minute_of_day night_start
    then dusk
    else night

abbrev pub eq_phase : Phase → Phase → Bool
eq_phase dawn dawn = true
eq_phase day day = true
eq_phase dusk dusk = true
eq_phase night night = true
eq_phase _ _ = false

pub record Clock : Type 0 where
  pub has_bus : Bool
  pub start_minute_of_day : ℤ
  pub total_minutes : ℤ

unfoldable pub absolute_minute : Clock → ℤ
absolute_minute c = c.start_minute_of_day +ℤ c.total_minutes

unfoldable pub day_of : Clock → ℤ
day_of c = pos 1 +ℤ div_ℤ (absolute_minute c) minutes_per_day

unfoldable pub minute_of_day : Clock → ℤ
minute_of_day c = mod_ℤ (absolute_minute c) minutes_per_day

unfoldable pub hour_of_day : Clock → ℤ
hour_of_day c = div_ℤ (minute_of_day c) minutes_per_hour

unfoldable pub phase_of : Clock → Phase
phase_of c = phase_for (minute_of_day c)

unfoldable pub watch_of : Clock → ℤ
watch_of c = div_ℤ (absolute_minute c) minutes_per_watch

pub data Reason : Type 0 where
  short_rest_reason long_rest_reason : Reason
  other_reason : String → Reason

pub record State : Type 0 where
  pub delta_minutes : ℤ
  pub total_minutes : ℤ
  pub day : ℤ
  pub hour_of_day : ℤ
  pub minute_of_day : ℤ
  pub phase : Phase
  pub reason : Option Reason
  pub scene_id : Option String

unfoldable pub state_of : Clock → ℤ → Option Reason → Option String → State
state_of c delta reason scene_id = record {
  delta_minutes = delta;
  total_minutes = c.total_minutes;
  day = day_of c;
  hour_of_day = hour_of_day c;
  minute_of_day = minute_of_day c;
  phase = phase_of c;
  reason = reason;
  scene_id = scene_id;
}

pub data Event : Type 0 where
  time_advanced : State → Event
  watch_passed : State → ℤ → ℤ → Event
  phase_changed : State → Phase → Phase → Event
  day_rolled : State → ℤ → ℤ → Event
  short_completed long_completed : State → Event

-- `range(start, start + count)`
unfoldable pub range_from : ℤ → ℕ → List ℤ
range_from start zero = []
range_from start (suc count) = start ∷ range_from (start +ℤ pos 1) count

-- `range(a, b)` is empty if b is not above a.
unfoldable pub range : ℤ → ℤ → List ℤ
unfolding range_from
range a b = range_from a (pos_part (b -ℤ a))

-- The watches whose boundaries lie between two clocks.
unfoldable pub watches : Clock → Clock → List ℤ
watches before after = range (watch_of before +ℤ pos 1) (watch_of after +ℤ pos 1)

abbrev pub watch_event : State → ℤ → Event
watch_event s w = watch_passed s w (w *ℤ minutes_per_watch)

abbrev pub rest_events : Option Reason → State → List Event
rest_events (some short_rest_reason) s = short_completed s ∷ []
rest_events (some long_rest_reason) s = long_completed s ∷ []
rest_events _ s = []

unfoldable pub events : Clock → Clock → State → Option Reason → List Event
events before after s reason =
    time_advanced s
    ∷ (map (watch_event s) (watches before after)
        ++ ((if eq_phase (phase_of after) (phase_of before)
              then []
              else phase_changed s (phase_of before) (phase_of after) ∷ [])
            ++ ((if eq_ℤ (day_of after) (day_of before)
                  then []
                  else day_rolled s (day_of before) (day_of after) ∷ [])
                ++ rest_events reason s)))

-- The clock after the call, what it returns, and what it has published.
pub record Advanced : Type 0 where
  pub clock : Clock
  pub state : State
  pub published : List Event

unfoldable pub advance : Clock → ℤ → Option Reason → Option String → Advanced
advance c minutes reason scene_id =
    let after = record c { total_minutes = c.total_minutes +ℤ minutes } in
    let s = state_of after minutes reason scene_id in
    if leb_ℤ minutes (pos 0)
    then record { clock = c; state = state_of c (pos 0) reason scene_id; published = [] }
    else record {
      clock = after;
      state = s;
      published = if c.has_bus then events c after s reason else [];
    }

unfoldable pub short_rest : Clock → Option String → Advanced
unfolding advance
short_rest c scene_id = advance c short_rest_min (some short_rest_reason) scene_id

unfoldable pub long_rest : Clock → Option String → Advanced
unfolding advance
long_rest c scene_id = advance c long_rest_min (some long_rest_reason) scene_id

-- A snapshot as `restore` reads it: each key may be missing.
pub record Snapshot : Type 0 where
  pub total_minutes : Option ℤ
  pub start_minute_of_day : Option ℤ

unfoldable pub snapshot : Clock → Snapshot
snapshot c = record {
  total_minutes = some c.total_minutes;
  start_minute_of_day = some c.start_minute_of_day;
}

-- An empty snapshot is passed over, as a missing one is.
unfoldable pub restore : Clock → Option Snapshot → Clock
restore c none = c
restore c (some s) =
    if is_some s.total_minutes || is_some s.start_minute_of_day
    then record c {
      total_minutes = get_or_default (pos 0) s.total_minutes;
      start_minute_of_day = get_or_default c.start_minute_of_day s.start_minute_of_day;
    }
    else c
