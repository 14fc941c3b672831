-- ===== src/Rules/DeathSaves/Invariant.antt =====
-- What holds of a track of death_saves.py between two events, and what one event decides.
use ai_dm.Prelude.{Bool, true, ◌≡◌, arith, List, [], ◌∷◌}
use ai_dm.Prelude.Int.{ℤ, pos, ◌≤ℤ◌, ◌+ℤ◌, min_ℤ}
use ai_dm.Rules.DeathSaves.{DeathSaveTrack, reset, roll_death_save, damage_at_zero}

pub record IsTrack (t : DeathSaveTrack) : Type 0 where
  pub successes_low : pos 0 ≤ℤ t.successes
  pub successes_high : t.successes ≤ℤ pos 3
  pub failures_low : pos 0 ≤ℤ t.failures
  pub failures_high : t.failures ≤ℤ pos 3
  pub stable_earned : t.stable ≡ true → t.successes ≡ pos 3
  pub dead_earned : t.dead ≡ true → t.failures ≡ pos 3
  pub dead_noticed : t.failures ≡ pos 3 → t.dead ≡ true

pub reset-IsTrack : IsTrack reset
reset-IsTrack = ground arith

pub roll-IsTrack :
    (t : DeathSaveTrack) (nat : ℤ) → IsTrack t → IsTrack (roll_death_save t nat).track
unfolding roll_death_save ◌+ℤ◌ min_ℤ
roll-IsTrack t nat h = ground arith

pub damage-IsTrack :
    (t : DeathSaveTrack) (crit : Bool) → IsTrack t → IsTrack (damage_at_zero t crit)
unfolding damage_at_zero ◌+ℤ◌ min_ℤ
damage-IsTrack t crit h = ground arith

-- What happens to a creature at 0 hit points: it rolls a save, or it takes damage.
pub data Event : Type 0 where
  rolled : ℤ → Event
  damaged : Bool → Event

unfoldable pub react : DeathSaveTrack → Event → DeathSaveTrack
react t (rolled nat) = (roll_death_save t nat).track
react t (damaged crit) = damage_at_zero t crit

unfoldable pub react_all : DeathSaveTrack → List Event → DeathSaveTrack
react_all t [] = t
react_all t (e ∷ es) = react_all (react t e) es

react-IsTrack : (t : DeathSaveTrack) (e : Event) → IsTrack t → IsTrack (react t e)
unfolding react
react-IsTrack t (rolled nat) h = roll-IsTrack t nat h
react-IsTrack t (damaged crit) h = damage-IsTrack t crit h

react_all-IsTrack : (t : DeathSaveTrack) (es : List Event) → IsTrack t → IsTrack (react_all t es)
unfolding react_all
react_all-IsTrack t [] h = h
react_all-IsTrack t (e ∷ es) h = react_all-IsTrack (react t e) es (react-IsTrack t e h)

-- After any rolls and any damage the counters lie between 0 and 3, a stable creature has three
-- successes, and a creature is dead exactly when it has three failures.
pub react_all-reset-IsTrack : (es : List Event) → IsTrack (react_all reset es)
react_all-reset-IsTrack es = react_all-IsTrack reset es reset-IsTrack
