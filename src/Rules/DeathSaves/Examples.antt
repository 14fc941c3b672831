-- ===== src/Rules/DeathSaves/Examples.antt =====
-- Runs of src/ai_dm/rules/death_saves.py.
use ai_dm.Prelude.{true, false, ◌≡◌, refl, arith, List, [], ◌∷◌}
use ai_dm.Prelude.Int.{ℤ, pos, ◌+ℤ◌}
use ai_dm.Rules.DeathSaves.{DeathSaveTrack, reset, roll_death_save, damage_at_zero}
use ai_dm.Rules.DeathSaves.Invariant.{
  IsTrack, reset-IsTrack, Event, rolled, damaged, react_all, react_all-reset-IsTrack,
}
use ai_dm.Rules.DeathSaves.Settling.{settles, settles_in_five, stable_after_failed_save}

abbrev evening : List Event
evening = rolled (pos 12) ∷ damaged true ∷ rolled (pos 1) ∷ []

react_all-reset-IsTrack_example : IsTrack (react_all reset evening)
react_all-reset-IsTrack_example = react_all-reset-IsTrack evening

abbrev rolls : List ℤ
rolls = pos 12 ∷ pos 4 ∷ pos 15 ∷ pos 9 ∷ pos 11 ∷ []

settles_in_five_example : settles reset rolls ≡ true
unfolding ◌+ℤ◌
settles_in_five_example = settles_in_five reset rolls reset-IsTrack (omega arith) (omega arith)

abbrev stable_track : DeathSaveTrack
stable_track = record { successes = pos 3; failures = pos 0; stable = true; dead = false }

stable_track-IsTrack : IsTrack stable_track
stable_track-IsTrack = record {
  successes_low = omega arith;
  successes_high = omega arith;
  failures_low = omega arith;
  failures_high = omega arith;
  stable_earned = λ h. refl;
  dead_earned = λ h. ground arith;
  dead_noticed = λ h. ground arith;
}

stable_after_failed_save_example :
    ((roll_death_save (damage_at_zero stable_track false) (pos 5)).success ≡ false)
    × ((roll_death_save (damage_at_zero stable_track false) (pos 5)).became_stable ≡ true)
    × ((roll_death_save (damage_at_zero stable_track false) (pos 5)).track.stable ≡ true)
stable_after_failed_save_example =
    stable_after_failed_save stable_track (pos 5) stable_track-IsTrack refl refl (omega arith)
      (omega arith)
