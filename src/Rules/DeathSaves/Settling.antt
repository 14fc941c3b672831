-- ===== src/Rules/DeathSaves/Settling.antt =====
-- How long a creature of death_saves.py rolls, and what damage does to a stable one.
use ai_dm.Prelude.{
  ◌+◌, ◌≤◌, suc, Bool, true, false, ◌≡◌, ◌||◌, arith, List, [], ◌∷◌, length, is_some,
}
use ai_dm.Prelude.Int.{ℤ, pos, pos_part, ◌≤ℤ◌, ◌+ℤ◌, min_ℤ}
use ai_dm.Rules.DeathSaves.{DeathSaveTrack, DeathSaveResult, roll_death_save, damage_at_zero}
use ai_dm.Rules.DeathSaves.Invariant.{IsTrack, roll-IsTrack}

-- The roll ended the dying: by death, by a stable state, or at 1 hit point.
abbrev pub is_settled : DeathSaveResult → Bool
is_settled r = r.died || (r.became_stable || is_some r.healed_to)

-- Some roll of the series settles the fate of the creature.
unfoldable pub settles : DeathSaveTrack → List ℤ → Bool
settles t [] = false
settles t (nat ∷ rest) =
    let r = roll_death_save t nat in let later = settles r.track rest in is_settled r || later

settle_step :
    (t : DeathSaveTrack) (nat : ℤ)
    → IsTrack t
    → is_settled (roll_death_save t nat) ≡ false
    → suc (pos_part t.successes + pos_part t.failures)
      ≤ pos_part (roll_death_save t nat).track.successes
        + pos_part (roll_death_save t nat).track.failures
unfolding roll_death_save ◌+ℤ◌ min_ℤ
settle_step t nat h e = ground arith

open_bound :
    (t : DeathSaveTrack) (nat : ℤ)
    → IsTrack t
    → is_settled (roll_death_save t nat) ≡ false
    → pos_part (roll_death_save t nat).track.successes
        + pos_part (roll_death_save t nat).track.failures
      ≤ 4
unfolding roll_death_save ◌+ℤ◌ min_ℤ
open_bound t nat h e = ground arith

settles_from :
    (t : DeathSaveTrack) (rolls : List ℤ)
    → IsTrack t
    → pos_part t.successes + pos_part t.failures ≤ 4
    → 5 ≤ pos_part t.successes + pos_part t.failures + length rolls
    → settles t rolls ≡ true
unfolding settles
settles_from t [] h few many = absurd (omega arith)
settles_from t (nat ∷ rest) h few many = ground (
  arith,
  settle_step t nat h,
  open_bound t nat h,
  settles_from (roll_death_save t nat).track rest (roll-IsTrack t nat h),
)

-- Five saves settle the fate of a creature with less than five marks, whatever it rolls.
pub settles_in_five :
    (t : DeathSaveTrack) (rolls : List ℤ)
    → IsTrack t
    → t.successes +ℤ t.failures ≤ℤ pos 4
    → 5 ≤ length rolls
    → settles t rolls ≡ true
unfolding ◌+ℤ◌
settles_in_five t rolls h few many = settles_from t rolls h (ground arith) (omega arith)

-- A stable creature with no failure that takes damage from no critical hit, and then fails its save with a
-- roll of 2 to 9, becomes stable again by this roll.
pub stable_after_failed_save :
    (t : DeathSaveTrack) (nat : ℤ)
    → IsTrack t
    → t.stable ≡ true
    → t.failures ≡ pos 0
    → pos 2 ≤ℤ nat
    → nat ≤ℤ pos 9
    → let r = roll_death_save (damage_at_zero t false) nat in
      (r.success ≡ false) × (r.became_stable ≡ true) × (r.track.stable ≡ true)
unfolding roll_death_save damage_at_zero ◌+ℤ◌ min_ℤ
stable_after_failed_save t nat h s f low high = ground arith
