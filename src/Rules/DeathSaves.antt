-- ===== src/Rules/DeathSaves.antt =====
-- src/ai_dm/rules/death_saves.py: the death-save track. The constants are those of
-- assets/srd5_2/core/death_saves.json. The d20 that `roller.roll("1d20")` shows is an argument.
pub mod Invariant
pub mod Settling
mod Examples
use ai_dm.Prelude.{ℕ, Bool, true, false, not, ◌&&◌, Option, none, some, if◌then◌else◌, ◌≡◌, refl}
use ai_dm.Prelude.Int.{ℤ, pos, ◌+ℤ◌, ◌*ℤ◌, leb_ℤ, eq_ℤ, min_ℤ}

abbrev pub dc : ℤ
dc = pos 10

abbrev pub successes_to_stable : ℤ
successes_to_stable = pos 3

abbrev pub failures_to_die : ℤ
failures_to_die = pos 3

abbrev pub nat20_heals_to : ℤ
nat20_heals_to = pos 1

abbrev pub nat1_failures : ℤ
nat1_failures = pos 2

abbrev pub damage_at_zero_failures : ℤ
damage_at_zero_failures = pos 1

abbrev pub crit_at_zero_failures : ℤ
crit_at_zero_failures = pos 2

abbrev pub massive_damage_factor : ℕ
massive_damage_factor = 2

pub record DeathSaveTrack : Type 0 where
  pub successes : ℤ
  pub failures : ℤ
  pub stable : Bool
  pub dead : Bool

-- A new track, and what `reset` leaves.
abbrev pub reset : DeathSaveTrack
reset = record { successes = pos 0; failures = pos 0; stable = false; dead = false }

-- The result refers to the track that the roll has changed.
pub record DeathSaveResult : Type 0 where
  pub roll : ℤ
  pub success : Bool
  pub crit : Bool
  pub fumble : Bool
  pub track : DeathSaveTrack
  pub healed_to : Option ℤ
  pub became_stable : Bool
  pub died : Bool

-- The counters after a roll that is no natural 20.
unfoldable pub count_roll : DeathSaveTrack → ℤ → DeathSaveTrack
count_roll track nat =
    if eq_ℤ nat (pos 1)
    then record track { failures = min_ℤ failures_to_die (track.failures +ℤ nat1_failures) }
    else if leb_ℤ dc nat
    then record track { successes = min_ℤ successes_to_stable (track.successes +ℤ pos 1) }
    else record track { failures = min_ℤ failures_to_die (track.failures +ℤ pos 1) }

-- The verdict on the counters, and the result.
unfoldable pub settle_roll : DeathSaveTrack → ℤ → DeathSaveResult
settle_roll track nat =
    let fumble = eq_ℤ nat (pos 1) in
    let died = leb_ℤ failures_to_die track.failures in
    let became_stable = not died && leb_ℤ successes_to_stable track.successes in
    record {
      roll = nat;
      success = leb_ℤ dc nat && not fumble;
      crit = false;
      fumble = fumble;
      track = record track {
        dead = if died then true else track.dead;
        stable = if became_stable then true else track.stable;
      };
      healed_to = none;
      became_stable = became_stable;
      died = died;
    }

unfoldable pub roll_death_save : DeathSaveTrack → ℤ → DeathSaveResult
unfolding count_roll settle_roll
roll_death_save track nat =
    if eq_ℤ nat (pos 20)
    then record {
      roll = nat;
      success = true;
      crit = true;
      fumble = false;
      track = reset;
      healed_to = some nat20_heals_to;
      became_stable = false;
      died = false;
    }
    else settle_roll (count_roll track nat) nat

unfoldable pub damage_at_zero : DeathSaveTrack → Bool → DeathSaveTrack
damage_at_zero track crit =
    let add = if crit then crit_at_zero_failures else damage_at_zero_failures in
    let failures = min_ℤ failures_to_die (track.failures +ℤ add) in
    record track {
      failures = failures;
      stable = false;
      dead = if leb_ℤ failures_to_die failures then true else track.dead;
    }

unfoldable pub is_massive_damage : ℤ → ℤ → Bool
is_massive_damage amount max_hp =
    if leb_ℤ max_hp (pos 0) then false else leb_ℤ (max_hp *ℤ massive_damage_factor) amount
