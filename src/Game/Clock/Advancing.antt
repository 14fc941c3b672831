-- ===== src/Game/Clock/Advancing.antt =====
-- The readings of clock.py between two steps, its phases, and its snapshots.
use ai_dm.Prelude.{ℕ, ◌-◌, ◌%◌, ◌<◌, ◌≡◌, ◌↔◌, ◌⊎◌, refl, arith, none, some}
use ai_dm.Prelude.Int.{ℤ, pos, negsuc, ◌≤ℤ◌, ◌<ℤ◌, ◌+ℤ◌, ◌*ℤ◌, div_ℤ, mod_ℤ, sum_laws}
use ai_dm.Game.Clock.{
  Clock, Phase, dawn, day, dusk, night, phase_for, phase_of, minute_of_day, hour_of_day, day_of,
  absolute_minute, snapshot, restore,
}

split_day : (a : ℤ) → (pos 1 +ℤ div_ℤ a 1440) *ℤ 1440 +ℤ mod_ℤ a 1440 ≡ a +ℤ pos 1440
unfolding div_ℤ mod_ℤ
split_day (pos n) = omega sum_laws
split_day (negsuc n) = omega sum_laws

mod_day : (a : ℤ) → (m : ℕ) × (mod_ℤ a 1440 ≡ pos m) × (m < 1440)
unfolding mod_ℤ
mod_day (pos n) = (n % 1440, refl, omega arith)
mod_day (negsuc n) = (1440 - 1 - n % 1440, refl, omega arith)

-- The day, the hour and the minute spell the absolute minute out, and stay in their ranges.
pub readings :
    (c : Clock)
    → ((day_of c *ℤ 1440) +ℤ minute_of_day c ≡ absolute_minute c +ℤ pos 1440)
      × (pos 0 ≤ℤ minute_of_day c)
      × (minute_of_day c ≤ℤ pos 1439)
      × (pos 0 ≤ℤ hour_of_day c)
      × (hour_of_day c ≤ℤ pos 23)
unfolding day_of minute_of_day hour_of_day
readings c =
    let (m, e, low) = mod_day (absolute_minute c) in
    (
      split_day (absolute_minute c),
      rw e (omega arith),
      rw e (omega arith),
      rw e (unfold div_ℤ in omega arith),
      rw e (unfold div_ℤ in omega arith),
    )

-- The hours at which each phase begins and ends.
abbrev pub InPhase : Phase → ℤ → Type 0
InPhase night h = (h <ℤ pos 5) ⊎ (pos 20 ≤ℤ h)
InPhase dawn h = (pos 5 ≤ℤ h) × (h <ℤ pos 7)
InPhase day h = (pos 7 ≤ℤ h) × (h <ℤ pos 18)
InPhase dusk h = (pos 18 ≤ℤ h) × (h <ℤ pos 20)

phase_hours : (m : ℕ) (p : Phase) → phase_for (pos m) ≡ p ↔ InPhase p (div_ℤ (pos m) 60)
unfolding phase_for div_ℤ
phase_hours m night = (λ h. ground arith, λ h. ground arith)
phase_hours m dawn = (λ h. ground arith, λ h. ground arith)
phase_hours m day = (λ h. ground arith, λ h. ground arith)
phase_hours m dusk = (λ h. ground arith, λ h. ground arith)

-- A clock shows a phase exactly in the hours of that phase.
pub phase_by_hour : (c : Clock) (p : Phase) → phase_of c ≡ p ↔ InPhase p (hour_of_day c)
unfolding phase_of hour_of_day minute_of_day
phase_by_hour c p = let (m, e, _) = mod_day (absolute_minute c) in rw e (phase_hours m p)

-- A clock that restores another's snapshot shows that clock's time from then on; without a snapshot
-- it stays as it is.
pub restore-snapshot :
    (c d : Clock)
    → (restore c (some (snapshot d)) ≡ record d { has_bus = c.has_bus }) × (restore c none ≡ c)
unfolding restore snapshot
restore-snapshot c d = (refl, refl)
