-- ===== src/Rules/Exhaustion/Levels.antt =====
-- The levels of exhaustion.py.
use ai_dm.Prelude.{true, refl, ◌≡◌, ◌↔◌, arith}
use ai_dm.Prelude.Int.{ℤ, pos, ◌+ℤ◌, ◌-ℤ◌, ◌*ℤ◌, ◌≤ℤ◌, int_laws, leb_ℤ}
use ai_dm.Rules.Exhaustion.{clamp, add, remove, d20_penalty, speed_penalty, is_dead}

-- A level on the scale.
abbrev pub IsLevel : ℤ → Type 0
IsLevel level = (pos 0 ≤ℤ level) × (level ≤ℤ pos 6)

-- From a level on the scale, levels that are gained in two steps are those gained at once, and so with
-- levels that are lost, although the scale stops at both ends.
pub steps_add_up :
    (level a b : ℤ)
    → IsLevel level
    → pos 0 ≤ℤ a
    → pos 0 ≤ℤ b
    → (add (add level a) b ≡ add level (a +ℤ b))
      × (remove (remove level a) b ≡ remove level (a +ℤ b))
unfolding add remove clamp
steps_add_up level a b l p q = (omega (int_laws, l.0, l.1), omega (int_laws, l.0, l.1))

clamp-IsLevel : (level : ℤ) → IsLevel (clamp level)
unfolding clamp
clamp-IsLevel level = (omega int_laws, omega int_laws)

clamp_fixed : (level : ℤ) → IsLevel level → clamp level ≡ level
unfolding clamp
clamp_fixed level l = omega (int_laws, l.0, l.1)

at_end : (level : ℤ) → IsLevel level → (leb_ℤ (pos 6) level ≡ true) ↔ (level ≡ pos 6)
at_end level l = (λ h. ground arith, λ h. ground arith)

-- Whatever is gained or lost the level stays on the scale; after a gain the penalties are 2 and 5 for
-- each level, and the creature is dead exactly at level 6.
pub penalties :
    (level n : ℤ)
    → IsLevel (add level n)
      × IsLevel (remove level n)
      × (d20_penalty (add level n) ≡ pos 0 -ℤ add level n *ℤ 2)
      × (speed_penalty (add level n) ≡ pos 0 -ℤ add level n *ℤ 5)
      × ((is_dead (add level n) ≡ true) ↔ (add level n ≡ pos 6))
unfolding add remove d20_penalty speed_penalty is_dead
penalties level n =
    let l = clamp-IsLevel (level +ℤ n) in
    rw (clamp_fixed (clamp (level +ℤ n)) l)
      (l, clamp-IsLevel (level -ℤ n), refl, refl, at_end (clamp (level +ℤ n)) l)
