-- ===== src/Rules/Sustenance/Fasting.antt =====
-- sustenance.py: days without food or water.
use ai_dm.Prelude.{
  ℕ, zero, suc, true, false, ◌≡◌, sym, ap, ◌∙◌, arith, Bool-cases, inl, inr, if◌then◌else◌,
}
use ai_dm.Prelude.Int.{ℤ, pos, ◌+ℤ◌, ◌-ℤ◌, ◌≤ℤ◌, ◌<ℤ◌, ltb_ℤ, max_ℤ, min_ℤ, int_laws}
use ai_dm.Rules.Exhaustion.{add, clamp, is_dead}
use ai_dm.Rules.Exhaustion.Levels.{IsLevel}
use ai_dm.Rules.Sustenance.{starvation_grace_days, tick_starvation}

-- The level after `n` days without food, ticked on each of them.
unfoldable pub starve : ℤ → ℕ → ℤ → ℤ
unfolding tick_starvation
starve con_modifier zero exhaustion = exhaustion
starve con_modifier (suc n) exhaustion =
    tick_starvation con_modifier (starve con_modifier n exhaustion) (pos (suc n))

-- One level for each day past the days of grace, up to the end of the scale.
abbrev pub starved : ℤ → ℤ → ℤ → ℤ
starved grace n exhaustion = min_ℤ (pos 6) (exhaustion +ℤ max_ℤ (pos 0) (n -ℤ grace))

one_day :
    (grace n e : ℤ)
    → IsLevel e
    → (if ltb_ℤ grace (n +ℤ pos 1) then add (starved grace n e) (pos 1) else starved grace n e)
      ≡ starved grace (n +ℤ pos 1) e
unfolding add clamp
one_day grace n e l = elim (Bool-cases (ltb_ℤ grace (n +ℤ pos 1))) [
  | inl past ↦ rw past (omega (int_laws, past_grace grace (n +ℤ pos 1) past, l.0, l.1))
  | inr still ↦ rw still (omega (int_laws, within_grace grace (n +ℤ pos 1) still, l.0, l.1))
]
  where
    past_grace : (a b : ℤ) → ltb_ℤ a b ≡ true → a <ℤ b
    past_grace a b h = ground (arith, h)

    within_grace : (a b : ℤ) → ltb_ℤ a b ≡ false → b ≤ℤ a
    within_grace a b h = ground (arith, h)

next_day : (n : ℕ) → pos (suc n) ≡ pos n +ℤ pos 1
next_day n = omega int_laws

positive_grace : (con_modifier : ℤ) → pos 1 ≤ℤ starvation_grace_days con_modifier
unfolding starvation_grace_days
positive_grace con_modifier = omega int_laws

-- Without food an actor takes one level for each day past its days of grace, up to the end of the scale.
pub starve-starved :
    (con_modifier : ℤ) (n : ℕ) (exhaustion : ℤ)
    → IsLevel exhaustion
    → starve con_modifier n exhaustion
      ≡ starved (starvation_grace_days con_modifier) (pos n) exhaustion
unfolding starve tick_starvation
starve-starved con zero e l = omega (int_laws, positive_grace con, l.0, l.1)
starve-starved con (suc n) e l =
    let grace = starvation_grace_days con in
    ap (λ (x : ℤ). if ltb_ℤ grace (pos (suc n)) then add x (pos 1) else x)
      (starve-starved con n e l)
    ∙ ap
        (λ (d : ℤ).
          if ltb_ℤ grace d then add (starved grace (pos n) e) (pos 1) else starved grace (pos n) e)
        (next_day n)
    ∙ one_day grace (pos n) e l
    ∙ ap (λ (d : ℤ). starved grace d e) (sym (next_day n))

starved_to_end : (grace n e : ℤ) → IsLevel e → grace +ℤ pos 6 ≤ℤ n → starved grace n e ≡ pos 6
starved_to_end grace n e l long = omega (int_laws, l.0, l.1)

-- Whoever eats nothing for six days more than the days of grace, or for longer, is dead, whatever the
-- level it starts from.
pub starve-is_dead :
    (con_modifier exhaustion : ℤ) (n : ℕ)
    → IsLevel exhaustion
    → starvation_grace_days con_modifier +ℤ pos 6 ≤ℤ pos n
    → is_dead (starve con_modifier n exhaustion) ≡ true
unfolding is_dead clamp max_ℤ min_ℤ
starve-is_dead con e n l long =
    ap is_dead
      (starve-starved con n e l ∙ starved_to_end (starvation_grace_days con) (pos n) e l long)
