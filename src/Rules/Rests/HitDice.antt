-- ===== src/Rules/Rests/HitDice.antt =====
-- The hit dice that are spent on a short rest of rests.py.
use mathlib.Core.Path.{subst}
use ai_dm.Prelude.{
  ap, ◌∙◌, ℕ, ◌+◌, zero, suc, ◌≡◌, refl, arith, Option, none, some, [], ◌∷◌, String, Bool-cases,
  inl, inr,
}
use ai_dm.Prelude.Int.{
  ℤ, pos, pos_part, neg_part, ◌+ℤ◌, ◌-ℤ◌, ◌≤ℤ◌, min_ℤ, max_ℤ, sum_laws, int_laws,
}
use ai_dm.Prelude.Dict.{Dict, get, put, AllValues, AllValues-get, AllValues-put, string_key}
use ai_dm.Rules.Rests.{HitDie, rolled_healing, Spending, spend_die, spend_entry, spend_dice}

pub record IsHitDie (d : HitDie) : Type 0 where
  pub low : pos 0 ≤ℤ d.current
  pub high : d.current ≤ℤ d.max

-- The sum over the first rolls of the larger of 1 and the roll with the modifier.
abbrev pub sum_healing : (ℕ → ℤ) → ℤ → ℕ → ℤ
sum_healing draw con zero = pos 0
sum_healing draw con (suc n) = sum_healing draw con n +ℤ max_ℤ (pos 1) (draw n +ℤ con)

-- All dice of the pools.
abbrev pub available : Dict String HitDie → ℤ
available [] = pos 0
available ((die, d) ∷ pool) = d.current +ℤ available pool

-- While hit dice are spent: each pool lies between 0 and its maximum, each rolled die has healed the larger of
-- 1 and its roll with the modifier, and the rolled dice are those missing from the stock.
pub record IsSpending (draw : ℕ → ℤ) (con stock : ℤ) (s : Spending) : Type 0 where
  pub pools : AllValues IsHitDie s.pool
  pub each_heals : s.healed ≡ sum_healing draw con s.rolls
  pub all_rolled : available s.pool +ℤ pos s.rolls ≡ stock

healing_of_roll :
    (draw : ℕ → ℤ) (con : ℤ) (n k : ℕ)
    → sum_healing draw con n +ℤ rolled_healing draw con n k ≡ sum_healing draw con (n + k)
unfolding rolled_healing
healing_of_roll draw con n zero =
    let same : n ≡ n + 0 = omega arith in
    let plain : sum_healing draw con n +ℤ pos 0 ≡ sum_healing draw con n = grind int_laws in
    plain ∙ ap (λ m. sum_healing draw con m) same
healing_of_roll draw con n (suc k) =
    subst
      (λ m. sum_healing draw con n +ℤ rolled_healing draw con n (suc k) ≡ sum_healing draw con m)
      (let same : n + 1 + k ≡ n + suc k = omega arith in same)
      (let later = healing_of_roll draw con (n + 1) k in grind (int_laws, later))

available-put :
    (pool : Dict String HitDie) (die : String) (d e : HitDie)
    → get pool die ≡ some d
    → available (put pool die e) +ℤ d.current ≡ available pool +ℤ e.current
unfolding get put
available-put [] die d e h = cc
available-put ((k, x) ∷ pool) die d e h = elim (Bool-cases (string_key.same k die)) [
  | inl s ↦
      let hit : some x ≡ some d = rw s at h in
      rw s (
        subst
          (λ o. elim o [
            | none ↦ Unit
            | some y ↦
                e.current +ℤ available pool +ℤ y.current ≡ x.current +ℤ available pool +ℤ e.current
          ])
          hit (omega sum_laws))
  | inr n ↦
      let later = available-put pool die d e (rw n at h) in
      rw n (omega (sum_laws, ap pos_part later, ap neg_part later))
]

spent_IsHitDie :
    (d : HitDie) (n : ℤ)
    → IsHitDie d
    → IsHitDie (record d { current = d.current -ℤ max_ℤ (pos 0) (min_ℤ n d.current) })
spent_IsHitDie d n h = record {
  low = omega (int_laws, h.low);
  high = omega (int_laws, h.low, h.high);
}

stock_kept :
    (before after current used stock : ℤ) (rolls : ℕ)
    → pos 0 ≤ℤ used
    → after +ℤ current ≡ before +ℤ (current -ℤ used)
    → before +ℤ pos rolls ≡ stock
    → after +ℤ pos (rolls + pos_part used) ≡ stock
stock_kept before after current used stock rolls low moved h = grind (int_laws, low, moved, h)

module _ (draw : ℕ → ℤ) (con stock : ℤ) where
  spend_entry-IsSpending :
      (die : String) (n : ℤ) (s : Spending) (o : Option HitDie)
      → IsSpending draw con stock s
      → get s.pool die ≡ o
      → IsSpending draw con stock (spend_entry draw con die n s o)
  unfolding spend_entry
  spend_entry-IsSpending die n s none h e = h
  spend_entry-IsSpending die n s (some d) h e =
      let used = max_ℤ (pos 0) (min_ℤ n d.current) in
      let sound = AllValues-get IsHitDie s.pool die d h.pools e in
      let left : HitDie = record d { current = d.current -ℤ used } in
      record {
        pools = AllValues-put IsHitDie s.pool die left h.pools (spent_IsHitDie d n sound);
        each_heals =
            ap (λ t. t +ℤ rolled_healing draw con s.rolls (pos_part used)) h.each_heals
            ∙ healing_of_roll draw con s.rolls (pos_part used);
        all_rolled =
            stock_kept (available s.pool) (available (put s.pool die left)) d.current used stock
              s.rolls (omega int_laws) (available-put s.pool die d left e) h.all_rolled;
      }

  spend_die-IsSpending :
      (die : String) (n : ℤ) (s : Spending)
      → IsSpending draw con stock s
      → IsSpending draw con stock (spend_die draw con die n s)
  unfolding spend_die
  spend_die-IsSpending die n s h = spend_entry-IsSpending die n s (get s.pool die) h refl

  -- Whatever is asked for, spending hit dice keeps every pool between 0 and its maximum, the dice left and
  -- the dice rolled together as many as there were, and the healing the sum, over the rolled dice, of
  -- the larger of 1 and the roll with the modifier.
  pub spend_dice-IsSpending :
      (wanted : Dict String ℤ) (s : Spending)
      → IsSpending draw con stock s
      → IsSpending draw con stock (spend_dice draw con wanted s)
  unfolding spend_dice
  spend_dice-IsSpending [] s h = h
  spend_dice-IsSpending ((die, n) ∷ wanted) s h =
      spend_dice-IsSpending wanted (spend_die draw con die n s) (spend_die-IsSpending die n s h)
