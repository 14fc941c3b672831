-- ===== src/Rules/Currency/Change.antt =====
-- What currency.py does with the value and the number of coins.
use mathlib.Core.Path.{subst}
use ai_dm.Prelude.{
  sym, ◌∙◌, ap, refl, false, ◌-◌, ℕ, ◌+◌, ◌*◌, ◌/◌, ◌≤◌, ◌≡◌, ◌↔◌, refl, true, false, List, [], ◌∷◌,
  arith, Bool-cases, inl, inr,
}
use ai_dm.Prelude.Int.{
  pos_part, neg_part, ℤ, pos, negsuc, ◌≤ℤ◌, ◌<ℤ◌, ◌+ℤ◌, ◌-ℤ◌, div_ℤ, mod_ℤ, int_laws, sum_laws,
  ltb_ℤ,
}
use ai_dm.Rules.Currency.{
  settle, spend, Coins, no_coins, Payment, paid, insufficient_funds, total_count, total_cp, add_two,
  add_from, add, mint, subtract, spend, gain,
}

-- No coin can be exchanged for fewer of a greater kind.
pub record IsMinted (c : Coins) : Type 0 where
  pub cp_low : pos 0 ≤ℤ c.cp
  pub cp_high : c.cp ≤ℤ pos 9
  pub sp_low : pos 0 ≤ℤ c.sp
  pub sp_high : c.sp ≤ℤ pos 4
  pub ep_low : pos 0 ≤ℤ c.ep
  pub ep_high : c.ep ≤ℤ pos 1
  pub gp_low : pos 0 ≤ℤ c.gp
  pub gp_high : c.gp ≤ℤ pos 9
  pub pp_low : pos 0 ≤ℤ c.pp

abbrev pub sum_cp : List Coins → ℤ
sum_cp [] = pos 0
sum_cp (p ∷ purses) = total_cp p +ℤ sum_cp purses

pub record IsPurse (c : Coins) : Type 0 where
  pub cp_low : pos 0 ≤ℤ c.cp
  pub sp_low : pos 0 ≤ℤ c.sp
  pub ep_low : pos 0 ≤ℤ c.ep
  pub gp_low : pos 0 ≤ℤ c.gp
  pub pp_low : pos 0 ≤ℤ c.pp

mint-IsMinted : (n : ℤ) → pos 0 ≤ℤ n → IsMinted (mint n)
unfolding mint div_ℤ mod_ℤ
mint-IsMinted (pos n) h = omega arith
mint-IsMinted (negsuc n) h = absurd (omega arith)

total_cp-mint : (n : ℤ) → pos 0 ≤ℤ n → total_cp (mint n) ≡ n
unfolding total_cp mint div_ℤ mod_ℤ
total_cp-mint (pos n) h = omega int_laws
total_cp-mint (negsuc n) h = absurd (omega arith)

-- A payment is refused exactly when the cost is worth more than the purse.
pub subtract-insufficient_funds :
    (have cost : Coins)
    → (subtract have cost ≡ insufficient_funds) ↔ (total_cp have <ℤ total_cp cost)
unfolding subtract
subtract-insufficient_funds have cost = ground arith

change :
    (h c : ℤ) → ltb_ℤ h c ≡ false → (total_cp (mint (h -ℤ c)) +ℤ c ≡ h) × IsMinted (mint (h -ℤ c))
change h c e =
    let enough : pos 0 ≤ℤ h -ℤ c = grind int_laws in
    (rw (total_cp-mint (h -ℤ c) enough) (omega int_laws), mint-IsMinted (h -ℤ c) enough)

-- After a payment the purse is worth what it was less the cost, in coins that no exchange improves.
pub subtract-paid :
    (have cost purse : Coins)
    → subtract have cost ≡ paid purse
    → (total_cp purse +ℤ total_cp cost ≡ total_cp have) × IsMinted purse
unfolding subtract
subtract-paid have cost purse h = elim (Bool-cases (ltb_ℤ (total_cp have) (total_cp cost))) [
  | inl e ↦ cc
  | inr e ↦
      subst (λ p. (total_cp p +ℤ total_cp cost ≡ total_cp have) × IsMinted p) (cc)
        (change (total_cp have) (total_cp cost) e)
]

-- One denomination: what a purse holds of it beyond the minted count goes into greater coins.
carry_10 :
    (c d r s : ℕ) → c ≤ 9 → c + 10 * r ≡ d + 10 * s → (d ≡ c + 10 * (d / 10)) × (r ≡ d / 10 + s)
carry_10 c d r s h e = omega arith

carry_5 : (c d r s : ℕ) → c ≤ 4 → c + 5 * r ≡ d + 5 * s → (d ≡ c + 5 * (d / 5)) × (r ≡ d / 5 + s)
carry_5 c d r s h e = omega arith

carry_2 : (c d r s : ℕ) → c ≤ 1 → c + 2 * r ≡ d + 2 * s → (d ≡ c + 2 * (d / 2)) × (r ≡ d / 2 + s)
carry_2 c d r s h e = omega arith

fewest :
    (c1 c2 c3 c4 c5 d1 d2 d3 d4 d5 : ℕ)
    → c1 ≤ 9
    → c2 ≤ 4
    → c3 ≤ 1
    → c4 ≤ 9
    → c1 + 10 * c2 + 50 * c3 + 100 * c4 + 1000 * c5 ≡ d1 + 10 * d2 + 50 * d3 + 100 * d4 + 1000 * d5
    → c1 + c2 + c3 + c4 + c5 ≤ d1 + d2 + d3 + d4 + d5
fewest c1 c2 c3 c4 c5 d1 d2 d3 d4 d5 h1 h2 h3 h4 e =
    let k1 =
      carry_10 c1 d1 (c2 + 5 * c3 + 10 * c4 + 100 * c5) (d2 + 5 * d3 + 10 * d4 + 100 * d5) h1
        (omega arith) in
    let k2 =
      carry_5 c2 (d2 + d1 / 10) (c3 + 2 * c4 + 20 * c5) (d3 + 2 * d4 + 20 * d5) h2 (omega arith) in
    let k3 = carry_2 c3 (d3 + (d2 + d1 / 10) / 5) (c4 + 10 * c5) (d4 + 10 * d5) h3 (omega arith) in
    let k4 = carry_10 c4 (d4 + (d3 + (d2 + d1 / 10) / 5) / 2) c5 d5 h4 (omega arith) in omega arith

-- The size of a number that is not negative.
size : ℤ → ℕ
size a = pos_part a - neg_part a

size_parts : (a : ℤ) → pos 0 ≤ℤ a → pos_part a ≡ neg_part a + size a
unfolding size
size_parts a h = omega arith

module _ (c : Coins) (p : IsPurse c) where
  total_cp-size :
      pos_part (total_cp c)
      ≡ neg_part (total_cp c)
        + (size c.cp + 10 * size c.sp + 50 * size c.ep + 100 * size c.gp + 1000 * size c.pp)
  unfolding total_cp
  total_cp-size = omega (sum_laws, size_parts)

  total_count-size :
      pos_part (total_count c)
      ≡ neg_part (total_count c) + (size c.cp + size c.sp + size c.ep + size c.gp + size c.pp)
  unfolding total_count
  total_count-size = omega (sum_laws, size_parts)

minted-IsPurse : (c : Coins) → IsMinted c → IsPurse c
minted-IsPurse c m = omega arith

minted_fewest :
    (c d : Coins)
    → IsMinted c
    → IsPurse d
    → total_cp c ≡ total_cp d
    → total_count c ≤ℤ total_count d
minted_fewest c d m p e =
    let q = minted-IsPurse c m in
    let sizes =
      fewest (size c.cp) (size c.sp) (size c.ep) (size c.gp) (size c.pp) (size d.cp) (size d.sp)
        (size d.ep) (size d.gp) (size d.pp) (omega (arith, size_parts)) (omega (arith, size_parts))
        (omega (arith, size_parts)) (omega (arith, size_parts))
        (omega (arith, total_cp-size c q, total_cp-size d p, ap pos_part e, ap neg_part e)) in
    omega (arith, sizes, total_count-size c q, total_count-size d p)

-- After a payment no purse of non-negative counts that is worth what is left has fewer coins than the change.
pub subtract_fewest :
    (have cost purse other : Coins)
    → subtract have cost ≡ paid purse
    → IsPurse other
    → total_cp other +ℤ total_cp cost ≡ total_cp have
    → total_count purse ≤ℤ total_count other
subtract_fewest have cost purse other pays p worth =
    let (whole, minted) = subtract-paid have cost purse pays in
    minted_fewest purse other minted p
      (cancel (total_cp purse) (total_cp other) (total_cp cost) (whole ∙ sym worth))
  where
    cancel : (a b c : ℤ) → a +ℤ c ≡ b +ℤ c → a ≡ b
    cancel a b c e = grind int_laws

total_cp-add_from :
    (out : Coins) (purses : List Coins)
    → total_cp (add_from out purses) ≡ total_cp out +ℤ sum_cp purses
unfolding add_from total_cp
total_cp-add_from out [] = omega sum_laws
total_cp-add_from out (p ∷ purses) = rw (total_cp-add_from (add_two out p) purses) (omega sum_laws)

-- Adding purses adds their values.
pub total_cp-add : (purses : List Coins) → total_cp (add purses) ≡ sum_cp purses
unfolding add
total_cp-add purses = rw (total_cp-add_from no_coins purses) (unfold total_cp in omega sum_laws)

settle-gain :
    (coins cost : Coins) (payment : Payment)
    → subtract coins cost ≡ payment
    → (settle coins payment).1 ≡ true
    → total_cp (gain (settle coins payment).0 cost) ≡ total_cp coins
unfolding gain
settle-gain coins cost (paid purse) e ok = rw (total_cp-add (purse ∷ cost ∷ [])) (
    let whole = (subtract-paid coins cost purse e).0 in
    omega (sum_laws, ap pos_part whole, ap neg_part whole))
settle-gain coins cost insufficient_funds e ok = cc

-- What was spent and is gained back leaves the purse its value, and a refused payment changes nothing.
pub spend-gain :
    (coins cost : Coins)
    → ((spend coins cost).1 ≡ true → total_cp (gain (spend coins cost).0 cost) ≡ total_cp coins)
      × ((spend coins cost).1 ≡ false → (spend coins cost).0 ≡ coins)
unfolding spend
spend-gain coins cost =
    (settle-gain coins cost (subtract coins cost) refl, refused (subtract coins cost))
  where
    refused :
        (payment : Payment) → (settle coins payment).1 ≡ false → (settle coins payment).0 ≡ coins
    refused (paid purse) e = cc
    refused insufficient_funds e = refl
