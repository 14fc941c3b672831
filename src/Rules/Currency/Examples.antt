-- ===== src/Rules/Currency/Examples.antt =====
-- Runs of src/ai_dm/rules/currency.py.
use ai_dm.Prelude.{◌≡◌, refl, arith}
use ai_dm.Prelude.Int.{pos, ◌≤ℤ◌, ◌+ℤ◌, ◌-ℤ◌, ◌*ℤ◌, div_ℤ, mod_ℤ}
use ai_dm.Rules.Currency.{Coins, paid, total_count, total_cp, mint, subtract}
use ai_dm.Rules.Currency.Change.{IsMinted, IsPurse, subtract-paid, subtract_fewest}

abbrev purse : Coins
purse = record { cp = pos 7; sp = pos 3; ep = pos 0; gp = pos 12; pp = pos 1 }

abbrev price : Coins
price = record { cp = pos 0; sp = pos 5; ep = pos 0; gp = pos 2; pp = pos 0 }

-- 2237 - 250 = 1987 copper pieces.
abbrev left : Coins
left = record { cp = pos 7; sp = pos 3; ep = pos 1; gp = pos 9; pp = pos 1 }

-- The change is minted greedily, largest coin first.
purse_pays : subtract purse price ≡ paid left
unfolding subtract total_cp mint ◌+ℤ◌ ◌-ℤ◌ ◌*ℤ◌ div_ℤ mod_ℤ
purse_pays = refl

subtract-paid_example : (total_cp left +ℤ total_cp price ≡ total_cp purse) × IsMinted left
subtract-paid_example = subtract-paid purse price left purse_pays

abbrev coppers : Coins
coppers = record { cp = pos 1987; sp = pos 0; ep = pos 0; gp = pos 0; pp = pos 0 }

coppers-IsPurse : IsPurse coppers
coppers-IsPurse = record {
  cp_low = omega arith;
  sp_low = omega arith;
  ep_low = omega arith;
  gp_low = omega arith;
  pp_low = omega arith;
}

same_worth : total_cp coppers +ℤ total_cp price ≡ total_cp purse
unfolding total_cp ◌+ℤ◌ ◌*ℤ◌
same_worth = refl

subtract_fewest_example : total_count left ≤ℤ total_count coppers
subtract_fewest_example =
    subtract_fewest purse price left coppers purse_pays coppers-IsPurse same_worth
