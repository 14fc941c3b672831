-- ===== src/Rules/Currency.antt =====
-- src/ai_dm/rules/currency.py: coin purses, with `spend` and `gain` of the inventory in
-- src/ai_dm/game/combatant_state.py. The gp values of assets/srd5_2/core/currency.json are whole
-- numbers of copper pieces, so amounts are counted in copper, without floats. The source
-- compares and converts floats, with `round(..., 4)` and a tolerance of 1e-9 gp: the model agrees with
-- it up to about 10^10 coins of each kind; from about 10^11 on the floats lose single copper pieces.
pub mod Change
mod Examples
use ai_dm.Prelude.{ℕ, Bool, true, false, List, [], ◌∷◌, if◌then◌else◌, ◌==◌}
use ai_dm.Prelude.Int.{ℤ, pos, ◌+ℤ◌, ◌-ℤ◌, ◌*ℤ◌, ltb_ℤ, div_ℤ, mod_ℤ}

pub record Coins : Type 0 where
  pub cp : ℤ
  pub sp : ℤ
  pub ep : ℤ
  pub gp : ℤ
  pub pp : ℤ

abbrev pub no_coins : Coins
no_coins = record { cp = pos 0; sp = pos 0; ep = pos 0; gp = pos 0; pp = pos 0 }

pub data Payment : Type 0 where
  paid : Coins → Payment
  insufficient_funds : Payment

unfoldable pub total_count : Coins → ℤ
total_count c = c.cp +ℤ c.sp +ℤ c.ep +ℤ c.gp +ℤ c.pp

-- `total_gp`, in copper pieces.
unfoldable pub total_cp : Coins → ℤ
total_cp c = c.cp +ℤ c.sp *ℤ 10 +ℤ c.ep *ℤ 50 +ℤ c.gp *ℤ 100 +ℤ c.pp *ℤ 1000

add_two : Coins → Coins → Coins
add_two a b = record {
  cp = a.cp +ℤ b.cp;
  sp = a.sp +ℤ b.sp;
  ep = a.ep +ℤ b.ep;
  gp = a.gp +ℤ b.gp;
  pp = a.pp +ℤ b.pp;
}

add_from : Coins → List Coins → Coins
unfolding add_two
add_from out [] = out
add_from out (p ∷ purses) = add_from (add_two out p) purses

unfoldable pub add : List Coins → Coins
unfolding add_from
add purses = add_from no_coins purses

-- The greedy minting of an amount of copper.
unfoldable pub mint : ℤ → Coins
mint remaining_cp =
    let pp = div_ℤ remaining_cp 1000 in
    let r = mod_ℤ remaining_cp 1000 in
    let gp = div_ℤ r 100 in
    let r' = mod_ℤ r 100 in
    let ep = div_ℤ r' 50 in
    let r'' = mod_ℤ r' 50 in
    record { cp = mod_ℤ r'' 10; sp = div_ℤ r'' 10; ep = ep; gp = gp; pp = pp }

unfoldable pub subtract : Coins → Coins → Payment
unfolding mint
subtract have cost =
    if ltb_ℤ (total_cp have) (total_cp cost)
    then insufficient_funds
    else paid (mint (total_cp have -ℤ total_cp cost))

-- `Inventory.spend` and `Inventory.gain`, on the coins of the inventory.
abbrev pub settle : Coins → Payment → Coins × Bool
settle have (paid purse) = (purse, true)
settle have insufficient_funds = (have, false)

unfoldable pub spend : Coins → Coins → Coins × Bool
spend coins cost = settle coins (subtract coins cost)

unfoldable pub gain : Coins → Coins → Coins
gain coins amount = add (coins ∷ amount ∷ [])
