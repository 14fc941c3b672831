-- ===== src/Rules/Damage/Modifiers.antt =====
-- apply_modifiers of damage.py: order of the modifiers, bounds.
use ai_dm.Prelude.{String, List, arith}
use ai_dm.Prelude.Int.{ℤ, pos, ◌≤ℤ◌, ◌*ℤ◌, max_ℤ, div_ℤ}
use ai_dm.Rules.Damage.{apply_modifiers}

-- A greater hit stays the greater one whatever the modifiers are.
pub apply_modifiers_mono :
    (a b : ℤ) (kind : String) (res vuln imm : List String)
    → a ≤ℤ b
    → apply_modifiers a kind res vuln imm ≤ℤ apply_modifiers b kind res vuln imm
unfolding apply_modifiers ◌*ℤ◌ div_ℤ
apply_modifiers_mono a b kind res vuln imm h = ground arith

-- No modifier makes damage negative or more than doubles it.
pub apply_modifiers_bounds :
    (a : ℤ) (kind : String) (res vuln imm : List String)
    → (pos 0 ≤ℤ apply_modifiers a kind res vuln imm)
      × (apply_modifiers a kind res vuln imm ≤ℤ max_ℤ (pos 0) a *ℤ 2)
unfolding apply_modifiers max_ℤ ◌*ℤ◌ div_ℤ
apply_modifiers_bounds a kind res vuln imm = ground arith
