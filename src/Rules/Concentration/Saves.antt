-- ===== src/Rules/Concentration/Saves.antt =====
-- When the concentration of concentration.py holds.
use ai_dm.Prelude.{
  Bool, true, false, ◌≡◌, refl, sym, ◌∙◌, arith, none, String, is_some, if◌then◌else◌,
}
use ai_dm.Prelude.Int.{ℤ, pos, ◌+ℤ◌, ◌≤ℤ◌, ◌<ℤ◌, leb_ℤ, div_ℤ, int_laws}
use ai_dm.Prelude.Dict.{Dict}
use ai_dm.Game.Combatant.{CombatantState}
use ai_dm.Rules.Concentration.{dc_for_damage, save_modifier_of, roll_save, on_damage, break_off}

div_mono : (a b : ℤ) → a ≤ℤ b → div_ℤ a 2 ≤ℤ div_ℤ b 2
unfolding div_ℤ
div_mono a b h = ground arith

dc_mono : (a b : ℤ) → a ≤ℤ b → dc_for_damage a ≤ℤ dc_for_damage b
unfolding dc_for_damage
dc_mono a b h = omega (int_laws, div_mono a b h)

le_trans_b : (a b t : ℤ) → a ≤ℤ b → leb_ℤ b t ≡ true → leb_ℤ a t ≡ true
le_trans_b a b t h k = ground arith

-- Positive damage to a concentrating actor leaves its concentration exactly if the d20 and the modifier
-- reach the greater of 10 and half of the damage, and otherwise ends it.
pub on_damage_saves :
    (c : CombatantState) (amount nat : ℤ) (saves : Dict String ℤ)
    → is_some c.concentration ≡ true
    → pos 0 <ℤ amount
    → (on_damage c amount nat saves).0.concentration ≡ (
        if leb_ℤ (dc_for_damage amount) (nat +ℤ save_modifier_of none saves)
        then c.concentration
        else none)
unfolding on_damage roll_save break_off
on_damage_saves c amount nat saves h p = ground arith

held_by :
    (c : CombatantState) (b : Bool)
    → is_some c.concentration ≡ true
    → (if b then c.concentration else none) ≡ c.concentration
    → b ≡ true
held_by c true h k = refl
held_by c false h k = ground arith

-- A save that holds against some damage holds against less: a lighter hit never breaks a concentration
-- that a heavier one, with the same roll, would leave.
pub lighter_hit_holds :
    (c : CombatantState) (a b nat : ℤ) (saves : Dict String ℤ)
    → is_some c.concentration ≡ true
    → pos 0 <ℤ a
    → a ≤ℤ b
    → (on_damage c b nat saves).0.concentration ≡ c.concentration
    → (on_damage c a nat saves).0.concentration ≡ c.concentration
lighter_hit_holds c a b nat saves h p l k =
    let total = nat +ℤ save_modifier_of none saves in
    let held : leb_ℤ (dc_for_damage b) total ≡ true =
      held_by c (leb_ℤ (dc_for_damage b) total) h
        (sym (on_damage_saves c b nat saves h (omega arith)) ∙ k) in
    on_damage_saves c a nat saves h p
    ∙ rw (le_trans_b (dc_for_damage a) (dc_for_damage b) total (dc_mono a b l) held) refl
