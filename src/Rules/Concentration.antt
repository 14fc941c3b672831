-- ===== src/Rules/Concentration.antt =====
-- src/ai_dm/rules/concentration.py, on a combatant. The constants are those of
-- assets/srd5_2/core/concentration.json. The d20 is an argument, and so are the saving throws of the
-- actor, which the record CombatantState leaves out.
pub mod Saves
mod Examples
use ai_dm.Prelude.{
  Bool, true, false, not, ◌||◌, Option, none, some, List, [], ◌∷◌, String, str_eq, if◌then◌else◌,
  exists_in, get_or_default, is_some,
}
use ai_dm.Prelude.Int.{ℤ, pos, ◌+ℤ◌, leb_ℤ, max_ℤ, div_ℤ}
use ai_dm.Prelude.Dict.{Dict, get, string_key}
use ai_dm.Game.Combatant.{CombatantState}
use ai_dm.Game.Combatant

abbrev pub min_dc : ℤ
min_dc = pos 10

abbrev pub broken_by : List String
broken_by = "incapacitated" ∷ "killed" ∷ "second_concentration" ∷ []

unfoldable pub dc_for_damage : ℤ → ℤ
dc_for_damage amount = max_ℤ min_dc (div_ℤ amount 2)

pub record ConcentrationSaveResult : Type 0 where
  pub success : Bool
  pub roll : ℤ
  pub total : ℤ
  pub dc : ℤ
  pub broken : Bool

-- `break_`
unfoldable pub break_off : CombatantState → CombatantState × Bool
break_off actor = (record actor { concentration = none }, is_some actor.concentration)

unfoldable pub save_modifier_of : Option ℤ → Dict String ℤ → ℤ
save_modifier_of none saves = get_or_default (pos 0) (get saves "con")
save_modifier_of (some m) saves = m

unfoldable pub roll_save :
    CombatantState → ℤ → ℤ → Option ℤ → Dict String ℤ → CombatantState × ConcentrationSaveResult
unfolding dc_for_damage save_modifier_of break_off
roll_save actor damage nat save_modifier saves =
    let dc = dc_for_damage damage in
    let total = nat +ℤ save_modifier_of save_modifier saves in
    let (dropped, broken) = break_off actor in
    if leb_ℤ dc total
    then (actor, record { success = true; roll = nat; total = total; dc = dc; broken = false })
    else (dropped, record { success = false; roll = nat; total = total; dc = dc; broken = broken })

unfoldable pub start : CombatantState → String → List String → Option ℤ → Option ℤ → CombatantState
start actor spell_id target_ids save_dc started_round = record actor {
  concentration = some (record {
    spell_id = spell_id;
    target_ids = target_ids;
    save_dc = save_dc;
    started_round = started_round;
  });
}

unfoldable pub on_damage :
    CombatantState → ℤ → ℤ → Dict String ℤ → CombatantState × Option ConcentrationSaveResult
unfolding roll_save
on_damage actor amount nat saves =
    let (after, result) = roll_save actor amount nat none saves in
    if not (is_some actor.concentration) || leb_ℤ amount (pos 0)
    then (actor, none)
    else (after, some result)

unfoldable pub on_condition : CombatantState → String → CombatantState × Bool
unfolding break_off
on_condition actor condition =
    if exists_in (str_eq condition) broken_by
      || exists_in (str_eq condition)
          ("incapacitated" ∷ "unconscious" ∷ "stunned" ∷ "paralyzed" ∷ "petrified" ∷ [])
    then break_off actor
    else (actor, false)
