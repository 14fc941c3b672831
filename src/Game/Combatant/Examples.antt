-- ===== src/Game/Combatant/Examples.antt =====
-- Runs of CombatantState of src/ai_dm/game/combatant_state.py.
use ai_dm.Prelude.{true, false, ◌≡◌, refl, arith, none, some, []}
use ai_dm.Prelude.Int.{pos}
use ai_dm.Rules.DeathSaves.{reset, damage_at_zero}
use ai_dm.Rules.DeathSaves.Invariant.{reset-IsTrack}
use ai_dm.Game.Combatant.{CombatantState, take_damage}
use ai_dm.Game.Combatant.Vitals.{IsVital, take_damage-IsVital}
use ai_dm.Game.Combatant.Dying.{take_damage-damage_at_zero}
use ai_dm.Game.Combatant.Economy.{HasBudget}

abbrev dragon : CombatantState
dragon = record {
  actor_id = "dragon";
  token_id = some "t1";
  hp = pos 40;
  max_hp = pos 60;
  temp_hp = pos 5;
  initiative = none;
  initiative_bonus = pos 2;
  conditions = [];
  condition_immunities = [];
  concentration = none;
  legendary_actions_per_round = some (pos 3);
  legendary_actions_remaining = some (pos 3);
  exhaustion = pos 0;
  death_saves = reset;
  resources = [];
  spell_slots = [];
  action_used = true;
  bonus_action_used = false;
  reaction_used = true;
  movement_used = pos 30;
  dashed = false;
  dodging = false;
  disengaging = false;
  helping_target = none;
  readied_action = none;
  hidden = false;
}

abbrev fallen : CombatantState
fallen = record dragon { hp = pos 0; temp_hp = pos 0 }

dragon-IsVital : IsVital dragon
dragon-IsVital = record {
  hp_low = omega arith;
  hp_high = omega arith;
  temp_low = omega arith;
  track = reset-IsTrack;
  at_zero = λ h. refl;
}

fallen-IsVital : IsVital fallen
fallen-IsVital = record {
  hp_low = omega arith;
  hp_high = omega arith;
  temp_low = omega arith;
  track = reset-IsTrack;
  at_zero = λ h. refl;
}

take_damage-IsVital_example : IsVital (take_damage dragon (pos 50)).0
take_damage-IsVital_example = take_damage-IsVital dragon (pos 50) dragon-IsVital

take_damage-damage_at_zero_example :
    ((take_damage fallen (pos 4)).0.death_saves.failures ≡ (damage_at_zero reset false).failures)
    × ((take_damage fallen (pos 4)).0.death_saves.dead ≡ (damage_at_zero reset false).dead)
    × ((take_damage fallen (pos 4)).0.death_saves.successes
        ≡ (damage_at_zero reset false).successes)
    × ((take_damage fallen (pos 4)).0.death_saves.stable ≡ false)
    × ((damage_at_zero reset false).stable ≡ false)
take_damage-damage_at_zero_example =
    take_damage-damage_at_zero fallen (pos 4) fallen-IsVital refl (omega arith)

dragon-HasBudget : HasBudget dragon
dragon-HasBudget = omega arith
