-- ===== src/Rules/Concentration/Examples.antt =====
-- Runs of src/ai_dm/rules/concentration.py.
use ai_dm.Prelude.{◌≡◌, refl, false, none, some, [], ◌∷◌, String}
use ai_dm.Prelude.Int.{ℤ, pos, ◌+ℤ◌, max_ℤ, div_ℤ}
use ai_dm.Prelude.Dict.{Dict, get, string_key}
use ai_dm.Rules.DeathSaves.{reset}
use ai_dm.Game.Combatant.{CombatantState}
use ai_dm.Rules.Concentration.{dc_for_damage, save_modifier_of, on_damage, roll_save, break_off}

abbrev mage : CombatantState
mage = record {
  actor_id = "mage";
  token_id = some "t1";
  hp = pos 12;
  max_hp = pos 12;
  temp_hp = pos 0;
  initiative = some (pos 15);
  initiative_bonus = pos 2;
  conditions = [];
  condition_immunities = [];
  concentration =
      some (record { spell_id = "bless"; target_ids = []; save_dc = none; started_round = none });
  legendary_actions_per_round = none;
  legendary_actions_remaining = none;
  exhaustion = pos 0;
  death_saves = reset;
  resources = [];
  spell_slots = [];
  action_used = false;
  bonus_action_used = false;
  reaction_used = false;
  movement_used = pos 0;
  dashed = false;
  dodging = false;
  disengaging = false;
  helping_target = none;
  readied_action = none;
  hidden = false;
}

abbrev saving_throws : Dict String ℤ
saving_throws = ("con", pos 3) ∷ []

held : (on_damage mage (pos 22) (pos 8) saving_throws).0.concentration ≡ mage.concentration
unfolding on_damage roll_save break_off dc_for_damage save_modifier_of get ◌+ℤ◌ max_ℤ div_ℤ
held = refl
