-- ===== src/Game/Combatant.antt =====
-- CombatantState of src/ai_dm/game/combatant_state.py: hit points, concentration, death saves, action
-- economy and legendary actions. The record holds the fields that these methods and the combat machine
-- read or write; the descriptive rest of the sheet (name, traits, spell lists, position) is
-- left out. Slots and resources are in Resources.antt, conditions in Tracker.antt, items in Inventory.antt.
pub mod Vitals
pub mod Dying
pub mod Economy
mod Examples
use ai_dm.Prelude.{
  Bool, true, false, not, ◌&&◌, ◌||◌, Option, none, some, List, [], ◌∷◌, String, if◌then◌else◌,
  is_some,
}
use ai_dm.Prelude.Int.{ℤ, pos, ◌+ℤ◌, ◌-ℤ◌, leb_ℤ, ltb_ℤ, eq_ℤ, min_ℤ, max_ℤ}
use ai_dm.Prelude.Dict.{Dict}
use ai_dm.Rules.DeathSaves.{DeathSaveTrack, reset}
use ai_dm.Game.Resources.{
  SpellSlot, ResourceUse, Recharge, turn, round, encounter, restore_resources,
}
use ai_dm.Game.Condition.{ConditionInstance}
use ai_dm.Game.Tracker
use ai_dm.Game.Tracker.{Bearer}

pub record Concentration : Type 0 where
  pub spell_id : String
  pub target_ids : List String
  pub save_dc : Option ℤ
  pub started_round : Option ℤ

pub record ReadiedAction : Type 0 where
  pub trigger : String
  pub action : String
  pub spell_level : Option ℤ

pub record CombatantState : Type 0 where
  pub actor_id : String
  pub token_id : Option String
  pub hp : ℤ
  pub max_hp : ℤ
  pub temp_hp : ℤ
  pub initiative : Option ℤ
  pub initiative_bonus : ℤ
  pub conditions : List ConditionInstance
  pub condition_immunities : List String
  pub concentration : Option Concentration
  pub legendary_actions_per_round : Option ℤ
  pub legendary_actions_remaining : Option ℤ
  pub exhaustion : ℤ
  pub death_saves : DeathSaveTrack
  pub resources : Dict String ResourceUse
  pub spell_slots : Dict ℤ SpellSlot
  pub action_used : Bool
  pub bonus_action_used : Bool
  pub reaction_used : Bool
  pub movement_used : ℤ
  pub dashed : Bool
  pub dodging : Bool
  pub disengaging : Bool
  pub helping_target : Option String
  pub readied_action : Option ReadiedAction
  pub hidden : Bool

abbrev pub bearer : CombatantState → Bearer
bearer c = record { conditions = c.conditions; condition_immunities = c.condition_immunities }

-- `remove_condition`, which is the tracker's `remove` on this combatant.
unfoldable pub remove_condition : CombatantState → String → Option String → CombatantState
remove_condition c key source = record c {
  conditions = (Tracker.remove (bearer c) key source).0.conditions;
}

unfoldable pub start_of_turn : CombatantState → CombatantState
start_of_turn c = record c {
  action_used = false;
  bonus_action_used = false;
  movement_used = pos 0;
  dashed = false;
  dodging = false;
  disengaging = false;
  helping_target = none;
  readied_action = none;
  resources = restore_resources turn c.resources;
}

unfoldable pub start_of_round : CombatantState → CombatantState
start_of_round c = record c {
  reaction_used = false;
  resources = restore_resources round c.resources;
  legendary_actions_remaining =
      if is_some c.legendary_actions_per_round
      then c.legendary_actions_per_round
      else c.legendary_actions_remaining;
}

unfoldable pub end_encounter : CombatantState → CombatantState
end_encounter c = record c {
  concentration = none;
  action_used = false;
  bonus_action_used = false;
  reaction_used = false;
  movement_used = pos 0;
  dashed = false;
  dodging = false;
  disengaging = false;
  helping_target = none;
  readied_action = none;
  hidden = false;
  resources = restore_resources encounter c.resources;
}

-- The death-save failure that damage at 0 hit points registers.
unfoldable pub register_failure : DeathSaveTrack → DeathSaveTrack
register_failure track =
    let failures = min_ℤ (pos 3) (track.failures +ℤ pos 1) in
    record track { failures = failures; dead = if leb_ℤ (pos 3) failures then true else track.dead }

-- What the temporary hit points take of a hit, and the hit points that it leaves.
unfoldable pub absorbed : ℤ → ℤ → ℤ
absorbed temp_hp amount = if eq_ℤ temp_hp (pos 0) then pos 0 else min_ℤ temp_hp amount

unfoldable pub hp_left : ℤ → ℤ → ℤ → ℤ
hp_left hp temp_hp amount = max_ℤ (pos 0) (hp -ℤ (amount -ℤ absorbed temp_hp amount))

unfoldable pub wounded : CombatantState → ℤ → CombatantState
wounded c amount =
    let hp' = hp_left c.hp c.temp_hp amount in
    record c {
      temp_hp = c.temp_hp -ℤ absorbed c.temp_hp amount;
      hp = hp';
      concentration = if eq_ℤ hp' (pos 0) then none else c.concentration;
      death_saves = if eq_ℤ c.hp (pos 0) then register_failure c.death_saves else c.death_saves;
    }

unfoldable pub take_damage : CombatantState → ℤ → CombatantState × ℤ
take_damage c amount =
    if leb_ℤ amount (pos 0) then (c, c.hp) else (wounded c amount, hp_left c.hp c.temp_hp amount)

-- A combatant that rises from 0 hit points: the death saves and the unconsciousness that came with
-- 0 hit points end.
unfoldable pub risen : CombatantState → ℤ → CombatantState
risen c hp' =
    remove_condition (record c { hp = hp'; death_saves = reset }) "unconscious" (some "hp_zero")

unfoldable pub heal : CombatantState → ℤ → CombatantState × ℤ
heal c amount =
    let hp' = min_ℤ c.max_hp (c.hp +ℤ amount) in
    if leb_ℤ amount (pos 0)
    then (c, c.hp)
    else if eq_ℤ c.hp (pos 0) && ltb_ℤ (pos 0) hp'
    then (risen c hp', hp')
    else (record c { hp = hp' }, hp')

unfoldable pub spend_left : CombatantState → Option ℤ → Option ℤ → ℤ → CombatantState × Bool
spend_left c (some per_round) (some remaining) cost =
    if leb_ℤ cost (pos 0) || ltb_ℤ remaining cost
    then (c, false)
    else (record c { legendary_actions_remaining = some (remaining -ℤ cost) }, true)
spend_left c _ _ cost = (c, false)

unfoldable pub spend_legendary : CombatantState → ℤ → CombatantState × Bool
unfolding spend_left
spend_legendary c cost =
    spend_left c c.legendary_actions_per_round c.legendary_actions_remaining cost
