-- ===== src/Game/Combat/Examples.antt =====
-- Runs of src/ai_dm/game/combat_machine.py.
use ai_dm.Prelude.{◌+◌, true, false, ◌≡◌, refl, none, some, List, [], ◌∷◌}
use ai_dm.Prelude.Int.{pos}
use ai_dm.Rules.DeathSaves.{reset}
use ai_dm.Game.Combatant.{CombatantState}
use ai_dm.Game.Combat.State.{
  Machine, CombatState, rolling_initiative, in_round, awaiting_action, ended, phase_changed, err,
  index_error,
}
use ai_dm.Game.Combat.{
  request_action, Call, call_roll_initiative, call_begin_round, call_request_action, call_end_turn,
  call_end_encounter, run_calls,
}
use ai_dm.Game.Combat.Follows.{Moves}
use ai_dm.Game.Combat.Phases.{run_calls-Moves}
use ai_dm.Game.Combat.Turns.{highlights, Deed, turn_calls}
use ai_dm.Game.Combat.Rounds.{RoundDone, full_round}
use ai_dm.Game.Combat.Ending.{HasEnded, run_calls-HasEnded, request_action-past_end}

abbrev fighter : CombatantState
fighter = record {
  actor_id = "fighter";
  token_id = some "t1";
  hp = pos 12;
  max_hp = pos 12;
  temp_hp = pos 0;
  initiative = some (pos 15);
  initiative_bonus = pos 2;
  conditions = [];
  condition_immunities = [];
  concentration = none;
  legendary_actions_per_round = none;
  legendary_actions_remaining = none;
  exhaustion = pos 0;
  death_saves = reset;
  resources = [];
  spell_slots = [];
  action_used = false;
  bonus_action_used = false;
  reaction_used = false;
  movement_used = pos 0;
  dashed = false;
  dodging = false;
  disengaging = false;
  helping_target = none;
  readied_action = none;
  hidden = false;
}

abbrev goblin : CombatantState
goblin = record fighter { actor_id = "goblin"; token_id = none; initiative = none }

abbrev skirmish : CombatState
skirmish = record {
  encounter_id = "e1";
  phase = rolling_initiative;
  round = 0;
  current_index = 0;
  participants = fighter ∷ goblin ∷ [];
  log = [];
}

abbrev machine_in : CombatState → Machine
machine_in s = record {
  auto_highlight = true;
  has_router = true;
  state = some s;
  published = [];
  highlighted = [];
}

abbrev calls : List Call
calls =
    call_roll_initiative (λ n. pos 11) (λ group. group)
    ∷ call_begin_round
    ∷ call_request_action
    ∷ call_begin_round
    ∷ call_end_turn
    ∷ call_request_action
    ∷ call_end_encounter "fled"
    ∷ []

run_calls-Moves_example : Moves (machine_in skirmish) (run_calls calls (machine_in skirmish))
run_calls-Moves_example = run_calls-Moves calls (machine_in skirmish)

abbrev deeds : List Deed
deeds = ("attack", "goblin", "hit") ∷ ("dodge", "", "") ∷ []

full_round_example :
    RoundDone
      (0 + 1)
      0
      skirmish.participants
      skirmish.participants
      []
      (highlights [])
      deeds
      (run_calls (call_begin_round ∷ turn_calls deeds) (machine_in skirmish))
full_round_example = full_round (machine_in skirmish) skirmish deeds refl refl refl

abbrev over : CombatState
over = record skirmish { phase = ended; round = 3 }

over-HasEnded : HasEnded 3 0 [] (machine_in over)
over-HasEnded = record {
  last = over;
  is_state = refl;
  is_ended = refl;
  same_round = refl;
  same_index = refl;
  same_log = refl;
}

run_calls-HasEnded_example : HasEnded 3 0 [] (run_calls calls (machine_in over))
run_calls-HasEnded_example = run_calls-HasEnded calls (machine_in over) over-HasEnded

abbrev all_acted : CombatState
all_acted = record skirmish { phase = in_round; round = 1; current_index = 2 }

request_action-past_end_example : request_action (machine_in all_acted) ≡ (
  err index_error,
  record (machine_in all_acted) {
    state = some (record all_acted { phase = awaiting_action });
    published = phase_changed in_round awaiting_action 1 ∷ [];
  },
)
request_action-past_end_example =
    request_action-past_end (machine_in all_acted) all_acted refl refl refl
