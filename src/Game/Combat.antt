-- ===== src/Game/Combat.antt =====
-- src/ai_dm/game/combat_machine.py: the turn-based state machine. The d20 results of one initiative and
-- the shuffle of its ties are arguments.
pub mod State
pub mod Order
pub mod Follows
pub mod Phases
pub mod Turns
pub mod Rounds
pub mod Ending
mod Examples
use Prim.Native.Nat.{ℕ}
use ai_dm.Prelude.{
  zero, suc, ◌+◌, Bool, true, false, not, ◌&&◌, Option, none, some, List, [], ◌∷◌, ◌++◌, String,
  map, str_eq, leb, ltb, if◌then◌else◌, get_elem?, set, length, get_or_default, is_some,
}
use ai_dm.Prelude.Int.{ℤ, pos, ◌-ℤ◌}
use ai_dm.Prelude.Dict.{Dict, get, put, string_key}
use ai_dm.Rules.Initiative.{InitiativeRoll, Shuffle, sort_order}
use ai_dm.Rules.Initiative
use ai_dm.Game.Combatant
use ai_dm.Game.Combatant.{CombatantState}
use Order.{ordered}
use State.{
  CombatPhase, idle, rolling_initiative, in_round, awaiting_action, resolving_action, ended,
  ActionLogEntry, CombatState, Event, encounter_started, phase_changed, initiative_rolled,
  round_started, actor_highlighted, action_resolved, turn_ended, encounter_ended, Machine,
  index_error, invalid_transition, Action, pure, raise, ok, ◌>>=◌, ◌>>◌, publish, modify,
  require_state, current_actor, highlight,
}

-- `_ALLOWED_TRANSITIONS`
abbrev pub is_allowed : CombatPhase → CombatPhase → Bool
is_allowed idle rolling_initiative = true
is_allowed idle ended = true
is_allowed rolling_initiative in_round = true
is_allowed rolling_initiative ended = true
is_allowed in_round awaiting_action = true
is_allowed in_round ended = true
is_allowed awaiting_action resolving_action = true
is_allowed awaiting_action ended = true
is_allowed resolving_action in_round = true
is_allowed resolving_action ended = true
is_allowed _ _ = false

abbrev pub eq_phase : CombatPhase → CombatPhase → Bool
eq_phase idle idle = true
eq_phase rolling_initiative rolling_initiative = true
eq_phase in_round in_round = true
eq_phase awaiting_action awaiting_action = true
eq_phase resolving_action resolving_action = true
eq_phase ended ended = true
eq_phase _ _ = false

-- The body of `_transition` in the state that it reads.
unfoldable pub move_to : CombatPhase → CombatState → Action (Unit {0})
move_to target s =
    if eq_phase target s.phase
    then pure tt
    else if is_allowed s.phase target
    then modify (λ s. record s { phase = target }) >> publish (phase_changed s.phase target s.round)
    else raise (invalid_transition s.phase target)

-- `_transition`
unfoldable pub transition : CombatPhase → Action (Unit {0})
unfolding move_to
transition target = do s ← require_state; move_to target s

unfoldable pub new_encounter : String → List CombatantState → CombatState
new_encounter encounter_id participants = record {
  encounter_id = encounter_id;
  phase = idle;
  round = 0;
  current_index = 0;
  participants = participants;
  log = [];
}

-- A snapshot is the state itself.
unfoldable pub restore : Option CombatState → Action (Unit {0})
restore snapshot m = (ok tt, record m { state = snapshot })

unfoldable pub start_encounter : String → List CombatantState → Action CombatState
unfolding new_encounter
start_encounter encounter_id participants = do
  restore (some (new_encounter encounter_id participants))
  publish (encounter_started encounter_id)
  require_state

actor_ids : List CombatantState → List String
actor_ids ps = map (λ p. p.actor_id) ps

unfoldable pub roll_initiative : (ℕ → ℤ) → Shuffle → Action (List CombatantState)
unfolding transition ordered actor_ids
roll_initiative draw shuffle = do
  transition rolling_initiative
  modify (λ s. record s { participants = ordered draw shuffle s.participants; current_index = 0 })
  s ← require_state
  publish (initiative_rolled (actor_ids s.participants))
  pure s.participants

unfoldable pub begin_round : Action ℕ
unfolding transition
begin_round = do
  transition in_round
  modify (λ s. record s {
    round = s.round + 1;
    current_index = 0;
    participants = map Combatant.start_of_round s.participants;
  })
  s ← require_state
  publish (round_started s.round)
  pure s.round

-- `actor.start_of_turn()` on the actor at the index.
unfoldable pub refreshed : CombatantState → CombatState → CombatState
refreshed actor s = record s {
  participants = set s.participants s.current_index (Combatant.start_of_turn actor);
}

unfoldable pub request_action : Action CombatantState
unfolding transition refreshed
request_action = do
  s ← require_state
  transition awaiting_action
  actor ← current_actor s
  modify (refreshed actor)
  publish (actor_highlighted actor.actor_id s.round)
  highlight actor.token_id
  pure (Combatant.start_of_turn actor)

unfoldable pub log_entry : CombatState → CombatantState → String → String → String → ActionLogEntry
log_entry s actor kind payload result = record {
  at_round = s.round;
  actor_id = actor.actor_id;
  kind = kind;
  payload = payload;
  result = result;
}

unfoldable pub submit_action : String → String → String → Action ActionLogEntry
unfolding transition log_entry
submit_action kind payload result = do
  s ← require_state
  transition resolving_action
  actor ← current_actor s
  modify (λ s. record s { log = s.log ++ log_entry s actor kind payload result ∷ [] })
  publish (action_resolved actor.actor_id kind s.round)
  pure (log_entry s actor kind payload result)

unfoldable pub announce_actor : Option CombatantState → ℕ → Action (Unit {0})
announce_actor none round = pure tt
announce_actor (some actor) round = publish (turn_ended actor.actor_id round)

-- `turn_ended` for the actor at the index; the hook of rules/turn.py changes nothing.
unfoldable pub announce_end : CombatState → Action (Unit {0})
unfolding announce_actor
announce_end s = announce_actor (get_elem? s.participants s.current_index) s.round

unfoldable pub hop : CombatState → Action (Unit {0})
unfolding transition
hop s = if eq_phase s.phase awaiting_action then transition resolving_action else pure tt

unfoldable pub end_turn : Action (Option CombatantState)
unfolding announce_end hop transition
end_turn = do
  s ← require_state
  announce_end s
  hop s
  transition in_round
  modify (λ s. record s { current_index = s.current_index + 1 })
  s' ← require_state
  pure (get_elem? s'.participants s'.current_index)

unfoldable pub end_encounter : String → Action CombatState
unfolding transition
end_encounter reason = do
  transition ended
  modify (λ s. record s { participants = map Combatant.end_encounter s.participants })
  s ← require_state
  publish (encounter_ended s.encounter_id reason)
  pure s

-- The calls within one encounter: start_encounter and restore, which replace it, are not among them. An exception ends the call and leaves what was written before it.
pub data Call : Type 0 where
  call_roll_initiative : (ℕ → ℤ) → Shuffle → Call
  call_begin_round call_request_action call_end_turn : Call
  call_submit_action : String → String → String → Call
  call_end_encounter : String → Call

unfoldable pub run_call : Call → Machine → Machine
unfolding roll_initiative begin_round request_action submit_action end_turn end_encounter
run_call (call_roll_initiative draw shuffle) m = (roll_initiative draw shuffle m).1
run_call call_begin_round m = (begin_round m).1
run_call call_request_action m = (request_action m).1
run_call (call_submit_action kind payload result) m = (submit_action kind payload result m).1
run_call call_end_turn m = (end_turn m).1
run_call (call_end_encounter reason) m = (end_encounter reason m).1

unfoldable pub run_calls : List Call → Machine → Machine
unfolding run_call
run_calls [] m = m
run_calls (c ∷ cs) m = run_calls cs (run_call c m)
