-- ===== src/Game/Combat/Ending.antt =====
-- An encounter that has ended, and the index error of `request_action`.
use ai_dm.Prelude.{
  ℕ, false, Option, none, some, List, [], ◌∷◌, ◌++◌, String, ◌≡◌, ◌∙◌, refl, arith, get_elem?, map,
}
use ai_dm.Prelude.Int.{ℤ}
use ai_dm.Rules.Initiative.{Shuffle}
use ai_dm.Game.Combatant
use ai_dm.Game.Combatant.{CombatantState}
use ai_dm.Game.Combat.State.{
  CombatPhase, rolling_initiative, in_round, awaiting_action, resolving_action, ended,
  ActionLogEntry, CombatState, phase_changed, Machine, ok, err, index_error, invalid_transition,
  pure, raise, ◌>>=◌, ◌>>◌, publish, modify, require_state, current_actor, given, index, resume,
}
use ai_dm.Game.Combat.{
  eq_phase, move_to, transition, roll_initiative, begin_round, request_action, submit_action,
  end_turn, end_encounter, announce_end, announce_actor, hop, Call, call_roll_initiative,
  call_begin_round, call_request_action, call_end_turn, call_submit_action, call_end_encounter,
  run_call, run_calls,
}

-- An encounter that has ended, with its round, index and log.
pub record HasEnded (round current_index : ℕ) (log : List ActionLogEntry) (m : Machine)
    : Type 0 where
  pub last : CombatState
  pub is_state : m.state ≡ some last
  pub is_ended : last.phase ≡ ended
  pub same_round : last.round ≡ round
  pub same_index : last.current_index ≡ current_index
  pub same_log : last.log ≡ log

module _ {n i : ℕ} {l : List ActionLogEntry} where
  kept : (m m' : Machine) → HasEnded n i l m → m'.state ≡ m.state → HasEnded n i l m'
  kept m m' h e = record {
    last = h.last;
    is_state = e ∙ h.is_state;
    is_ended = h.is_ended;
    same_round = h.same_round;
    same_index = h.same_index;
    same_log = h.same_log;
  }

-- Out of `ended` no transition to another phase is made.
transition_refused :
    (target : CombatPhase) (m : Machine) (s : CombatState)
    → eq_phase target ended ≡ false
    → m.state ≡ some s
    → s.phase ≡ ended
    → transition target m ≡ (err (invalid_transition s.phase target), m)
unfolding transition move_to ◌>>=◌ ◌>>◌ pure raise resume require_state given modify publish
transition_refused target m s t h p = ground arith

require_lem : (m : Machine) (s : CombatState) → m.state ≡ some s → require_state m ≡ (ok s, m)
unfolding require_state given pure
require_lem m s h = ground arith

module _ (m : Machine) (s : CombatState) (h : m.state ≡ some s) (p : s.phase ≡ ended) where
  roll_refused :
      (draw : ℕ → ℤ) (shuffle : Shuffle) → (roll_initiative draw shuffle m).1.state ≡ m.state
  unfolding roll_initiative ◌>>=◌ ◌>>◌ raise resume
  roll_refused draw shuffle = ground (arith, transition_refused rolling_initiative m s refl h p)

  begin_refused : (begin_round m).1.state ≡ m.state
  unfolding begin_round ◌>>=◌ ◌>>◌ raise resume
  begin_refused = ground (arith, transition_refused in_round m s refl h p)

  request_refused : (request_action m).1.state ≡ m.state
  unfolding request_action ◌>>=◌ ◌>>◌ raise resume
  request_refused =
      ground (arith, require_lem m s h, transition_refused awaiting_action m s refl h p)

  submit_refused :
      (kind payload result : String) → (submit_action kind payload result m).1.state ≡ m.state
  unfolding submit_action ◌>>=◌ ◌>>◌ raise resume
  submit_refused kind payload result =
      ground (arith, require_lem m s h, transition_refused resolving_action m s refl h p)

  announced :
      (o : Option CombatantState) (k : ℕ)
      → ((announce_actor o k m).0 ≡ ok tt) × ((announce_actor o k m).1.state ≡ some s)
  unfolding announce_actor publish pure
  announced none k = (refl, h)
  announced (some a) k = (refl, h)

  announced_end : ((announce_end s m).0 ≡ ok tt) × ((announce_end s m).1.state ≡ some s)
  unfolding announce_end
  announced_end = announced (get_elem? s.participants s.current_index) s.round

  hop_skipped : (m' : Machine) → hop s m' ≡ (ok tt, m')
  unfolding hop pure
  hop_skipped m' = ground arith

  end_turn_refused : (end_turn m).1.state ≡ m.state
  unfolding end_turn ◌>>=◌ ◌>>◌ raise resume pure
  end_turn_refused =
      let m' = (announce_end s m).1 in
      ground (
        arith,
        h,
        require_lem m s h,
        announced_end.0,
        announced_end.1,
        hop_skipped m',
        transition_refused in_round m' s refl announced_end.1 p,
      )

  end_encounter_again :
      (reason : String)
      → (end_encounter reason m).1.state
        ≡ some (record s { participants = map Combatant.end_encounter s.participants })
  unfolding end_encounter transition move_to ◌>>=◌ ◌>>◌ pure raise resume require_state given modify
      publish
  end_encounter_again reason = ground arith

run_call-HasEnded :
    {n i : ℕ} {l : List ActionLogEntry} (c : Call) (m : Machine)
    → HasEnded n i l m
    → HasEnded n i l (run_call c m)
unfolding run_call
run_call-HasEnded (call_roll_initiative draw shuffle) m h =
    kept _ _ h (roll_refused m h.last h.is_state h.is_ended draw shuffle)
run_call-HasEnded call_begin_round m h = kept _ _ h (begin_refused m h.last h.is_state h.is_ended)
run_call-HasEnded call_request_action m h =
    kept _ _ h (request_refused m h.last h.is_state h.is_ended)
run_call-HasEnded call_end_turn m h = kept _ _ h (end_turn_refused m h.last h.is_state h.is_ended)
run_call-HasEnded (call_submit_action kind payload result) m h =
    kept _ _ h (submit_refused m h.last h.is_state h.is_ended kind payload result)
run_call-HasEnded (call_end_encounter reason) m h = record {
  last = record (h.last) { participants = map Combatant.end_encounter h.last.participants };
  is_state = end_encounter_again m h.last h.is_state h.is_ended reason;
  is_ended = h.is_ended;
  same_round = h.same_round;
  same_index = h.same_index;
  same_log = h.same_log;
}

-- Once an encounter has ended no call of it leaves the phase `ended` or changes the round, the index
-- of the actor or the log.
pub run_calls-HasEnded :
    {n i : ℕ} {l : List ActionLogEntry} (cs : List Call) (m : Machine)
    → HasEnded n i l m
    → HasEnded n i l (run_calls cs m)
unfolding run_calls
run_calls-HasEnded [] m h = h
run_calls-HasEnded (c ∷ cs) m h = run_calls-HasEnded cs (run_call c m) (run_call-HasEnded c m h)

-- `request_action` after the last actor of a round raises an index error, with the machine already
-- moved to `awaiting_action`: the round can only be continued by `end_turn`, which moves the index on,
-- or by the end of the encounter.
pub request_action-past_end :
    (m : Machine) (s : CombatState)
    → m.state ≡ some s
    → s.phase ≡ in_round
    → get_elem? s.participants s.current_index ≡ none
    → request_action m ≡ (
      err index_error,
      record m {
        state = some (record s { phase = awaiting_action });
        published = m.published ++ phase_changed in_round awaiting_action s.round ∷ [];
      },
    )
unfolding request_action transition move_to ◌>>=◌ ◌>>◌ pure raise resume require_state given modify
    publish current_actor index
request_action-past_end m s h p e = ground arith
