-- ===== src/Game/Combat/Rounds.antt =====
-- A round of an encounter, turn by turn.
use ai_dm.Prelude.{
  ℕ, ◌+◌, some, List, [], ◌∷◌, ◌++◌, String, ◌≡◌, length-map, append_nil, append_assoc, refl, sym,
  ap, ◌∙◌, arith, length, map,
}
use ai_dm.Game.Combatant
use ai_dm.Game.Combatant.{CombatantState}
use ai_dm.Game.Combat.State.{
  rolling_initiative, in_round, ActionLogEntry, CombatState, phase_changed, round_started, Machine,
  pure, raise, ◌>>=◌, ◌>>◌, publish, modify, require_state, given, resume,
}
use ai_dm.Game.Combat.{
  move_to, transition, begin_round, call_begin_round, run_call, run_calls, log_entry,
}
use ai_dm.Game.Combat.Turns.{
  highlights, highlights_two, Deed, turn_calls, entries, ids, turned, drop, drop-head, drop-tail',
  ids-set, start_id, after_turn, turn_state, turn_highlights,
}

-- After the turns of the actors `todo`: each was highlighted once, in order, and its deed is logged.
pub record RoundDone (n start : ℕ) (everyone todo : List CombatantState) (log : List ActionLogEntry)
    (shown : List String) (deeds : List Deed) (m : Machine) : Type 0 where
  pub last : CombatState
  pub is_state : m.state ≡ some last
  pub is_in_round : last.phase ≡ in_round
  pub same_round : last.round ≡ n
  pub next_index : last.current_index ≡ start + length deeds
  pub same_actors : ids last.participants ≡ ids everyone
  pub all_logged : last.log ≡ log ++ entries n todo deeds
  pub all_shown : highlights m.published ≡ shown ++ ids todo

turns_done :
    (deeds : List Deed) (todo : List CombatantState) (m : Machine) (s : CombatState)
    → m.state ≡ some s
    → s.phase ≡ in_round
    → drop s.current_index s.participants ≡ todo
    → length todo ≡ length deeds
    → RoundDone s.round s.current_index s.participants todo s.log
        (highlights m.published)
        deeds
        (run_calls (turn_calls deeds) m)
unfolding run_calls turn_calls entries turned after_turn log_entry run_call
turns_done [] [] m s h p d n = record {
  last = s;
  is_state = h;
  is_in_round = p;
  same_round = refl;
  next_index = omega arith;
  same_actors = refl;
  all_logged = sym (append_nil s.log);
  all_shown = sym (append_nil (highlights m.published));
}
turns_done [] (a ∷ todo) m s h p d n = absurd (omega arith)
turns_done (deed ∷ deeds) [] m s h p d n = absurd (omega arith)
turns_done ((kind, payload, result) ∷ deeds) (a ∷ todo) m s h p d n =
    let e = drop-head s.current_index s.participants a todo d in
    let s' = turned s a kind payload result in
    let m' = after_turn kind payload result m in
    let h' : m'.state ≡ some s' = turn_state m s a kind payload result h p e in
    let ih =
      turns_done deeds todo m' s' h' refl
        (drop-tail' s.current_index s.participants a (Combatant.start_of_turn a) todo d)
        (omega (arith, n)) in
    record {
      last = ih.last;
      is_state = ih.is_state;
      is_in_round = ih.is_in_round;
      same_round = ih.same_round;
      next_index = omega (arith, ih.next_index);
      same_actors =
          ih.same_actors
          ∙ ids-set s.current_index s.participants a (Combatant.start_of_turn a) e (start_id a);
      all_logged =
          ih.all_logged
          ∙ append_assoc s.log (log_entry s a kind payload result ∷ [])
              (entries s.round todo deeds);
      all_shown =
          ih.all_shown
          ∙ ap (λ (t : List String). t ++ ids todo)
              (turn_highlights m s a kind payload result h p e)
          ∙ append_assoc (highlights m.published) (a.actor_id ∷ []) (ids todo);
    }

-- The encounter that `begin_round` leaves.
begun : CombatState → CombatState
begun s = record s {
  phase = in_round;
  round = s.round + 1;
  current_index = 0;
  participants = map Combatant.start_of_round s.participants;
}

begin_round_state :
    (m : Machine) (s : CombatState)
    → m.state ≡ some s
    → s.phase ≡ rolling_initiative
    → (begin_round m).1.state ≡ some (begun s)
unfolding begin_round begun transition move_to ◌>>=◌ ◌>>◌ pure raise resume require_state given
    modify publish
begin_round_state m s h p = ground arith

begin_round_published :
    (m : Machine) (s : CombatState)
    → m.state ≡ some s
    → s.phase ≡ rolling_initiative
    → (begin_round m).1.published
      ≡ (m.published ++ phase_changed rolling_initiative in_round s.round ∷ [])
        ++ round_started (s.round + 1) ∷ []
unfolding begin_round transition move_to ◌>>=◌ ◌>>◌ pure raise resume require_state given modify
    publish
begin_round_published m s h p = ground arith

ids-start_of_round : (ps : List CombatantState) → ids (map Combatant.start_of_round ps) ≡ ids ps
unfolding Combatant.start_of_round
ids-start_of_round [] = refl
ids-start_of_round (p ∷ ps) = ap (λ (t : List String). p.actor_id ∷ t) (ids-start_of_round ps)

entries-start_of_round :
    (n : ℕ) (ps : List CombatantState) (deeds : List Deed)
    → entries n (map Combatant.start_of_round ps) deeds ≡ entries n ps deeds
unfolding entries Combatant.start_of_round
entries-start_of_round n [] deeds = refl
entries-start_of_round n (p ∷ ps) [] = refl
entries-start_of_round n (p ∷ ps) ((k, q, r) ∷ deeds) =
    ap
      (λ (t : List ActionLogEntry).
        record { at_round = n; actor_id = p.actor_id; kind = k; payload = q; result = r } ∷ t)
      (entries-start_of_round n ps deeds)

-- The first round after initiative is rolled, with one turn (request_action, submit_action, end_turn)
-- for each participant: every participant is highlighted exactly once and in the order of play, its
-- action is logged under its own id and the new round, the participants stay the same, and the
-- machine is back in `in_round` with its index past the last of them.
pub full_round :
    (m : Machine) (s : CombatState) (deeds : List Deed)
    → m.state ≡ some s
    → s.phase ≡ rolling_initiative
    → length deeds ≡ length s.participants
    → RoundDone
        (s.round + 1)
        0
        s.participants
        s.participants
        s.log
        (highlights m.published)
        deeds
        (run_calls (call_begin_round ∷ turn_calls deeds) m)
unfolding run_calls run_call begun highlights
full_round m s deeds h p n =
    let s' = begun s in
    let m' = (begin_round m).1 in
    let h' = begin_round_state m s h p in
    let len = length-map Combatant.start_of_round s.participants in
    let all = turns_done deeds s'.participants m' s' h' refl refl (omega (arith, n, len)) in
    let shown : highlights m'.published ≡ highlights m.published =
      ap highlights (begin_round_published m s h p)
      ∙ highlights_two m.published _ _ refl
      ∙ append_nil (highlights m.published) in
    record {
      last = all.last;
      is_state = all.is_state;
      is_in_round = all.is_in_round;
      same_round = all.same_round;
      next_index = all.next_index;
      same_actors = all.same_actors ∙ ids-start_of_round s.participants;
      all_logged =
          all.all_logged
          ∙ ap (λ (t : List ActionLogEntry). s.log ++ t)
              (entries-start_of_round (s.round + 1) s.participants deeds);
      all_shown =
          all.all_shown
          ∙ ap (λ (t : List String). t ++ ids s'.participants) shown
          ∙ ap (λ (t : List String). highlights m.published ++ t)
              (ids-start_of_round s.participants);
    }
