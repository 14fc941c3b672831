-- ===== src/Game/Combat/Phases.antt =====
-- The phases of an encounter, over any series of calls.
use ai_dm.Prelude.{
  ℕ, Option, none, some, List, [], ◌∷◌, String, refl, get_elem?, Bool-cases, inl, inr,
}
use ai_dm.Prelude.Int.{ℤ}
use ai_dm.Rules.Initiative.{Shuffle}
use ai_dm.Game.Combatant.{CombatantState}
use ai_dm.Game.Combat.State.{
  rolling_initiative, in_round, awaiting_action, resolving_action, ended, CombatState, Machine,
}
use ai_dm.Game.Combat.{
  eq_phase, roll_initiative, begin_round, request_action, submit_action, end_turn, end_encounter,
  announce_end, announce_actor, hop, refreshed, Call, call_roll_initiative, call_begin_round,
  call_request_action, call_end_turn, call_submit_action, call_end_encounter, run_call, run_calls,
}
use ai_dm.Game.Combat.Follows.{
  follow, Moves, Follows, unmoved, then-Moves, Follows-pure, Follows-bind, Follows-then,
  Follows-require_state, Follows-modify, Follows-publish, Follows-current_actor, Follows-highlight,
  Follows-transition,
}

Follows-roll_initiative :
    (draw : ℕ → ℤ) (shuffle : Shuffle) → Follows (roll_initiative draw shuffle)
unfolding roll_initiative follow
Follows-roll_initiative draw shuffle = Follows-then _ _ (Follows-transition rolling_initiative) (
    Follows-then _ _ (Follows-modify _ (λ s. refl)) (
      Follows-bind _ _ Follows-require_state
        (λ s. Follows-then _ _ (Follows-publish _ (λ r. refl)) (Follows-pure _))))

Follows-begin_round : Follows begin_round
unfolding begin_round follow
Follows-begin_round = Follows-then _ _ (Follows-transition in_round) (
    Follows-then _ _ (Follows-modify _ (λ s. refl)) (
      Follows-bind _ _ Follows-require_state
        (λ s. Follows-then _ _ (Follows-publish _ (λ r. refl)) (Follows-pure _))))

Follows-request_action : Follows request_action
unfolding request_action follow refreshed
Follows-request_action = Follows-bind _ _ Follows-require_state (λ s.
    Follows-then _ _ (Follows-transition awaiting_action) (
      Follows-bind _ _ (Follows-current_actor s) (λ a.
        Follows-then _ _ (Follows-modify _ (λ s. refl)) (
          Follows-then _ _ (Follows-publish _ (λ r. refl))
            (Follows-then _ _ (Follows-highlight _) (Follows-pure _))))))

Follows-submit_action : (kind payload result : String) → Follows (submit_action kind payload result)
unfolding submit_action follow
Follows-submit_action kind payload result = Follows-bind _ _ Follows-require_state (λ s.
    Follows-then _ _ (Follows-transition resolving_action) (
      Follows-bind _ _ (Follows-current_actor s) (λ a.
        Follows-then _ _ (Follows-modify _ (λ s. refl))
          (Follows-then _ _ (Follows-publish _ (λ r. refl)) (Follows-pure _)))))

announce : (o : Option CombatantState) (n : ℕ) → Follows (announce_actor o n)
unfolding announce_actor follow
announce none n = Follows-pure tt
announce (some a) n = Follows-publish _ (λ r. refl)

Follows-announce_end : (s : CombatState) → Follows (announce_end s)
unfolding announce_end
Follows-announce_end s = announce (get_elem? s.participants s.current_index) s.round

Follows-hop : (s : CombatState) → Follows (hop s)
unfolding hop
Follows-hop s = elim (Bool-cases (eq_phase s.phase awaiting_action)) [
  | inl e ↦ rw e (Follows-transition resolving_action)
  | inr e ↦ rw e (Follows-pure tt)
]

Follows-end_turn : Follows end_turn
unfolding end_turn
Follows-end_turn = Follows-bind _ _ Follows-require_state (λ s.
    Follows-then _ _ (Follows-announce_end s) (
      Follows-then _ _ (Follows-hop s) (
        Follows-then _ _ (Follows-transition in_round) (
          Follows-then _ _ (Follows-modify _ (λ s. refl))
            (Follows-bind _ _ Follows-require_state (λ s. Follows-pure _))))))

Follows-end_encounter : (reason : String) → Follows (end_encounter reason)
unfolding end_encounter follow
Follows-end_encounter reason = Follows-then _ _ (Follows-transition ended) (
    Follows-then _ _ (Follows-modify _ (λ s. refl)) (
      Follows-bind _ _ Follows-require_state
        (λ s. Follows-then _ _ (Follows-publish _ (λ r. refl)) (Follows-pure _))))

run_call-Moves : (c : Call) (m : Machine) → Moves m (run_call c m)
unfolding run_call
run_call-Moves (call_roll_initiative draw shuffle) m =
    (Follows-roll_initiative draw shuffle).moves m
run_call-Moves call_begin_round m = Follows-begin_round.moves m
run_call-Moves call_request_action m = Follows-request_action.moves m
run_call-Moves (call_submit_action kind payload result) m =
    (Follows-submit_action kind payload result).moves m
run_call-Moves call_end_turn m = Follows-end_turn.moves m
run_call-Moves (call_end_encounter reason) m = (Follows-end_encounter reason).moves m

-- Whatever calls are made in an encounter, in any order and with their exceptions, the events that
-- they publish are appended to those before, each published change of phase starts from the phase of
-- that moment and goes on to the next phase of play or to the end, and together they lead to the phase
-- that the machine is in.
pub run_calls-Moves : (cs : List Call) (m : Machine) → Moves m (run_calls cs m)
unfolding run_calls
run_calls-Moves [] m = unmoved m m refl refl
run_calls-Moves (c ∷ cs) m =
    then-Moves m (run_call c m) (run_calls cs (run_call c m)) (run_call-Moves c m)
      (run_calls-Moves cs (run_call c m))
