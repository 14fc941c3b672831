-- ===== src/Game/Combat/Turns.antt =====
-- One turn of a round: request_action, submit_action and end_turn of src/ai_dm/game/combat_machine.py.
use ai_dm.Prelude.{
  ℕ, zero, suc, ◌+◌, Option, some, List, [], ◌∷◌, ◌++◌, String, ◌≡◌, append_nil, append_assoc, refl,
  ap, ◌∙◌, arith, get_elem?, set, map,
}
use native.Mathlib.Numerals.{add-one}
use ai_dm.Game.Combatant
use ai_dm.Game.Combatant.{CombatantState}
use ai_dm.Game.Combat.State.{
  in_round, awaiting_action, resolving_action, ActionLogEntry, CombatState, Event,
  encounter_started, phase_changed, initiative_rolled, round_started, actor_highlighted,
  action_resolved, turn_ended, encounter_ended, Machine, Result, ok, pure, raise, ◌>>=◌, ◌>>◌,
  publish, modify, require_state, current_actor, highlight, given, index, resume,
}
use ai_dm.Game.Combat.{
  move_to, transition, request_action, submit_action, end_turn, announce_end, announce_actor, hop,
  refreshed, Call, call_request_action, call_end_turn, call_submit_action, log_entry,
}

-- The actors that were highlighted.
unfoldable pub highlights : List Event → List String
highlights [] = []
highlights (actor_highlighted a n ∷ es) = a ∷ highlights es
highlights (encounter_started i ∷ es) = highlights es
highlights (phase_changed p q n ∷ es) = highlights es
highlights (initiative_rolled o ∷ es) = highlights es
highlights (round_started n ∷ es) = highlights es
highlights (action_resolved a k n ∷ es) = highlights es
highlights (turn_ended a n ∷ es) = highlights es
highlights (encounter_ended i r ∷ es) = highlights es

-- An action: its kind, payload and result.
abbrev pub Deed : Type 0
Deed = String × String × String

-- The calls of one turn after another.
unfoldable pub turn_calls : List Deed → List Call
turn_calls [] = []
turn_calls ((kind, payload, result) ∷ deeds) =
    call_request_action ∷ call_submit_action kind payload result ∷ call_end_turn ∷ turn_calls deeds

-- The entries that the deeds of a round leave in the log, in the order of play.
unfoldable pub entries : ℕ → List CombatantState → List Deed → List ActionLogEntry
entries n [] deeds = []
entries n (a ∷ actors) [] = []
entries n (a ∷ actors) ((kind, payload, result) ∷ deeds) =
    record { at_round = n; actor_id = a.actor_id; kind = kind; payload = payload; result = result }
    ∷ entries n actors deeds

abbrev pub ids : List CombatantState → List String
ids ps = map (λ p. p.actor_id) ps

-- The encounter after the turn of an actor.
unfoldable pub turned : CombatState → CombatantState → String → String → String → CombatState
turned s a kind payload result = record s {
  phase = in_round;
  current_index = s.current_index + 1;
  participants = set s.participants s.current_index (Combatant.start_of_turn a);
  log = s.log ++ log_entry s a kind payload result ∷ [];
}

hop_skips : (s : CombatState) (m : Machine) → s.phase ≡ resolving_action → hop s m ≡ (ok tt, m)
unfolding hop pure
hop_skips s m p = ground arith

transition_back :
    (s : CombatState) (m : Machine)
    → m.state ≡ some s
    → s.phase ≡ resolving_action
    → transition in_round m ≡ (
      ok tt,
      record m {
        state = some (record s { phase = in_round });
        published = m.published ++ phase_changed resolving_action in_round s.round ∷ [];
      },
    )
unfolding transition move_to ◌>>=◌ ◌>>◌ pure raise resume require_state given modify publish
transition_back s m h p = ground arith

announce_lem :
    (s : CombatState) (a : CombatantState) (m : Machine)
    → get_elem? s.participants s.current_index ≡ some a
    → announce_end s m
      ≡ (ok tt, record m { published = m.published ++ turn_ended a.actor_id s.round ∷ [] })
unfolding announce_end announce_actor publish
announce_lem s a m e = ground arith

-- `end_turn` after a resolved action.
end_turn_lem :
    (s : CombatState) (a : CombatantState) (m : Machine)
    → m.state ≡ some s
    → s.phase ≡ resolving_action
    → get_elem? s.participants s.current_index ≡ some a
    → end_turn m ≡ (
      ok (get_elem? s.participants (s.current_index + 1)),
      record m {
        state = some (record s { phase = in_round; current_index = s.current_index + 1 });
        published =
            (m.published ++ turn_ended a.actor_id s.round ∷ [])
            ++ phase_changed resolving_action in_round s.round ∷ [];
      },
    )
unfolding end_turn ◌>>=◌ ◌>>◌ pure raise resume require_state given modify
end_turn_lem s a m h p e =
    let m' : Machine = record m { published = m.published ++ turn_ended a.actor_id s.round ∷ [] } in
    ground (arith, announce_lem s a m e, hop_skips s m' p, transition_back s m' h p)

module _ (m : Machine) (s : CombatState) (a : CombatantState) (h : m.state ≡ some s)
    (e : get_elem? s.participants s.current_index ≡ some a) where
  request_state :
      s.phase ≡ in_round
      → (request_action m).1.state ≡ some (refreshed a (record s { phase = awaiting_action }))
  unfolding request_action transition move_to ◌>>=◌ ◌>>◌ pure raise resume require_state given
      modify publish highlight current_actor index refreshed
  request_state p = ground arith

  request_published :
      s.phase ≡ in_round
      → (request_action m).1.published
        ≡ (m.published ++ phase_changed in_round awaiting_action s.round ∷ [])
          ++ actor_highlighted a.actor_id s.round ∷ []
  unfolding request_action transition move_to ◌>>=◌ ◌>>◌ pure raise resume require_state given
      modify publish highlight current_actor index refreshed
  request_published p = ground arith

  submit_state :
      (kind payload result : String)
      → s.phase ≡ awaiting_action
      → (submit_action kind payload result m).1.state
        ≡ some (record s {
          phase = resolving_action;
          log = s.log ++ log_entry s a kind payload result ∷ [];
        })
  unfolding submit_action transition move_to ◌>>=◌ ◌>>◌ pure raise resume require_state given modify
      publish current_actor index
  submit_state kind payload result p = ground arith

  submit_published :
      (kind payload result : String)
      → s.phase ≡ awaiting_action
      → (submit_action kind payload result m).1.published
        ≡ (m.published ++ phase_changed awaiting_action resolving_action s.round ∷ [])
          ++ action_resolved a.actor_id kind s.round ∷ []
  unfolding submit_action transition move_to ◌>>=◌ ◌>>◌ pure raise resume require_state given modify
      publish current_actor index
  submit_published kind payload result p = ground arith

highlights-append : (es fs : List Event) → highlights (es ++ fs) ≡ highlights es ++ highlights fs
unfolding highlights
highlights-append [] fs = refl
highlights-append (actor_highlighted a n ∷ es) fs =
    ap (λ (t : List String). a ∷ t) (highlights-append es fs)
highlights-append (encounter_started i ∷ es) fs = highlights-append es fs
highlights-append (phase_changed p q n ∷ es) fs = highlights-append es fs
highlights-append (initiative_rolled o ∷ es) fs = highlights-append es fs
highlights-append (round_started n ∷ es) fs = highlights-append es fs
highlights-append (action_resolved a k n ∷ es) fs = highlights-append es fs
highlights-append (turn_ended a n ∷ es) fs = highlights-append es fs
highlights-append (encounter_ended i r ∷ es) fs = highlights-append es fs

-- Two events, the first of which highlights nobody.
pub highlights_two :
    (es : List Event) (e f : Event)
    → highlights (e ∷ []) ≡ []
    → highlights ((es ++ e ∷ []) ++ f ∷ []) ≡ highlights es ++ highlights (f ∷ [])
highlights_two es e f q = simp (highlights-append, q, append_assoc) refl

module _ {ℓ} {A : Type ℓ} where
  abbrev pub drop : ℕ → List A → List A
  drop zero xs = xs
  drop (suc i) [] = []
  drop (suc i) (x ∷ xs) = drop i xs

module _ {ℓ} {A : Type ℓ} where
  pub drop-head :
      (i : ℕ) (xs : List A) (a : A) (rest : List A) → drop i xs ≡ a ∷ rest → get_elem? xs i ≡ some a
  drop-head zero [] a rest e = ground arith
  drop-head zero (x ∷ xs) a rest e = ground arith
  drop-head (suc i) [] a rest e = ground arith
  drop-head (suc i) (x ∷ xs) a rest e = drop-head i xs a rest e

  drop-tail :
      (i : ℕ) (xs : List A) (a v : A) (rest : List A)
      → drop i xs ≡ a ∷ rest
      → drop (suc i) (set xs i v) ≡ rest
  drop-tail zero [] a v rest e = ground arith
  drop-tail zero (x ∷ xs) a v rest e = ground arith
  drop-tail (suc i) [] a v rest e = ground arith
  drop-tail (suc i) (x ∷ xs) a v rest e = drop-tail i xs a v rest e

  get_elem?-set :
      (i : ℕ) (xs : List A) (a v : A) → get_elem? xs i ≡ some a → get_elem? (set xs i v) i ≡ some v
  get_elem?-set i [] a v e = ground arith
  get_elem?-set zero (x ∷ xs) a v e = refl
  get_elem?-set (suc i) (x ∷ xs) a v e = get_elem?-set i xs a v e

pub ids-set :
    (i : ℕ) (ps : List CombatantState) (a v : CombatantState)
    → get_elem? ps i ≡ some a
    → v.actor_id ≡ a.actor_id
    → ids (set ps i v) ≡ ids ps
ids-set i [] a v e h = refl
ids-set zero (p ∷ ps) a v e h = ground arith
ids-set (suc i) (p ∷ ps) a v e h = ap (λ (t : List String). p.actor_id ∷ t) (ids-set i ps a v e h)

pub drop-tail' :
    {A : Type 0}
    → (i : ℕ) (xs : List A) (a v : A) (rest : List A) → drop i xs ≡ a ∷ rest
    → drop (i + 1) (set xs i v) ≡ rest
drop-tail' i xs a v rest d = rw add-one (drop-tail i xs a v rest d)

pub start_id : (a : CombatantState) → (Combatant.start_of_turn a).actor_id ≡ a.actor_id
unfolding Combatant.start_of_turn
start_id a = refl

-- The three calls of a turn.
unfoldable pub after_turn : String → String → String → Machine → Machine
after_turn kind payload result m =
    (end_turn (submit_action kind payload result (request_action m).1).1).1

module _ (m : Machine) (s : CombatState) (a : CombatantState) (kind payload result : String)
    (h : m.state ≡ some s) (p : s.phase ≡ in_round)
    (e : get_elem? s.participants s.current_index ≡ some a) where
  pub turn_state : (after_turn kind payload result m).state ≡ some (turned s a kind payload result)
  unfolding after_turn turned refreshed log_entry Combatant.start_of_turn
  turn_state =
      let a' = Combatant.start_of_turn a in
      let s1 = refreshed a (record s { phase = awaiting_action }) in
      let m1 = (request_action m).1 in
      let h1 : m1.state ≡ some s1 = request_state m s a h e p in
      let e1 = get_elem?-set s.current_index s.participants a a' e in
      let h2 = submit_state m1 s1 a' h1 e1 kind payload result refl in
      ap (λ (r : Result (Option CombatantState) × Machine). r.1.state)
        (end_turn_lem _ a' _ h2 refl e1)

  pub turn_highlights :
      highlights (after_turn kind payload result m).published
      ≡ highlights m.published ++ a.actor_id ∷ []
  unfolding after_turn refreshed log_entry Combatant.start_of_turn highlights
  turn_highlights =
      let a' = Combatant.start_of_turn a in
      let s1 = refreshed a (record s { phase = awaiting_action }) in
      let m1 = (request_action m).1 in
      let m2 = (submit_action kind payload result m1).1 in
      let h1 : m1.state ≡ some s1 = request_state m s a h e p in
      let e1 = get_elem?-set s.current_index s.participants a a' e in
      let h2 = submit_state m1 s1 a' h1 e1 kind payload result refl in
      let q1 =
        ap highlights (request_published m s a h e p) ∙ highlights_two m.published _ _ refl in
      let q2 =
        ap highlights (submit_published m1 s1 a' h1 e1 kind payload result refl)
        ∙ highlights_two m1.published _ _ refl in
      let q3 =
        ap (λ (r : Result (Option CombatantState) × Machine). highlights r.1.published)
          (end_turn_lem _ a' _ h2 refl e1)
        ∙ highlights_two m2.published _ _ refl in
      q3 ∙ append_nil _ ∙ q2 ∙ append_nil _ ∙ q1
