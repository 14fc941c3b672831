-- ===== src/Game/Combat/Follows.antt =====
-- The published changes of phase of src/ai_dm/game/combat_machine.py: what it means that an action follows
-- them, and the rule for each action that calls are made of.
use ai_dm.Prelude.{
  ℕ, Bool, true, false, not, ◌&&◌, ◌||◌, Option, none, some, List, [], ◌∷◌, ◌++◌, String, ◌≡◌,
  append_nil, append_assoc, refl, sym, ap, ◌∙◌, arith, if◌then◌else◌, get_elem?, Bool-cases,
  Option-cases, inl, inr, str_eq,
}
use ai_dm.Game.Combatant.{CombatantState}
use ai_dm.Game.Combat.State.{
  CombatPhase, idle, rolling_initiative, in_round, awaiting_action, resolving_action, ended,
  CombatState, Event, encounter_started, phase_changed, initiative_rolled, round_started,
  actor_highlighted, action_resolved, turn_ended, encounter_ended, Machine, Result, ok, err,
  index_error, no_encounter, Error, Action, pure, raise, ◌>>=◌, ◌>>◌, publish, modify,
  require_state, current_actor, highlight, given, index, resume, updated,
}
use ai_dm.Game.Combat.{is_allowed, eq_phase, move_to, transition}

-- The phase that play goes on to.
abbrev pub next_of : CombatPhase → Option CombatPhase
next_of idle = some rolling_initiative
next_of rolling_initiative = some in_round
next_of in_round = some awaiting_action
next_of awaiting_action = some resolving_action
next_of resolving_action = some in_round
next_of ended = none

abbrev pub is_next : CombatPhase → Option CombatPhase → Bool
is_next q none = false
is_next q (some p) = eq_phase q p

-- A change of phase goes on to the next phase, or to the end from any other phase.
abbrev pub is_step : CombatPhase → CombatPhase → Bool
is_step p q = is_next q (next_of p) || (eq_phase q ended && not (eq_phase p ended))

is_allowed-is_step : (p q : CombatPhase) → is_allowed p q ≡ true → is_step p q ≡ true
is_allowed-is_step p q h = ground arith

-- The phase after an event, seen from the phase before it; `none` where the event does not fit.
unfoldable pub follow : Event → Option CombatPhase → Option (Option CombatPhase)
follow (phase_changed p q n) none = none
follow (phase_changed p q n) (some r) = if eq_phase p r && is_step p q then some (some q) else none
follow (encounter_started i) r = some r
follow (initiative_rolled o) r = some r
follow (round_started n) r = some r
follow (actor_highlighted a n) r = some r
follow (action_resolved a k n) r = some r
follow (turn_ended a n) r = some r
follow (encounter_ended i n) r = some r

unfoldable pub follow_all : List Event → Option CombatPhase → Option (Option CombatPhase)
unfolding follow
follow_all [] r = some r
follow_all (e ∷ es) r = elim (follow e r) [ none ↦ none | some r' ↦ follow_all es r' ]

abbrev pub phase_in : Option CombatState → Option CombatPhase
phase_in none = none
phase_in (some s) = some s.phase

abbrev pub phase_of : Machine → Option CombatPhase
phase_of m = phase_in m.state

-- From one machine to a later one: the events in between lead from the one phase to the other.
pub record Moves (m m' : Machine) : Type 0 where
  pub events : List Event
  pub appended : m'.published ≡ m.published ++ events
  pub path : follow_all events (phase_of m) ≡ some (phase_of m')

pub record Follows {A : Type 0} (f : Action A) : Type 0 where
  pub moves : (m : Machine) → Moves m (f m).1

follow_all-append :
    (es fs : List Event) (r : Option CombatPhase) (r' : Option CombatPhase)
    → follow_all es r ≡ some r'
    → follow_all (es ++ fs) r ≡ follow_all fs r'
unfolding follow_all
follow_all-append [] fs r r' h = ground arith
follow_all-append (e ∷ es) fs r r' h = elim (Option-cases (follow e r)) [
  | inl n ↦ let bad : none ≡ some r' = rw (n, follow_all) at h in cc
  | inr (q, g) ↦ rw (g, follow_all) (follow_all-append es fs q r' (rw (g, follow_all) at h))
]

pub unmoved : (m m' : Machine) → m'.published ≡ m.published → phase_of m ≡ phase_of m' → Moves m m'
unfolding follow_all
unmoved m m' e p = record {
  events = [];
  appended = e ∙ sym (append_nil m.published);
  path = ap some p;
}

pub then-Moves : (m m' m'' : Machine) → Moves m m' → Moves m' m'' → Moves m m''
then-Moves m m' m'' a b = record {
  events = a.events ++ b.events;
  appended = rw (b.appended, a.appended) (append_assoc m.published a.events b.events);
  path = rw (follow_all-append a.events b.events (phase_of m) (phase_of m') a.path) b.path;
}

module _ {A : Type 0} where
  pub Follows-pure : (a : A) → Follows (pure a)
  unfolding pure
  Follows-pure a = record { moves = λ m. unmoved m m refl refl }

  Follows-raise : (e : Error) → Follows (raise {A = A} e)
  unfolding raise
  Follows-raise e = record { moves = λ m. unmoved m m refl refl }

bind-Moves :
    {A B : Type 0} (g : A → Action B) (m m' : Machine) (r : Result A)
    → Moves m m'
    → ((a : A) → Follows (g a))
    → Moves m (resume g r m').1
unfolding resume raise
bind-Moves g m m' (ok a) h k = then-Moves m m' (g a m').1 h ((k a).moves m')
bind-Moves g m m' (err e) h k = h

module _ {A B : Type 0} where
  pub Follows-bind :
      (f : Action A) (g : A → Action B) → Follows f → ((a : A) → Follows (g a)) → Follows (f >>= g)
  unfolding ◌>>=◌
  Follows-bind f g h k = record { moves = λ m. bind-Moves g m (f m).1 (f m).0 (h.moves m) k }

  pub Follows-then : (f : Action A) (g : Action B) → Follows f → Follows g → Follows (f >> g)
  unfolding ◌>>◌
  Follows-then f g h k = Follows-bind f (λ _. g) h (λ _. k)

Follows-given : (o : Option CombatState) → Follows (given o)
unfolding given
Follows-given none = Follows-raise no_encounter
Follows-given (some s) = Follows-pure s

pub Follows-require_state : Follows require_state
unfolding require_state
Follows-require_state = record { moves = λ m. (Follows-given m.state).moves m }

Follows-index : (o : Option CombatantState) → Follows (index o)
unfolding index
Follows-index none = Follows-raise index_error
Follows-index (some actor) = Follows-pure actor

pub Follows-modify :
    (f : CombatState → CombatState)
    → ((s : CombatState) → (f s).phase ≡ s.phase)
    → Follows (modify f)
unfolding modify
Follows-modify f h = record { moves = λ m. unmoved m (modify f m).1 refl (go m m.state refl) }
  where
    go : (m : Machine) (s : Option CombatState) → m.state ≡ s → phase_of m ≡ phase_of (modify f m).1
    go m none e = rw e refl
    go m (some s) e = rw e (ap some (sym (h s)))

-- The events that are no change of phase.
abbrev pub Quiet : Event → Type 0
Quiet e = (r : Option CombatPhase) → follow e r ≡ some r

pub Follows-publish : (e : Event) → Quiet e → Follows (publish e)
unfolding publish follow_all
Follows-publish e q = record {
  moves =
      λ m. record { events = e ∷ []; appended = refl; path = rw (q (phase_of m), follow_all) refl };
}

pub Follows-current_actor : (s : CombatState) → Follows (current_actor s)
unfolding current_actor
Follows-current_actor s = Follows-index (get_elem? s.participants s.current_index)

pub Follows-highlight : (t : Option String) → Follows (highlight t)
unfolding highlight
Follows-highlight none = record { moves = λ m. unmoved m m refl refl }
Follows-highlight (some t) = record { moves = λ m. go m }
  where
    go : (m : Machine) → Moves m (highlight (some t) m).1
    go m = elim (Bool-cases (m.auto_highlight && m.has_router && not (str_eq t ""))) [
      | inl e ↦ rw e (unmoved m (record m { highlighted = m.highlighted ++ t ∷ [] }) refl refl)
      | inr e ↦ rw e (unmoved m m refl refl)
    ]

eq_phase_self : (p : CombatPhase) → eq_phase p p ≡ true
eq_phase_self idle = refl
eq_phase_self rolling_initiative = refl
eq_phase_self in_round = refl
eq_phase_self awaiting_action = refl
eq_phase_self resolving_action = refl
eq_phase_self ended = refl

allowed_path :
    (p q : CombatPhase) (n : ℕ) (r r' : Option CombatPhase)
    → is_allowed p q ≡ true
    → r ≡ some p
    → r' ≡ some q
    → follow_all (phase_changed p q n ∷ []) r ≡ some r'
unfolding follow_all follow
allowed_path p q n r r' a e e' = ground (arith, eq_phase_self p, is_allowed-is_step p q a)

-- The move that `transition` makes from the state it has read.
move_to-Moves :
    (target : CombatPhase) (m : Machine) (s : CombatState)
    → m.state ≡ some s
    → Moves m (move_to target s m).1
unfolding move_to pure raise ◌>>=◌ ◌>>◌ resume modify publish follow_all follow
move_to-Moves target m s h = elim (Bool-cases (eq_phase target s.phase)) [
  | inl e ↦ rw e (unmoved m m refl refl)
  | inr e ↦ elim (Bool-cases (is_allowed s.phase target)) [
    | inl a ↦
        rw (e, a)
          (record {
            events = phase_changed s.phase target s.round ∷ [];
            appended = refl;
            path =
                allowed_path s.phase target s.round (phase_of m)
                  (phase_in (updated (λ s. record s { phase = target }) m.state)) a (ap phase_in h)
                  (ap
                    (λ (o : Option CombatState).
                      phase_in (updated (λ s. record s { phase = target }) o))
                    h);
          })
    | inr a ↦ rw (e, a) (unmoved m m refl refl)
  ]
]

pub Follows-transition : (target : CombatPhase) → Follows (transition target)
unfolding transition require_state given ◌>>=◌ resume raise pure
Follows-transition target = record { moves = λ m. go m m.state refl }
  where
    go : (m : Machine) (o : Option CombatState) → m.state ≡ o → Moves m (transition target m).1
    go m none e = simp (e) (unmoved m m refl refl)
    go m (some s) e = simp (e) (move_to-Moves target m s e)
