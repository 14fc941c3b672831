-- ===== src/Game/Combat/State.antt =====
-- src/ai_dm/game/combat_state.py, and the calls of combat_machine.py as actions: the machine comes back
-- beside an exception too, since what was written before it stays written. `published` and
-- `highlighted` are what the event bus and the command router were given.
use ai_dm.Prelude.{
  ℕ, Bool, Option, none, some, List, [], ◌∷◌, ◌++◌, String, not, ◌&&◌, str_eq, if◌then◌else◌,
  get_elem?,
}
use ai_dm.Game.Combatant.{CombatantState}

pub data CombatPhase : Type 0 where
  idle rolling_initiative in_round awaiting_action resolving_action ended : CombatPhase

-- The payloads of an entry are kept as their texts; the time stamp is left out.
pub record ActionLogEntry : Type 0 where
  pub at_round : ℕ
  pub actor_id : String
  pub kind : String
  pub payload : String
  pub result : String

-- A round and an index are counted up from 0.
pub record CombatState : Type 0 where
  pub encounter_id : String
  pub phase : CombatPhase
  pub round : ℕ
  pub current_index : ℕ
  pub participants : List CombatantState
  pub log : List ActionLogEntry

pub data Event : Type 0 where
  encounter_started : String → Event
  phase_changed : CombatPhase → CombatPhase → ℕ → Event
  initiative_rolled : List String → Event
  round_started : ℕ → Event
  actor_highlighted : String → ℕ → Event
  action_resolved : String → String → ℕ → Event
  turn_ended : String → ℕ → Event
  encounter_ended : String → String → Event

pub record Machine : Type 0 where
  pub auto_highlight : Bool
  pub has_router : Bool
  pub state : Option CombatState
  pub published : List Event
  pub highlighted : List String

pub data Error : Type 0 where
  no_encounter index_error : Error
  invalid_transition : CombatPhase → CombatPhase → Error

pub data Result (A : Type 0) : Type 0 where
  ok : A → Result A
  err : Error → Result A

abbrev pub Action : Type 0 → Type 0
Action A = Machine → Result A × Machine

module _ {A : Type 0} where
  unfoldable pub pure : A → Action A
  pure a m = (ok a, m)

  unfoldable pub raise : Error → Action A
  raise e m = (err e, m)

-- What a call does with the result of the one before it.
unfoldable pub resume : {A B : Type 0} → (A → Action B) → Result A → Action B
unfolding raise
resume g (ok a) = g a
resume g (err e) = raise e

infixl 5 ◌>>=◌ ◌>>◌
unfoldable pub ◌>>=◌ : {A B : Type 0} → Action A → (A → Action B) → Action B
unfolding resume
◌>>=◌ f g m = let (r, m') = f m in resume g r m'

unfoldable pub ◌>>◌ : {A B : Type 0} → Action A → Action B → Action B
unfolding ◌>>=◌
f >> g = f >>= λ _. g

-- `_publish`
unfoldable pub publish : Event → Action (Unit {0})
publish e m = (ok tt, record m { published = m.published ++ e ∷ [] })

abbrev pub updated : (CombatState → CombatState) → Option CombatState → Option CombatState
updated f none = none
updated f (some s) = some (f s)

-- An assignment to attributes of `self.state`.
unfoldable pub modify : (CombatState → CombatState) → Action (Unit {0})
modify f m = (ok tt, record m { state = updated f m.state })

unfoldable pub given : Option CombatState → Action CombatState
unfolding pure raise
given none = raise no_encounter
given (some s) = pure s

-- `_require_state`
unfoldable pub require_state : Action CombatState
unfolding given
require_state m = given m.state m

unfoldable pub index : Option CombatantState → Action CombatantState
unfolding pure raise
index none = raise index_error
index (some actor) = pure actor

-- `s.participants[s.current_index]`
unfoldable pub current_actor : CombatState → Action CombatantState
unfolding index
current_actor s = index (get_elem? s.participants s.current_index)

-- The highlight command for the token of an actor; a router that fails is only logged.
unfoldable pub highlight : Option String → Action (Unit {0})
highlight none m = (ok tt, m)
highlight (some token_id) m =
    if m.auto_highlight && m.has_router && not (str_eq token_id "")
    then (ok tt, record m { highlighted = m.highlighted ++ token_id ∷ [] })
    else (ok tt, m)
