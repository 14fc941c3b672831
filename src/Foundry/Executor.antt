-- ===== src/Foundry/Executor.antt =====
-- src/ai_dm/foundry/batch_executor.py, with unwrap_single_result of src/ai_dm/foundry/results.py. The
-- queue and Foundry behind it are a world that answers payloads; an exception that leaves `execute` is a
-- missing outcome. The texts of errors are kept as their parts, and what `_timeout_detail` finds is an argument.
pub mod Batch
pub mod Shape
pub mod Sending
pub mod Compensating
pub mod Atomic
mod Examples
use ai_dm.Prelude.{
  ℕ, Bool, true, false, not, ◌&&◌, ◌||◌, Option, none, some, List, [], ◌∷◌, ◌++◌, String, str_eq,
  ◌==◌, if◌then◌else◌, keep, get_or_default, is_some,
}
use Prim.Native.Char.{Char, code}
use Prim.Native.String.{[], ◌∷◌}
use mathlib.Core.Logic.{◌⊎◌, inl, inr}
use ai_dm.Prelude.Int.{ℤ, pos}
use ai_dm.Foundry.Commands.{
  Json, null, boolean, number, text, array, object, Fields, empty_object, member, truthy, field_of,
  GameCommand, move_token, activate_scene, update_actor, create_scene, spawn_token, create_actor,
  delete_token, delete_actor, delete_scene,
}
use ai_dm.Foundry.Registry.{
  Registry, EntityKind, scene, actor, token, Answer, returned, RegistryEntry,
}
use ai_dm.Foundry.Registry.Calls.{register, unregister, get_entry}

-- What is put into the queue: a command, or one of the reads of `snapshot`.
pub data Payload : Type 0 where
  command : GameCommand → Payload
  reading_token : Option String → String → Payload
  reading_actor : String → Payload
  reading_active_scene : Payload

-- What `.result()` gives: a response, a `TimeoutError` or another exception, the full queue included.
pub data Reply : Type 0 where
  response : Json → Reply
  timed_out raised : String → Reply

pub data StepError : Type 0 where
  timeout_error : String → String → StepError
  raised_error : String → StepError
  no_result not_ok : Json → StepError

pub record StepResult : Type 0 where
  pub command : GameCommand
  pub response : Option Fields
  pub ok : Bool
  pub error : Option StepError

pub record BatchOutcome : Type 0 where
  pub ok : Bool
  pub results : List StepResult
  pub rolled_back : List StepResult
  pub rollback_errors : List (GameCommand × GameCommand)

pub data Snapshot : Type 0 where
  token_at : Option Json → Option String → Snapshot
  values : Fields → Snapshot
  scene_before : Option Json → Snapshot
  nothing_needed : Snapshot

-- A value, or an exception of Python.
pub data Attempt {ℓ} (A : Type ℓ) : Type ℓ where
  success : A → Attempt A
  failure : Attempt A

abbrev pub get_field : String → Json → Option Json
get_field key (object fields) = field_of key fields
get_field key _ = none

-- `unwrap_single_result`; a response that is no dict has no `get`.
abbrev pub checked : Json → Option Json → (Fields ⊎ StepError)
checked r (some (object fields)) =
    if truthy (get_or_default (boolean false) (field_of "ok" fields))
    then inl fields
    else inr (not_ok (object fields))
checked r _ = inr (no_result r)

unfoldable pub unwrap_single_result : Json → Fields ⊎ StepError
unwrap_single_result (object fields) = checked (object fields) (field_of "result" fields)
unwrap_single_result other = inr (raised_error "the response has no get")

abbrev pub step_error : String → Reply → Fields ⊎ StepError
step_error detail (response r) = unwrap_single_result r
step_error detail (timed_out message) = inr (timeout_error message detail)
step_error detail (raised message) = inr (raised_error message)

-- `dotted.split(".")`
abbrev prefix_first : Char → List String → List String
prefix_first c [] = (c ∷ []) ∷ []
prefix_first c (part ∷ parts) = (c ∷ part) ∷ parts

unfoldable pub split_dots : String → List String
split_dots [] = [] ∷ []
split_dots (c ∷ s) =
    let rest = split_dots s in if code c == 46 then [] ∷ rest else prefix_first c rest

-- Python reads a JSON null as None.
abbrev pub present : Option Json → Option Json
present (some null) = none
present o = o

abbrev descend : String → Json → Option Json
descend part (object fields) = present (field_of part fields)
descend part _ = none

unfoldable pub walk : List String → Json → Option Json
walk [] cur = some cur
walk (part ∷ parts) cur = elim (descend part cur) [ none ↦ none | some next ↦ walk parts next ]

unfoldable pub dotted_get : Json → String → Option Json
unfolding walk split_dots
dotted_get obj dotted = walk (split_dots dotted) obj

-- The loop over `cmd.patch.keys()`.
unfoldable pub prev_values : Json → Fields → Fields
unfolding dotted_get
prev_values snap empty_object = empty_object
prev_values snap (member key j rest) =
    member key (get_or_default null (dotted_get snap key)) (prev_values snap rest)

-- `a or b` on optional texts
abbrev pub or_text : Option String → Option String → Option String
or_text none b = b
or_text (some s) b = if str_eq s "" then b else some s

abbrev pub text_or : Option String → String → String
text_or none b = b
text_or (some s) b = if str_eq s "" then b else s

-- `int(j)`; the digits of a text are read by `int_of_text`.
abbrev pub int_of : (String → Option ℤ) → Json → Option ℤ
int_of int_of_text (number n) = some n
int_of int_of_text (boolean true) = some (pos 1)
int_of int_of_text (boolean false) = some (pos 0)
int_of int_of_text (text s) = int_of_text s
int_of int_of_text _ = none

abbrev id_of : Json → Attempt (Option String)
id_of (text s) = if str_eq s "" then success none else success (some s)
id_of j = if truthy j then failure else success none

-- An id in a result: none where it is missing or empty, an exception where it is no text.
abbrev pub id_in : String → Fields → Attempt (Option String)
id_in key fields = id_of (get_or_default null (field_of key fields))

abbrev map_attempt : (String → GameCommand) → Attempt (Option String) → Attempt (Option GameCommand)
map_attempt f failure = failure
map_attempt f (success none) = success none
map_attempt f (success (some s)) = success (some (f s))

abbrev moved_to : String → Option String → Option ℤ → Option ℤ → Attempt (Option GameCommand)
moved_to token_id scene_id (some x) (some y) = success (some (move_token token_id x y scene_id))
moved_to token_id scene_id _ _ = failure

abbrev move_back :
    (String → Option ℤ) → String → ℤ → ℤ → Option String → Json → Attempt (Option GameCommand)
move_back int_of_text token_id x y scene_id (object fields) =
    moved_to token_id scene_id
      (int_of int_of_text (get_or_default (number x) (field_of "x" fields)))
      (int_of int_of_text (get_or_default (number y) (field_of "y" fields)))
move_back int_of_text token_id x y scene_id _ = failure

abbrev back_to : String → Json → Attempt (Option GameCommand)
back_to scene_id (text s) =
    if str_eq s "" || str_eq s scene_id then success none else success (some (activate_scene s))
back_to scene_id j = if truthy j then failure else success none

-- `CommandInverter.inverse`
unfoldable pub inverse :
    (String → Option ℤ)
    → GameCommand
    → Option Snapshot
    → Option Fields
    → Attempt (Option GameCommand)
inverse int_of_text (move_token token_id x y scene_id) (some (token_at (some prev) s)) result =
    if truthy prev
    then move_back int_of_text token_id x y (or_text s scene_id) prev
    else success none
inverse int_of_text (update_actor actor_id patch) (some (values empty_object)) result = success none
inverse int_of_text (update_actor actor_id patch) (some (values vs)) result =
    success (some (update_actor actor_id vs))
inverse int_of_text (activate_scene scene_id) (some (scene_before (some prev))) result =
    back_to scene_id prev
inverse int_of_text (spawn_token scene_id actor_id x y name) snap (some result) =
    map_attempt (delete_token scene_id) (id_in "tokenId" result)
inverse int_of_text (create_actor name actor_type system img items aliases) snap (some result) =
    map_attempt delete_actor (id_in "actorId" result)
inverse int_of_text (create_scene name width height grid) snap (some result) =
    map_attempt delete_scene (id_in "sceneId" result)
inverse int_of_text _ snap result = success none
