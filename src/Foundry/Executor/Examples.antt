-- ===== src/Foundry/Executor/Examples.antt =====
-- Runs of foundry/batch_executor.py against a table that knows two scenes and takes no other command.
use ai_dm.Prelude.{
  ◌++◌, ℕ, Bool, true, false, ◌≡◌, refl, Option, none, some, List, [], ◌∷◌, String, str_eq,
}
use mathlib.Core.Logic.{◌⊎◌}
use ai_dm.Prelude.Int.{ℤ}
use ai_dm.Foundry.Commands.{
  field_of, text, boolean, object, Fields, empty_object, member, GameCommand, activate_scene,
  highlight_object,
}
use ai_dm.Foundry.Registry.{init}
use ai_dm.Foundry.Executor.{
  unwrap_single_result, Payload, command, reading_active_scene, Reply, response, raised,
  raised_error, BatchOutcome, success,
}
use ai_dm.Foundry.Executor.Batch.{Session, execute, read}
use ai_dm.Foundry.Executor.Shape.{execute-ended, Completed, Stopped}

-- The world is whether the yard is the active scene, else it is the hall.
abbrev scene_name : Bool → String
scene_name true = "yard"
scene_name false = "hall"

abbrev result_of : Fields → Reply
result_of fs =
    response (object (member "result" (object (member "ok" (boolean true) fs)) empty_object))

-- The scene that is activated is the yard, or the hall, or none that the table knows.
abbrev visit : Bool → Bool → Bool → Bool × Reply
visit true is_hall w = (true, result_of empty_object)
visit false true w = (false, result_of empty_object)
visit false false w = (w, raised "no such scene")

abbrev table : Bool → Payload → String → Option ℕ → Bool × Reply
table w reading_active_scene scope_key timeout = (
  w,
  result_of
      (member "snapshot" (object (member "id" (text (scene_name w)) empty_object)) empty_object),
)
table w (command (activate_scene s)) scope_key timeout = visit (str_eq s "yard") (str_eq s "hall") w
table w _ scope_key timeout = (w, raised "unknown command")

abbrev no_detail : Bool → String
no_detail w = ""

abbrev as_written : List String → List String
as_written names = names

abbrev no_number : String → Option ℤ
no_number s = none

abbrev start : Session Bool
start = record { world = false; registry = init }

abbrev plan : List GameCommand
plan = activate_scene "yard" ∷ activate_scene "yard" ∷ highlight_object "door" ∷ []

abbrev spoiled : BatchOutcome
spoiled = record {
  ok = false;
  results =
      record {
        command = activate_scene "yard";
        response = some (member "ok" (boolean true) empty_object);
        ok = true;
        error = none;
      }
      ∷ record {
        command = activate_scene "yard";
        response = some (member "ok" (boolean true) empty_object);
        ok = true;
        error = none;
      }
      ∷ record {
        command = highlight_object "door";
        response = none;
        ok = false;
        error = some (raised_error "unknown command");
      }
      ∷ [];
  rolled_back =
      record { command = activate_scene "hall"; response = none; ok = true; error = none } ∷ [];
  rollback_errors = [];
}

spoiled-plan :
    execute table no_detail as_written no_number "global" true none start plan
    ≡ (start, success spoiled)
unfolding execute read unwrap_single_result field_of
spoiled-plan = refl

execute-ended_example : Completed [] plan spoiled ⊎ Stopped [] plan spoiled
execute-ended_example =
    execute-ended table no_detail as_written no_number "global" true none start start plan spoiled
      spoiled-plan

abbrev watched : Session (Bool × List GameCommand)
watched = record { world = (false, []); registry = init }

-- After the two visits and the command that the table does not take, the first visit is undone; the second
-- one has no inverse, since the yard was active already.
abbrev watched_end : Session (Bool × List GameCommand)
watched_end = record { world = (false, plan ++ activate_scene "hall" ∷ []); registry = init }
