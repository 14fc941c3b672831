-- ===== src/Foundry/Executor/Batch.antt =====
-- foundry/batch_executor.py: `snapshot`, the loop of `execute` and the rollback.
use ai_dm.Prelude.{
  ℕ, Bool, true, false, not, Option, none, some, List, [], ◌∷◌, ◌++◌, String, str_eq, if◌then◌else◌,
  keep, get_or_default,
}
use mathlib.Core.Logic.{◌⊎◌, inl, inr}
use ai_dm.Prelude.Int.{ℤ}
use ai_dm.Foundry.Commands.{
  Json, object, Fields, empty_object, truthy, field_of, GameCommand, move_token, activate_scene,
  update_actor, create_scene, spawn_token, create_actor, delete_token, delete_actor, delete_scene,
}
use ai_dm.Foundry.Registry.{
  Registry, EntityKind, scene, actor, token, Answer, returned, RegistryEntry,
}
use ai_dm.Foundry.Registry.Calls.{register, unregister, get_entry}
use ai_dm.Foundry.Executor.{
  Payload, command, reading_token, reading_actor, reading_active_scene, Reply, response, StepError,
  StepResult, BatchOutcome, Snapshot, token_at, values, scene_before, nothing_needed, Attempt,
  success, failure, step_error, present, prev_values, or_text, text_or, id_in, inverse,
}

-- The world behind the queue and the registry on this side.
pub record Session {ℓ} (W : Type ℓ) : Type ℓ where
  pub world : W
  pub registry : Registry

-- A step that went well, with what was read before it.
pub record Success : Type 0 where
  pub original : GameCommand
  pub snap : Option Snapshot
  pub result : Fields

pub data StepOutcome : Type 0 where
  done : Success → StepOutcome
  failed : StepError → StepOutcome
  crashed : StepOutcome

abbrev snapshot_field : Fields ⊎ StepError → Option Json
snapshot_field (inl fields) = present (field_of "snapshot" fields)
snapshot_field (inr err) = none

-- `entry.scene_id if entry else None`
abbrev scene_of_entry : Option RegistryEntry → Option String
scene_of_entry none = none
scene_of_entry (some entry) = entry.scene_id

-- The values of the patch before it.
abbrev values_before : Fields → Option Json → Option Snapshot
values_before patch none = some (values empty_object)
values_before patch (some snap) =
    some (values (if truthy snap then prev_values snap patch else empty_object))

abbrev id_before : Option Json → Attempt (Option Snapshot)
id_before none = success (some (scene_before none))
id_before (some (object fields)) = success (some (scene_before (present (field_of "id" fields))))
id_before (some j) = if truthy j then failure else success (some (scene_before none))

-- What the registration after a step returned is dropped, and its errors leave `execute`.
abbrev registered : Registry × Answer RegistryEntry → Registry × Bool
registered (r, returned entry) = (r, true)
registered (r, _) = (r, false)

abbrev name_in : String → Fields → String → Attempt String
name_in key result name = elim (id_in key result) [
  | failure ↦ failure
  | success o ↦ success (get_or_default name o)
]

module _ (ordered : List String → List String) where
  -- An id or a name that is no text fails before anything is entered; in the source the name is entered
  -- with its id first.
  abbrev register_named :
      EntityKind
      → Attempt (Option String)
      → Attempt String
      → List String
      → Registry
      → Registry × Bool
  register_named kind (success none) name aliases r = (r, true)
  register_named kind (success (some id)) (success name) aliases r =
      registered (register ordered kind id name aliases none r)
  register_named kind _ _ aliases r = (r, false)

  abbrev register_token :
      Attempt (Option String) → Option String → String → Registry → Registry × Bool
  register_token (success none) name scene_id r = (r, true)
  register_token (success (some id)) name scene_id r = registered (
      register ordered token id (text_or name id)
        (if str_eq (get_or_default "" name) "" then [] else get_or_default "" name ∷ [])
        (some scene_id) r)
  register_token failure name scene_id r = (r, false)

  -- `_update_registry_after_success`
  unfoldable pub update_after_success : GameCommand → Fields → Registry → Registry × Bool
  update_after_success (create_scene name width height grid) result r =
      register_named scene (id_in "sceneId" result) (name_in "sceneName" result name) (name ∷ []) r
  update_after_success (create_actor name actor_type system img items aliases) result r =
      register_named actor (id_in "actorId" result) (name_in "actorName" result name)
        (name ∷ keep (λ a. not (str_eq a "")) aliases) r
  update_after_success (spawn_token scene_id actor_id x y name) result r =
      register_token (id_in "tokenId" result) name scene_id r
  update_after_success _ result r = (r, true)

-- `_update_registry_after_rollback`
unfoldable pub update_after_rollback : GameCommand → Registry → Registry
update_after_rollback (delete_scene scene_id) r = (unregister scene scene_id r).0
update_after_rollback (delete_actor actor_id) r = (unregister actor actor_id r).0
update_after_rollback (delete_token scene_id token_id) r = (unregister token token_id r).0
update_after_rollback _ r = r

abbrev pub fail_result : GameCommand → StepError → StepResult
fail_result cmd err = record { command = cmd; response = none; ok = false; error = some err }

abbrev pub ok_result : Success → StepResult
ok_result good = record {
  command = good.original;
  response = some good.result;
  ok = true;
  error = none;
}

abbrev pub new_outcome : BatchOutcome
new_outcome = record { ok = true; results = []; rolled_back = []; rollback_errors = [] }

-- `send` puts a payload into the queue under a scope, with a timeout, and waits for what comes of it.
module _ {ℓ} {W : Type ℓ} (send : W → Payload → String → Option ℕ → W × Reply)
    (timeout_detail : W → String) (ordered : List String → List String)
    (int_of_text : String → Option ℤ) where
  -- `_read`: any exception gives None.
  unfoldable pub read : W → Payload → String → W × Option Json
  read w payload scope_key =
      let sent = send w payload scope_key none in (sent.0, snapshot_field (step_error "" sent.1))

  -- `snapshot`
  unfoldable pub snapshot : Session W → GameCommand → String → W × Attempt (Option Snapshot)
  unfolding read
  snapshot s (move_token token_id x y scene_id) scope_key =
      let place = or_text scene_id (scene_of_entry (get_entry token token_id s.registry)) in
      let snap = read s.world (reading_token place token_id) scope_key in
      (snap.0, success (some (token_at snap.1 place)))
  snapshot s (update_actor actor_id patch) scope_key =
      let snap = read s.world (reading_actor actor_id) scope_key in
      (snap.0, success (values_before patch snap.1))
  snapshot s (activate_scene scene_id) scope_key =
      let snap = read s.world reading_active_scene scope_key in (snap.0, id_before snap.1)
  snapshot s (spawn_token scene_id actor_id x y name) scope_key =
      (s.world, success (some nothing_needed))
  snapshot s (create_actor name actor_type system img items aliases) scope_key =
      (s.world, success (some nothing_needed))
  snapshot s (create_scene name width height grid) scope_key =
      (s.world, success (some nothing_needed))
  snapshot s _ scope_key = (s.world, success none)

  -- The registration after a command that went well.
  unfoldable pub settle : W → Registry → Success → Session W × StepOutcome
  unfolding update_after_success
  settle w r good =
      let updated = update_after_success ordered good.original good.result r in
      (record { world = w; registry = updated.0 }, if updated.1 then done good else crashed)

  unfoldable pub answered :
      W → Registry → GameCommand → Option Snapshot → Fields ⊎ StepError → Session W × StepOutcome
  unfolding settle
  answered w r cmd snap (inl fields) =
      settle w r (record { original = cmd; snap = snap; result = fields })
  answered w r cmd snap (inr err) = (record { world = w; registry = r }, failed err)

  -- One round of the loop: the snapshot, the command, and what it answers.
  unfoldable pub run_step : String → Option ℕ → Session W → GameCommand → Session W × StepOutcome
  unfolding snapshot answered
  run_step scope_key timeout s cmd =
      let shot = snapshot s cmd scope_key in
      elim (shot.1) [
        | failure ↦ (record s { world = shot.0 }, crashed)
        | success snap ↦
            let sent = send shot.0 (command cmd) scope_key timeout in
            answered sent.0 s.registry cmd snap (step_error (timeout_detail sent.0) sent.1)
      ]

  -- The answer to an inverse is not looked at, only whether there is one.
  unfoldable pub note_undone :
      Session W → BatchOutcome → GameCommand → GameCommand → W × Reply → Session W × BatchOutcome
  unfolding update_after_rollback
  note_undone s out original inv (w, response r) = (
    record { world = w; registry = update_after_rollback inv s.registry },
    record out {
      rolled_back =
          out.rolled_back
          ++ record { command = inv; response = none; ok = true; error = none } ∷ [];
    },
  )
  note_undone s out original inv (w, _) = (
    record s { world = w },
    record out { rollback_errors = out.rollback_errors ++ (original, inv) ∷ [] },
  )

  -- `_rollback`, of the steps that went well, latest first.
  unfoldable pub rollback :
      Session W → BatchOutcome → List Success → Session W × Attempt BatchOutcome
  unfolding note_undone inverse
  rollback s out [] = (s, success out)
  rollback s out (good ∷ rest) =
      elim (inverse int_of_text good.original good.snap (some good.result)) [
        | failure ↦ (s, failure)
        | success none ↦ rollback s out rest
        | success (some inv) ↦
            let noted =
              note_undone s out good.original inv (send s.world (command inv) "global" none) in
            rollback noted.0 noted.1 rest
      ]

  -- The two handlers of exceptions.
  unfoldable pub give_up :
      Bool
      → Session W
      → BatchOutcome
      → List Success
      → GameCommand
      → StepError
      → Session W × Attempt BatchOutcome
  unfolding rollback
  give_up atomic s out successes cmd err =
      let out_failed = record out {
        ok = false;
        results = out.results ++ fail_result cmd err ∷ [];
      } in
      if atomic then rollback s out_failed successes else (s, success out_failed)

  -- The loop of `execute`; `successes` has the latest first.
  unfoldable pub execute_from :
      String
      → Bool
      → Option ℕ
      → Session W
      → BatchOutcome
      → List Success
      → List GameCommand
      → Session W × Attempt BatchOutcome
  unfolding run_step give_up
  execute_from scope_key atomic timeout s out successes [] = (s, success out)
  execute_from scope_key atomic timeout s out successes (cmd ∷ cmds) =
      let stepped = run_step scope_key timeout s cmd in
      elim (stepped.1) [
        | crashed ↦ (stepped.0, failure)
        | failed err ↦ give_up atomic stepped.0 out successes cmd err
        | done good ↦
            execute_from scope_key atomic timeout stepped.0
              (record out { results = out.results ++ ok_result good ∷ [] }) (good ∷ successes) cmds
      ]

  unfoldable pub execute :
      String → Bool → Option ℕ → Session W → List GameCommand → Session W × Attempt BatchOutcome
  unfolding execute_from
  execute scope_key atomic timeout s cmds =
      execute_from scope_key atomic timeout s new_outcome [] cmds
