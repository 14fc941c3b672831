-- ===== src/Foundry/Executor/Sending.antt =====
-- foundry/batch_executor.py: what Foundry receives of an atomic batch that fails, seen in a log of the
-- commands that are sent to it.
use ai_dm.Prelude.{
  ℕ, true, ◌≡◌, refl, ◌∙◌, ap, Option, none, some, List, [], ◌∷◌, ◌++◌, String, map,
}
use mathlib.Core.Logic.{◌⊎◌, inl, inr}
use ai_dm.Prelude.Int.{ℤ}
use ai_dm.Foundry.Commands
use ai_dm.Foundry.Commands.{Fields, GameCommand}
use ai_dm.Foundry.Registry.{Registry}
use ai_dm.Foundry.Executor.{
  Payload, command, Reply, StepError, StepResult, Snapshot, Attempt, success, failure, step_error,
  inverse,
}
use ai_dm.Foundry.Executor.Batch.{
  Session, Success, StepOutcome, done, failed, crashed, read, snapshot, settle, answered, run_step,
}

-- The log after a payload: only commands are noted.
abbrev note : Payload → List GameCommand → List GameCommand
note (command cmd) log = log ++ cmd ∷ []
note _ log = log

-- A world with the log of the commands that it has received.
abbrev pub logged {ℓ} :
    {W : Type ℓ}
    → (W → Payload → String → Option ℕ → W × Reply)
    → W × List GameCommand
    → Payload
    → String
    → Option ℕ
    → (W × List GameCommand) × Reply
logged send w p scope_key timeout =
    let sent = send w.0 p scope_key timeout in ((sent.0, note p w.1), sent.1)

-- The first list back to front, before the second.
abbrev pub latest_first {ℓ} : {A : Type ℓ} → List A → List A → List A
latest_first [] later = later
latest_first (x ∷ xs) later = latest_first xs (x ∷ later)

-- The steps that have an inverse, each command with it.
abbrev pub undo_plan : (String → Option ℤ) → List Success → List (GameCommand × GameCommand)
undo_plan int_of_text [] = []
undo_plan int_of_text (good ∷ goods) =
    let rest = undo_plan int_of_text goods in
    elim (inverse int_of_text good.original good.snap (some good.result)) [
      | success (some inv) ↦ (good.original, inv) ∷ rest
      | _ ↦ rest
    ]

abbrev pub inverses : List (GameCommand × GameCommand) → List GameCommand
inverses plan = map (λ (p : GameCommand × GameCommand). p.1) plan

-- Each entry of the plan is reported once, as rolled back or as an error, in the order of the plan.
abbrev pub Reported :
    List (GameCommand × GameCommand) → List StepResult → List (GameCommand × GameCommand) → Type 0
Reported [] back errors = (back ≡ []) × (errors ≡ [])
Reported (p ∷ plan) back errors =
    ((more : List StepResult) × (back
        ≡ record { command = p.1; response = none; ok = true; error = none } ∷ more)
      × Reported plan more errors)
    ⊎ ((more : List (GameCommand × GameCommand)) × (errors ≡ p ∷ more) × Reported plan back more)

module _ {ℓ} {W : Type ℓ} (send : W → Payload → String → Option ℕ → W × Reply)
    (timeout_detail : W × List GameCommand → String) (ordered : List String → List String)
    (int_of_text : String → Option ℤ) where
  snapshot-log :
      (s : Session (W × List GameCommand)) (cmd : GameCommand) (scope_key : String)
      → (snapshot (logged send) timeout_detail ordered int_of_text s cmd scope_key).0.1 ≡ s.world.1
  unfolding snapshot read
  snapshot-log s (Commands.move_token t x y m) scope_key = refl
  snapshot-log s (Commands.update_actor a p) scope_key = refl
  snapshot-log s (Commands.activate_scene a) scope_key = refl
  snapshot-log s _ scope_key = refl

  answered-world :
      (w : W × List GameCommand) (r : Registry) (cmd : GameCommand) (snap : Option Snapshot)
      (o : Fields ⊎ StepError)
      → (answered (logged send) timeout_detail ordered int_of_text w r cmd snap o).0.world ≡ w
  unfolding answered settle
  answered-world w r cmd snap (inl fields) = refl
  answered-world w r cmd snap (inr err) = refl

  -- A step that is done or has failed has sent its command, and no other.
  abbrev pub Logs :
      List GameCommand → GameCommand → Session (W × List GameCommand) × StepOutcome → Type 0
  Logs log cmd (t, crashed) = Unit
  Logs log cmd (t, _) = t.world.1 ≡ log ++ cmd ∷ []

  Logs-same :
      (log : List GameCommand) (cmd : GameCommand)
      (stepped : Session (W × List GameCommand) × StepOutcome)
      → stepped.0.world.1 ≡ log ++ cmd ∷ []
      → Logs log cmd stepped
  Logs-same log cmd (t, crashed) e = tt
  Logs-same log cmd (t, failed err) e = e
  Logs-same log cmd (t, done good) e = e

  pub run_step-Logs :
      (scope_key : String) (timeout : Option ℕ) (s : Session (W × List GameCommand))
      (cmd : GameCommand)
      → Logs s.world.1 cmd
          (run_step (logged send) timeout_detail ordered int_of_text scope_key timeout s cmd)
  unfolding run_step
  run_step-Logs scope_key timeout s cmd =
      go (snapshot (logged send) timeout_detail ordered int_of_text s cmd scope_key)
        (snapshot-log s cmd scope_key)
    where
      go :
          (shot : (W × List GameCommand) × Attempt (Option Snapshot))
          → shot.0.1 ≡ s.world.1
          → Logs s.world.1 cmd (elim (shot.1) [
            | failure ↦ (record s { world = shot.0 }, crashed)
            | success snap ↦
                let sent = logged send shot.0 (command cmd) scope_key timeout in
                answered
                  (logged send)
                  timeout_detail
                  ordered
                  int_of_text
                  sent.0
                  s.registry
                  cmd
                  snap
                  (step_error (timeout_detail sent.0) sent.1)
          ])
      go (w, failure) same = tt
      go (w, success snap) same =
          let sent = logged send w (command cmd) scope_key timeout in
          Logs-same s.world.1 cmd
            (answered (logged send) timeout_detail ordered int_of_text sent.0 s.registry cmd snap
              (step_error (timeout_detail sent.0) sent.1))
            (ap (λ (v : W × List GameCommand). v.1)
                (answered-world sent.0 s.registry cmd snap
                  (step_error (timeout_detail sent.0) sent.1))
              ∙ ap (λ (log : List GameCommand). log ++ cmd ∷ []) same)
