-- ===== src/Foundry/Executor/Atomic.antt =====
-- foundry/batch_executor.py: the whole course of an atomic batch that fails.
use ai_dm.Prelude.{ℕ, false, ◌≡◌, Option, List, [], ◌∷◌, ◌++◌, String, map}
use ai_dm.Prelude.Int.{ℤ}
use ai_dm.Foundry.Commands.{GameCommand}
use ai_dm.Foundry.Executor.{Payload, Reply, StepError, StepResult, BatchOutcome, Attempt}
use ai_dm.Foundry.Executor.Shape.{Then}
use ai_dm.Foundry.Executor.Batch.{Session, Success, done, failed, run_step, fail_result, ok_result}
use ai_dm.Foundry.Executor.Sending.{logged, latest_first, undo_plan, inverses, Reported}

module _ {ℓ} {W : Type ℓ} (send : W → Payload → String → Option ℕ → W × Reply)
    (timeout_detail : W × List GameCommand → String) (ordered : List String → List String)
    (int_of_text : String → Option ℤ) (scope_key : String) (timeout : Option ℕ) where
  -- One step after the other goes well.
  abbrev pub Ran :
      Session (W × List GameCommand)
      → List GameCommand
      → List Success
      → Session (W × List GameCommand)
      → Type ℓ
  Ran s [] [] u = s ≡ u
  Ran s (cmd ∷ cmds) (good ∷ goods) u =
      (t : Session (W × List GameCommand)) × (run_step (logged send) timeout_detail ordered
          int_of_text scope_key timeout s cmd
        ≡ (t, done good))
      × Ran t cmds goods u
  Ran s _ _ u = (s ≡ u) × ⊥

  -- The commands before one went well, this one failed, and those after it were not run. Foundry has
  -- received the first, the one that failed, and then the inverses of the first from the latest on, each
  -- made from what was read and answered in its step; the outcome reports each inverse once.
  pub record Compensated (s : Session (W × List GameCommand)) (earlier : List Success)
      (results : List StepResult) (cmds : List GameCommand) (log : List GameCommand)
      (out : BatchOutcome) : Type ℓ where
    pub before : List GameCommand
    pub bad : GameCommand
    pub rest : List GameCommand
    pub goods : List Success
    pub reached : Session (W × List GameCommand)
    pub stopped : Session (W × List GameCommand)
    pub err : StepError
    pub parts : cmds ≡ before ++ bad ∷ rest
    pub ran : Ran s before goods reached
    pub fails :
        run_step (logged send) timeout_detail ordered int_of_text scope_key timeout reached bad
        ≡ (stopped, failed err)
    pub told : out.results ≡ results ++ (map ok_result goods ++ fail_result bad err ∷ [])
    pub received :
        log
        ≡ s.world.1
          ++ (before ++ bad ∷ inverses (undo_plan int_of_text (latest_first goods earlier)))
    pub reported :
        Reported
          (undo_plan int_of_text (latest_first goods earlier))
          out.rolled_back
          out.rollback_errors

  abbrev Compensates :
      Session (W × List GameCommand)
      → List Success
      → List StepResult
      → List GameCommand
      → Session (W × List GameCommand) × Attempt BatchOutcome
      → Type ℓ
  Compensates s earlier results cmds end =
      Then (λ (o : BatchOutcome). o.ok ≡ false → Compensated s earlier results cmds end.0.world.1 o)
        end.1
