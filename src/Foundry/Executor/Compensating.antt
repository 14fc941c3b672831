-- ===== src/Foundry/Executor/Compensating.antt =====
-- foundry/batch_executor.py: what the rollback of a batch sends and reports.
use ai_dm.Prelude.{
  ℕ, true, ◌≡◌, refl, sym, ◌∙◌, Option, none, some, List, [], ◌∷◌, ◌++◌, String, append_assoc,
  append_nil,
}
use mathlib.Core.Logic.{inl, inr}
use ai_dm.Prelude.Int.{ℤ}
use ai_dm.Foundry.Commands.{GameCommand}
use ai_dm.Foundry.Executor.{
  Payload, command, Reply, response, timed_out, raised, StepResult, BatchOutcome, Attempt, success,
  failure, inverse,
}
use ai_dm.Foundry.Executor.Shape.{Then, Then-map}
use ai_dm.Foundry.Executor.Batch.{Session, Success, note_undone, rollback}
use ai_dm.Foundry.Executor.Sending.{logged, undo_plan, inverses, Reported}

-- What a rollback adds to an outcome and to the log of commands.
abbrev pub Adds :
    List GameCommand
    → BatchOutcome
    → List (GameCommand × GameCommand)
    → List GameCommand
    → BatchOutcome
    → Type 0
Adds log out plan log' o =
    (back : List StepResult) × (errors : List (GameCommand × GameCommand)) × (o.rolled_back
      ≡ out.rolled_back ++ back)
    × (o.rollback_errors ≡ out.rollback_errors ++ errors)
    × (o.ok ≡ out.ok)
    × (o.results ≡ out.results)
    × Reported plan back errors
    × (log' ≡ log ++ inverses plan)

one_more {κ} :
    {A : Type κ} (xs more : List A) (x : A) (ys : List A)
    → ys ≡ (xs ++ x ∷ []) ++ more
    → ys ≡ xs ++ x ∷ more
one_more xs more x ys e = e ∙ append_assoc xs (x ∷ []) more

module _ (log log' : List GameCommand) (out o : BatchOutcome)
    (plan : List (GameCommand × GameCommand)) (original inv : GameCommand) where
  Adds-back :
      Adds
        (log ++ inv ∷ [])
        (record out {
          rolled_back =
              out.rolled_back
              ++ record { command = inv; response = none; ok = true; error = none } ∷ [];
        })
        plan
        log'
        o
      → Adds log out ((original, inv) ∷ plan) log' o
  Adds-back (back, errors, b, e, ok, results, told, l) = (
    record { command = inv; response = none; ok = true; error = none } ∷ back,
    errors,
    one_more out.rolled_back back _ o.rolled_back b,
    e,
    ok,
    results,
    inl (back, refl, told),
    one_more log (inverses plan) inv log' l,
  )

  Adds-error :
      Adds
        (log ++ inv ∷ [])
        (record out { rollback_errors = out.rollback_errors ++ (original, inv) ∷ [] })
        plan
        log'
        o
      → Adds log out ((original, inv) ∷ plan) log' o
  Adds-error (back, errors, b, e, ok, results, told, l) = (
    back,
    (original, inv) ∷ errors,
    b,
    one_more out.rollback_errors errors (original, inv) o.rollback_errors e,
    ok,
    results,
    inr (errors, refl, told),
    one_more log (inverses plan) inv log' l,
  )

module _ {ℓ} {W : Type ℓ} (send : W → Payload → String → Option ℕ → W × Reply)
    (timeout_detail : W × List GameCommand → String) (ordered : List String → List String)
    (int_of_text : String → Option ℤ) where
  abbrev pub RolledBack :
      List GameCommand
      → BatchOutcome
      → List (GameCommand × GameCommand)
      → Session (W × List GameCommand) × Attempt BatchOutcome
      → Type 0
  RolledBack log out plan end = Then (Adds log out plan end.0.world.1) end.1

  noted-RolledBack :
      (s : Session (W × List GameCommand)) (out : BatchOutcome) (goods : List Success)
      (original inv : GameCommand) (w : W) (reply : Reply)
      → ((t : Session (W × List GameCommand)) (o : BatchOutcome)
          → RolledBack t.world.1 o
              (undo_plan int_of_text goods)
              (rollback (logged send) timeout_detail ordered int_of_text t o goods))
      → let noted =
          note_undone
            (logged send)
            timeout_detail
            ordered
            int_of_text
            s
            out
            original
            inv
            ((w, s.world.1 ++ inv ∷ []), reply) in
        RolledBack s.world.1 out
          ((original, inv) ∷ undo_plan int_of_text goods)
          (rollback (logged send) timeout_detail ordered int_of_text noted.0 noted.1 goods)
  unfolding note_undone
  noted-RolledBack s out goods original inv w reply rec = go reply (
      rec
        (note_undone (logged send) timeout_detail ordered int_of_text s out original inv
          ((w, s.world.1 ++ inv ∷ []), reply)).0
        (note_undone (logged send) timeout_detail ordered int_of_text s out original inv
          ((w, s.world.1 ++ inv ∷ []), reply)).1)
    where
      plan : List (GameCommand × GameCommand)
      plan = undo_plan int_of_text goods

      noted : Reply → Session (W × List GameCommand) × BatchOutcome
      noted r =
          note_undone (logged send) timeout_detail ordered int_of_text s out original inv
            ((w, s.world.1 ++ inv ∷ []), r)

      ended : Reply → Session (W × List GameCommand) × Attempt BatchOutcome
      ended r =
          rollback (logged send) timeout_detail ordered int_of_text (noted r).0 (noted r).1 goods

      go :
          (r : Reply)
          → RolledBack (noted r).0.world.1 (noted r).1 plan (ended r)
          → RolledBack s.world.1 out ((original, inv) ∷ plan) (ended r)
      go (response x) h =
          Then-map _ _ (ended (response x)).1
            (λ o. Adds-back s.world.1 (ended (response x)).0.world.1 out o plan original inv) h
      go (timed_out x) h =
          Then-map _ _ (ended (timed_out x)).1
            (λ o. Adds-error s.world.1 (ended (timed_out x)).0.world.1 out o plan original inv) h
      go (raised x) h =
          Then-map _ _ (ended (raised x)).1
            (λ o. Adds-error s.world.1 (ended (raised x)).0.world.1 out o plan original inv) h

  pub rollback-RolledBack :
      (s : Session (W × List GameCommand)) (out : BatchOutcome) (goods : List Success)
      → RolledBack s.world.1 out
          (undo_plan int_of_text goods)
          (rollback (logged send) timeout_detail ordered int_of_text s out goods)
  unfolding rollback
  rollback-RolledBack s out [] = (
    [],
    [],
    sym (append_nil out.rolled_back),
    sym (append_nil out.rollback_errors),
    refl,
    refl,
    (refl, refl),
    sym (append_nil s.world.1),
  )
  rollback-RolledBack s out (good ∷ rest) =
      go (inverse int_of_text good.original good.snap (some good.result))
        (λ t o. rollback-RolledBack t o rest)
    where
      go :
          (a : Attempt (Option GameCommand))
          → ((t : Session (W × List GameCommand)) (o : BatchOutcome)
              → RolledBack t.world.1 o
                  (undo_plan int_of_text rest)
                  (rollback (logged send) timeout_detail ordered int_of_text t o rest))
          → let plan : List (GameCommand × GameCommand) = elim a [
            | success (some inv) ↦ (good.original, inv) ∷ undo_plan int_of_text rest
            | _ ↦ undo_plan int_of_text rest
          ] in
            let end : Session (W × List GameCommand) × Attempt BatchOutcome = elim a [
              | failure ↦ (s, failure)
              | success none ↦ rollback (logged send) timeout_detail ordered int_of_text s out rest
              | success (some inv) ↦
                  let noted =
                    note_undone
                      (logged send)
                      timeout_detail
                      ordered
                      int_of_text
                      s
                      out
                      good.original
                      inv
                      (logged send s.world (command inv) "global" none) in
                  rollback (logged send) timeout_detail ordered int_of_text noted.0 noted.1 rest
            ] in
            RolledBack s.world.1 out plan end
      go failure rec = tt
      go (success none) rec = rec s out
      go (success (some inv)) rec =
          noted-RolledBack s out rest good.original inv
            (send s.world.0 (command inv) "global" none).0
            (send s.world.0 (command inv) "global" none).1 rec
