-- ===== src/Foundry/Executor/Shape.antt =====
-- foundry/batch_executor.py: what the results of a batch say of its commands.
use ai_dm.Prelude.{
  ℕ, Bool, true, false, ◌≡◌, refl, sym, ◌∙◌, ap, Option, none, some, List, [], ◌∷◌, ◌++◌, String,
  if-cases, map, append_assoc, append_nil, All,
}
use mathlib.Core.Logic.{◌⊎◌, inl, inr}
use mathlib.Core.Path.{subst}
use ai_dm.Prelude.Int.{ℤ}
use ai_dm.Foundry.Registry.{Registry}
use ai_dm.Foundry.Commands.{Fields, GameCommand}
use ai_dm.Foundry.Executor.{
  Payload, command, Reply, response, timed_out, raised, StepError, StepResult, BatchOutcome,
  Snapshot, Attempt, success, failure, step_error, inverse,
}
use ai_dm.Foundry.Executor.Batch.{
  Session, Success, StepOutcome, done, failed, crashed, snapshot, settle, answered, run_step,
  note_undone, rollback, give_up, execute_from, execute, new_outcome, update_after_success,
  fail_result, ok_result,
}

-- What holds of a value where there is one.
abbrev pub Then {ℓ κ} : {A : Type ℓ} → (A → Type κ) → Attempt A → Type κ
Then P (success a) = P a
Then P failure = Unit

pub Then-map {ℓ κ μ} :
    {A : Type ℓ} (P : A → Type κ) (Q : A → Type μ) (a : Attempt A)
    → ((x : A) → P x → Q x)
    → Then P a
    → Then Q a
Then-map P Q (success x) f h = f x h
Then-map P Q failure f h = tt

module _ {ℓ} {W : Type ℓ} (send : W → Payload → String → Option ℕ → W × Reply)
    (timeout_detail : W → String) (ordered : List String → List String)
    (int_of_text : String → Option ℤ) where
  -- The rollback leaves the results and the flag as they are.
  abbrev pub SameResults : BatchOutcome → BatchOutcome → Type 0
  SameResults out o = (o.ok ≡ out.ok) × (o.results ≡ out.results)

  noted-SameResults :
      (s : Session W) (out : BatchOutcome) (original inv : GameCommand) (sent : W × Reply)
      → SameResults out
          (note_undone send timeout_detail ordered int_of_text s out original inv sent).1
  unfolding note_undone
  noted-SameResults s out original inv (w, response r) = (refl, refl)
  noted-SameResults s out original inv (w, timed_out m) = (refl, refl)
  noted-SameResults s out original inv (w, raised m) = (refl, refl)

  pub rollback-results :
      (s : Session W) (out : BatchOutcome) (goods : List Success)
      → Then (SameResults out) (rollback send timeout_detail ordered int_of_text s out goods).1
  unfolding rollback
  rollback-results s out [] = (refl, refl)
  rollback-results s out (good ∷ rest) =
      go (inverse int_of_text good.original good.snap (some good.result))
        (λ t o. rollback-results t o rest)
    where
      go :
          (a : Attempt (Option GameCommand))
          → ((t : Session W) (o : BatchOutcome)
              → Then (SameResults o) (rollback send timeout_detail ordered int_of_text t o rest).1)
          → let back : Session W × Attempt BatchOutcome = elim a [
            | failure ↦ (s, failure)
            | success none ↦ rollback send timeout_detail ordered int_of_text s out rest
            | success (some inv) ↦
                let noted =
                  note_undone send timeout_detail ordered int_of_text s out good.original inv
                    (send s.world (command inv) "global" none) in
                rollback send timeout_detail ordered int_of_text noted.0 noted.1 rest
          ] in
            Then (SameResults out) back.1
      go failure rec = tt
      go (success none) rec = rec s out
      go (success (some inv)) rec =
          let sent = send s.world (command inv) "global" none in
          let noted =
            note_undone send timeout_detail ordered int_of_text s out good.original inv sent in
          let same = noted-SameResults s out good.original inv sent in
          Then-map (SameResults noted.1) (SameResults out) _ (λ o h. (h.0 ∙ same.0, h.1 ∙ same.1))
            (rec noted.0 noted.1)

-- Each step went well.
abbrev pub AllOk : List StepResult → Type 0
AllOk results = All (λ (r : StepResult). r.ok ≡ true) results

abbrev pub commands_of : List StepResult → List GameCommand
commands_of results = map (λ (r : StepResult). r.command) results

-- The batch went through: all commands have a result, in their order, and nothing was rolled back.
abbrev pub Completed : List StepResult → List GameCommand → BatchOutcome → Type 0
Completed before cmds out =
    (more : List StepResult) × (out.ok ≡ true)
    × (out.results ≡ before ++ more)
    × AllOk more
    × (commands_of more ≡ cmds)
    × (out.rolled_back ≡ [])

-- The batch stopped at a command: those before it went well, and those after it have no result.
abbrev pub Stopped : List StepResult → List GameCommand → BatchOutcome → Type 0
Stopped before cmds out =
    (more : List StepResult) × (bad : StepResult) × (rest : List GameCommand) × (out.ok ≡ false)
    × (out.results ≡ before ++ (more ++ bad ∷ []))
    × AllOk more
    × (bad.ok ≡ false)
    × (commands_of more ++ bad.command ∷ rest ≡ cmds)

abbrev Ended : List StepResult → List GameCommand → BatchOutcome → Type 0
Ended before cmds out = Completed before cmds out ⊎ Stopped before cmds out

-- One more result in front.
Ended-cons :
    (before : List StepResult) (r : StepResult) (cmds : List GameCommand) (out : BatchOutcome)
    → r.ok ≡ true
    → Ended (before ++ r ∷ []) cmds out
    → Ended before (r.command ∷ cmds) out
Ended-cons before r cmds out good (inl (more, ok, same, all, cs, none_back)) = inl (
  r ∷ more,
  ok,
  same ∙ append_assoc before (r ∷ []) more,
  (good, all),
  ap (λ (t : List GameCommand). r.command ∷ t) cs,
  none_back,
)
Ended-cons before r cmds out good (inr (more, bad, rest, ok, same, all, fails, cs)) = inr (
  r ∷ more,
  bad,
  rest,
  ok,
  same ∙ append_assoc before (r ∷ []) (more ++ bad ∷ []),
  (good, all),
  fails,
  ap (λ (t : List GameCommand). r.command ∷ t) cs,
)

-- A step that goes on has the result of its command.
abbrev KeepsCommand : GameCommand → StepOutcome → Type 0
KeepsCommand cmd (done good) = good.original ≡ cmd
KeepsCommand cmd _ = Unit

module _ {ℓ} {W : Type ℓ} (send : W → Payload → String → Option ℕ → W × Reply)
    (timeout_detail : W → String) (ordered : List String → List String)
    (int_of_text : String → Option ℤ) where
  answered-KeepsCommand :
      (w : W) (r : Registry) (cmd : GameCommand) (snap : Option Snapshot) (o : Fields ⊎ StepError)
      → KeepsCommand cmd (answered send timeout_detail ordered int_of_text w r cmd snap o).1
  unfolding answered settle
  answered-KeepsCommand w r cmd snap (inl result) =
      if-cases (KeepsCommand cmd) (update_after_success ordered cmd result r).1 (λ e. refl)
        (λ e. tt)
  answered-KeepsCommand w r cmd snap (inr err) = tt

  run_step-KeepsCommand :
      (scope_key : String) (timeout : Option ℕ) (s : Session W) (cmd : GameCommand)
      → KeepsCommand cmd
          (run_step send timeout_detail ordered int_of_text scope_key timeout s cmd).1
  unfolding run_step
  run_step-KeepsCommand scope_key timeout s cmd =
      go (snapshot send timeout_detail ordered int_of_text s cmd scope_key)
    where
      go :
          (shot : W × Attempt (Option Snapshot))
          → let stepped : Session W × StepOutcome = elim (shot.1) [
            | failure ↦ (record s { world = shot.0 }, crashed)
            | success snap ↦
                let sent = send shot.0 (command cmd) scope_key timeout in
                answered send timeout_detail ordered int_of_text sent.0 s.registry cmd snap
                  (step_error (timeout_detail sent.0) sent.1)
          ] in
            KeepsCommand cmd stepped.1
      go (w, failure) = tt
      go (w, success snap) = answered-KeepsCommand _ s.registry cmd snap _

  give_up-Ended :
      (atomic : Bool) (s : Session W) (out : BatchOutcome) (goods : List Success)
      (cmd : GameCommand) (cmds : List GameCommand) (err : StepError)
      → Then
          (Ended out.results (cmd ∷ cmds))
          (give_up send timeout_detail ordered int_of_text atomic s out goods cmd err).1
  unfolding give_up
  give_up-Ended true s out goods cmd cmds err =
      let out_failed : BatchOutcome = record out {
        ok = false;
        results = out.results ++ fail_result cmd err ∷ [];
      } in
      Then-map _ _ (rollback send timeout_detail ordered int_of_text s out_failed goods).1
        (λ o h. inr ([], fail_result cmd err, cmds, h.0, h.1, tt, refl, refl))
        (rollback-results send timeout_detail ordered int_of_text s out_failed goods)
  give_up-Ended false s out goods cmd cmds err =
      inr ([], fail_result cmd err, cmds, refl, refl, tt, refl, refl)

  execute_from-Ended :
      (scope_key : String) (atomic : Bool) (timeout : Option ℕ) (s : Session W) (out : BatchOutcome)
      (goods : List Success) (cmds : List GameCommand)
      → out.ok ≡ true
      → out.rolled_back ≡ []
      → Then
          (Ended out.results cmds)
          (execute_from send timeout_detail ordered int_of_text scope_key atomic timeout s out goods
            cmds).1
  unfolding execute_from
  execute_from-Ended scope_key atomic timeout s out goods [] fine clean =
      inl ([], fine, sym (append_nil out.results), tt, refl, clean)
  execute_from-Ended scope_key atomic timeout s out goods (cmd ∷ cmds) fine clean =
      go (run_step send timeout_detail ordered int_of_text scope_key timeout s cmd)
        (run_step-KeepsCommand scope_key timeout s cmd)
        (λ t o gs. execute_from-Ended scope_key atomic timeout t o gs cmds)
    where
      go :
          (stepped : Session W × StepOutcome)
          → KeepsCommand cmd stepped.1
          → ((t : Session W) (o : BatchOutcome) (gs : List Success)
              → o.ok ≡ true
              → o.rolled_back ≡ []
              → Then
                  (Ended o.results cmds)
                  (execute_from send timeout_detail ordered int_of_text scope_key atomic timeout t o
                    gs cmds).1)
          → let ran : Session W × Attempt BatchOutcome = elim (stepped.1) [
            | crashed ↦ (stepped.0, failure)
            | failed err ↦
                give_up send timeout_detail ordered int_of_text atomic stepped.0 out goods cmd err
            | done good ↦
                execute_from send timeout_detail ordered int_of_text scope_key atomic timeout
                  stepped.0
                  (record out { results = out.results ++ ok_result good ∷ [] })
                  (good ∷ goods)
                  cmds
          ] in
            Then (Ended out.results (cmd ∷ cmds)) ran.1
      go (t, crashed) same rec = tt
      go (t, failed err) same rec = give_up-Ended atomic t out goods cmd cmds err
      go (t, done good) same rec =
          let out_more : BatchOutcome = record out {
            results = out.results ++ ok_result good ∷ [];
          } in
          subst
            (λ (c : GameCommand).
              Then (Ended out.results (c ∷ cmds))
                (execute_from send timeout_detail ordered int_of_text scope_key atomic timeout t
                  out_more (good ∷ goods) cmds).1)
            same
            (Then-map _ _ _ (λ o h. Ended-cons out.results (ok_result good) cmds o refl h)
              (rec t out_more (good ∷ goods) fine clean))

  -- A batch that returns either went through, with a good result for each command in its order and
  -- nothing rolled back, or stopped at a command: then the commands before it have a good result, it has a
  -- bad one, and those after it were not run.
  pub execute-ended :
      (scope_key : String) (atomic : Bool) (timeout : Option ℕ) (s t : Session W)
      (cmds : List GameCommand) (out : BatchOutcome)
      → execute send timeout_detail ordered int_of_text scope_key atomic timeout s cmds
        ≡ (t, success out)
      → Completed [] cmds out ⊎ Stopped [] cmds out
  unfolding execute
  execute-ended scope_key atomic timeout s t cmds out returns =
      subst (λ (x : Session W × Attempt BatchOutcome). Then (Ended [] cmds) x.1) returns
        (execute_from-Ended scope_key atomic timeout s new_outcome [] cmds refl refl)
