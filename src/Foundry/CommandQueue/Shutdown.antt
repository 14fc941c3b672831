-- ===== src/Foundry/CommandQueue/Shutdown.antt =====
-- foundry/command_queue.py: what `shutdown` does to the futures that are still owed.
use ai_dm.Prelude.{
  ℕ, true, false, Bool-cases, inl, inr, ◌≡◌, refl, sym, ◌∙◌, ap, Option, none, some, List, [], ◌∷◌,
  String, arith, str_eq, eq_iff, append_nil, get_or_default,
}
use mathlib.Core.Path.{subst}
use ai_dm.Prelude.Dict.{get, string_key}
use ai_dm.Foundry.CommandQueue.{
  QueuedItem, Worker, testing, waiting, stopped, running, Lane, new_lane, CommandQueue, Outcome,
  Event, submitting, submitting_batch, working, shutting_down, step, run, enqueue, submit,
  submit_batch, shut_down, work, worker_step, Reply, outcome_of, resolve, is_late, move_worker,
  take_front, timed_out,
}
use ai_dm.Foundry.CommandQueue.Lanes.{
  lane_at, run-keeps, concerns, step_elsewhere, futures_of, futures_of-append, ticket,
}
use ai_dm.Foundry.CommandQueue.Workers.{work-shut}

enqueue-shut_down :
    (q : CommandQueue) (now : ℕ) (k label : String) (timeout : ℕ)
    → q.shut ≡ true
    → enqueue q now k label timeout ≡ (q, shut_down)
unfolding enqueue
enqueue-shut_down q now k label timeout h = ground (arith, h)

-- A queue that is shut down refuses every command and is left as it is.
pub submit-shut_down :
    (q : CommandQueue) (now : ℕ) (kind : Option String) (k : String) (timeout : Option ℕ)
    → q.shut ≡ true
    → submit q now kind k timeout ≡ (q, shut_down)
unfolding submit
submit-shut_down q now kind k timeout h = enqueue-shut_down q now k _ _ h

-- A queue that is shut down, where the worker of the scope has returned and `items` wait in its lane.
abbrev pub HasStopped : String → List QueuedItem → CommandQueue → Type 0
HasStopped s items q =
    (q.shut ≡ true) × (lane_at q.lanes s ≡ record { pending = items; worker = stopped })

stopped_work :
    (q : CommandQueue) (now : ℕ) (k : String) (reply : Reply) (o : Option Lane)
    (items : List QueuedItem)
    → get_or_default new_lane o ≡ record { pending = items; worker = stopped }
    → work q now k reply o ≡ q
unfolding work worker_step
stopped_work q now k reply none items h = cc
stopped_work q now k reply (some lane) items h =
    ap (λ (l : Lane). worker_step q now k (outcome_of reply) l.pending l.worker) h

resolve_elsewhere :
    (q : CommandQueue) (k s : String) (item : QueuedItem) (o : Outcome) (lane : Lane)
    → str_eq k s ≡ false
    → futures_of s (resolve q k item o lane).resolved ≡ futures_of s q.resolved
unfolding resolve futures_of
resolve_elsewhere q k s item o lane other = ground (
  arith,
  futures_of-append s q.resolved (ticket k item.future),
  other,
  append_nil (futures_of s q.resolved),
)

worker_step_elsewhere :
    (q : CommandQueue) (now : ℕ) (k : String) (reply : Outcome) (items : List QueuedItem)
    (w : Worker) (s : String)
    → str_eq k s ≡ false
    → futures_of s (worker_step q now k reply items w).resolved ≡ futures_of s q.resolved
unfolding worker_step move_worker take_front
worker_step_elsewhere q now k reply items testing s other = refl
worker_step_elsewhere q now k reply [] waiting s other = refl
worker_step_elsewhere q now k reply (item ∷ rest) waiting s other =
    elim (Bool-cases (is_late now item.deadline)) [
      | inl e ↦ rw e (
          resolve_elsewhere q k s item timed_out (record { pending = rest; worker = testing })
            other)
      | inr e ↦ rw e refl
    ]
worker_step_elsewhere q now k reply items (running item) s other =
    resolve_elsewhere q k s item reply (record { pending = items; worker = testing }) other
worker_step_elsewhere q now k reply items stopped s other = refl

work_elsewhere :
    (q : CommandQueue) (now : ℕ) (k : String) (reply : Reply) (o : Option Lane) (s : String)
    → str_eq k s ≡ false
    → futures_of s (work q now k reply o).resolved ≡ futures_of s q.resolved
unfolding work
work_elsewhere q now k reply none s other = refl
work_elsewhere q now k reply (some lane) s other =
    worker_step_elsewhere q now k (outcome_of reply) lane.pending lane.worker s other

-- The scope's lane and its resolved futures stay as they are.
abbrev pub Abandons : String → List QueuedItem → List ℕ → CommandQueue → Type 0
Abandons s items done q = HasStopped s items q × (futures_of s q.resolved ≡ done)

work-Abandons :
    (q : CommandQueue) (now : ℕ) (k s : String) (reply : Reply) (items : List QueuedItem)
    (done : List ℕ)
    → Abandons s items done q
    → Abandons s items done (step (working now k reply) q)
unfolding step concerns
work-Abandons q now k s reply items done h = elim (Bool-cases (str_eq k s)) [
  | inl e ↦
      subst (Abandons s items done)
        (sym (
          stopped_work q now k reply (get q.lanes k) items
            (ap (lane_at q.lanes) ((eq_iff k s).0 e) ∙ h.0.1)))
        h
  | inr e ↦ (
    (
      work-shut q now k reply (get q.lanes k) ∙ h.0.0,
      step_elsewhere (working now k reply) q s e ∙ h.0.1,
    ),
    work_elsewhere q now k reply (get q.lanes k) s e ∙ h.1,
  )
]

step-Abandons :
    (s : String) (items : List QueuedItem) (done : List ℕ) (e : Event) (q : CommandQueue)
    → Abandons s items done q
    → Abandons s items done (step e q)
unfolding step submit submit_batch
step-Abandons s items done (submitting now kind k timeout) q h =
    subst (Abandons s items done) (sym (ap (λ r. r.0) (enqueue-shut_down q now k _ _ h.0.0))) h
step-Abandons s items done (submitting_batch now label k timeout) q h =
    subst (Abandons s items done) (sym (ap (λ r. r.0) (enqueue-shut_down q now k _ _ h.0.0))) h
step-Abandons s items done (working now k reply) q h = work-Abandons q now k s reply items done h
step-Abandons s items done shutting_down q h = ((refl, h.0.1), h.1)

-- Once the queue is shut down and the worker of a scope has returned, no schedule resolves a future of
-- that scope any more: what waits in its lane then waits for ever.
pub run-Abandons :
    (es : List Event) (q : CommandQueue) (s : String) (items : List QueuedItem)
    → HasStopped s items q
    → Abandons s items (futures_of s q.resolved) (run es q)
run-Abandons es q s items h =
    run-keeps (Abandons s items (futures_of s q.resolved))
      (step-Abandons s items (futures_of s q.resolved)) es q (h, refl)
