-- ===== src/Foundry/CommandQueue/Accounts.antt =====
-- foundry/command_queue.py: the statistics and the bound on what waits in a lane.
use ai_dm.Prelude.{
  ℕ, ◌+◌, ◌≤◌, ◌<◌, false, Bool-cases, inl, inr, ◌≡◌, refl, ap, Option, none, some, List, [], ◌∷◌,
  ◌++◌, String, arith, length, length-append, get_or_default,
}
use ai_dm.Prelude.Dict.{Dict, get, put, string_key}
use ai_dm.Foundry.CommandQueue.{
  QueuedItem, Worker, testing, waiting, stopped, running, Lane, new_lane, CommandQueue, lane_of,
  Outcome, completed, failed, timed_out, init, Event, submitting, submitting_batch, working,
  shutting_down, step, run, enqueue, submit, submit_batch, worker_step, take_front, resolve,
  move_worker, reject, accept, item_for, work, Reply, outcome_of, is_late, is_full, queue_depth,
  count_outcome,
}
use ai_dm.Foundry.CommandQueue.Lanes.{ticket, lane_at, lane_at-put, run-keeps}

-- The counters agree with what was handed out and resolved.
abbrev pub IsCounted : CommandQueue → Type 0
IsCounted q =
    (q.stats.submitted ≡ length q.accepted)
    × (q.stats.completed + (q.stats.failed + q.stats.timed_out_in_queue) ≡ length q.resolved)

resolve-IsCounted :
    (q : CommandQueue) (k : String) (item : QueuedItem) (o : Outcome) (lane : Lane)
    → IsCounted q
    → IsCounted (resolve q k item o lane)
unfolding resolve count_outcome
resolve-IsCounted q k item completed lane h =
    ground (arith, length-append q.resolved (ticket k item.future))
resolve-IsCounted q k item failed lane h =
    ground (arith, length-append q.resolved (ticket k item.future))
resolve-IsCounted q k item timed_out lane h =
    ground (arith, length-append q.resolved (ticket k item.future))

enqueue-IsCounted :
    (q : CommandQueue) (now : ℕ) (k label : String) (timeout : ℕ)
    → IsCounted q
    → IsCounted (enqueue q now k label timeout).0
unfolding enqueue reject accept item_for lane_of
enqueue-IsCounted q now k label timeout h =
    ground (arith, length-append q.accepted (ticket k q.next_future))

take_front-IsCounted :
    (q : CommandQueue) (now : ℕ) (k : String) (items : List QueuedItem)
    → IsCounted q
    → IsCounted (take_front q now k items)
unfolding take_front move_worker
take_front-IsCounted q now k [] h = h
take_front-IsCounted q now k (item ∷ rest) h = elim (Bool-cases (is_late now item.deadline)) [
  | inl e ↦
      rw e (resolve-IsCounted q k item timed_out (record { pending = rest; worker = testing }) h)
  | inr e ↦ rw e h
]

worker_step-IsCounted :
    (q : CommandQueue) (now : ℕ) (k : String) (reply : Outcome) (items : List QueuedItem)
    (w : Worker)
    → IsCounted q
    → IsCounted (worker_step q now k reply items w)
unfolding worker_step move_worker
worker_step-IsCounted q now k reply items testing h = h
worker_step-IsCounted q now k reply items waiting h = take_front-IsCounted q now k items h
worker_step-IsCounted q now k reply items (running item) h =
    resolve-IsCounted q k item reply (record { pending = items; worker = testing }) h
worker_step-IsCounted q now k reply items stopped h = h

work-IsCounted :
    (q : CommandQueue) (now : ℕ) (k : String) (reply : Reply) (o : Option Lane)
    → IsCounted q
    → IsCounted (work q now k reply o)
unfolding work
work-IsCounted q now k reply none h = h
work-IsCounted q now k reply (some lane) h =
    worker_step-IsCounted q now k (outcome_of reply) lane.pending lane.worker h

step-IsCounted : (e : Event) (q : CommandQueue) → IsCounted q → IsCounted (step e q)
unfolding step submit submit_batch
step-IsCounted (submitting now kind k timeout) q h = enqueue-IsCounted q now k _ _ h
step-IsCounted (submitting_batch now label k timeout) q h = enqueue-IsCounted q now k _ _ h
step-IsCounted (working now k reply) q h = work-IsCounted q now k reply (get q.lanes k) h
step-IsCounted shutting_down q h = h

-- In every schedule the queue has counted as many submissions as it handed out futures, and as many
-- completions, failures and timeouts as it resolved.
pub run-IsCounted :
    (max_pending default_timeout : ℕ) (es : List Event)
    → IsCounted (run es (init max_pending default_timeout))
unfolding init
run-IsCounted max_pending default_timeout es =
    run-keeps IsCounted step-IsCounted es (init max_pending default_timeout) (refl, refl)

-- No lane holds more than `bound` items.
abbrev IsBounded : ℕ → CommandQueue → Type 0
IsBounded bound q =
    (q.max_pending ≡ bound) × ((s : String) → length (lane_at q.lanes s).pending ≤ bound)

Fits-put :
    (bound : ℕ) (lanes : Dict String Lane) (k : String) (lane : Lane)
    → ((s : String) → length (lane_at lanes s).pending ≤ bound)
    → length lane.pending ≤ bound
    → (s : String) → length (lane_at (put lanes k lane) s).pending ≤ bound
Fits-put bound lanes k lane h fits s = ground (arith, lane_at-put lanes k s lane, h s)

module _ (bound : ℕ) (positive : 0 < bound) where
  room :
      (max_pending : ℕ) (lane : Lane) (item : QueuedItem)
      → max_pending ≡ bound
      → is_full max_pending lane ≡ false
      → length (lane.pending ++ item ∷ []) ≤ bound
  unfolding is_full
  room max_pending lane item same free =
      ground (arith, same, free, length-append lane.pending (item ∷ []))

  enqueue-IsBounded :
      (q : CommandQueue) (now : ℕ) (k label : String) (timeout : ℕ)
      → IsBounded bound q
      → IsBounded bound (enqueue q now k label timeout).0
  unfolding enqueue reject accept item_for lane_of is_full
  enqueue-IsBounded q now k label timeout h = elim (Bool-cases q.shut) [
    | inl e ↦ rw e h
    | inr e ↦ rw e (elim (Bool-cases (is_full q.max_pending (lane_of q k))) [
      | inl f ↦ rw f (h.0, Fits-put bound q.lanes k (lane_of q k) h.1 (h.1 k))
      | inr f ↦ rw f (
        h.0,
        Fits-put bound q.lanes k _ h.1
            (room q.max_pending (lane_of q k) (item_for q now label timeout) h.0 f),
      )
    ])
  ]

  take_front-IsBounded :
      (q : CommandQueue) (now : ℕ) (k : String) (items : List QueuedItem)
      → IsBounded bound q
      → length items ≤ bound
      → IsBounded bound (take_front q now k items)
  unfolding take_front move_worker resolve
  take_front-IsBounded q now k [] h fits = (h.0, Fits-put bound q.lanes k _ h.1 fits)
  take_front-IsBounded q now k (item ∷ rest) h fits =
      elim (Bool-cases (is_late now item.deadline)) [
        | inl e ↦ rw e (h.0, Fits-put bound q.lanes k _ h.1 (omega (arith, fits)))
        | inr e ↦ rw e (h.0, Fits-put bound q.lanes k _ h.1 (omega (arith, fits)))
      ]

  worker_step-IsBounded :
      (q : CommandQueue) (now : ℕ) (k : String) (reply : Outcome) (items : List QueuedItem)
      (w : Worker)
      → IsBounded bound q
      → length items ≤ bound
      → IsBounded bound (worker_step q now k reply items w)
  unfolding worker_step move_worker resolve
  worker_step-IsBounded q now k reply items testing h fits =
      (h.0, Fits-put bound q.lanes k _ h.1 fits)
  worker_step-IsBounded q now k reply items waiting h fits =
      take_front-IsBounded q now k items h fits
  worker_step-IsBounded q now k reply items (running item) h fits =
      (h.0, Fits-put bound q.lanes k _ h.1 fits)
  worker_step-IsBounded q now k reply items stopped h fits = h

  work-IsBounded :
      (q : CommandQueue) (now : ℕ) (k : String) (reply : Reply) (o : Option Lane)
      → get q.lanes k ≡ o
      → IsBounded bound q
      → IsBounded bound (work q now k reply o)
  unfolding work
  work-IsBounded q now k reply none at h = h
  work-IsBounded q now k reply (some lane) at h =
      worker_step-IsBounded q now k (outcome_of reply) lane.pending lane.worker h
        (ground (arith, ap (get_or_default new_lane) at, h.1 k))

  step-IsBounded : (e : Event) (q : CommandQueue) → IsBounded bound q → IsBounded bound (step e q)
  unfolding step submit submit_batch
  step-IsBounded (submitting now kind k timeout) q h = enqueue-IsBounded q now k _ _ h
  step-IsBounded (submitting_batch now label k timeout) q h = enqueue-IsBounded q now k _ _ h
  step-IsBounded (working now k reply) q h = work-IsBounded q now k reply (get q.lanes k) refl h
  step-IsBounded shutting_down q h = h

-- With a positive bound no schedule makes more items wait in a scope than the bound.
pub queue_depth-bounded :
    (max_pending default_timeout : ℕ) (es : List Event) (s : String)
    → 0 < max_pending
    → queue_depth (run es (init max_pending default_timeout)) s ≤ max_pending
unfolding queue_depth lane_of init get
queue_depth-bounded max_pending default_timeout es s positive =
    (run-keeps (IsBounded max_pending) (step-IsBounded max_pending positive) es
        (init max_pending default_timeout) (refl, λ t. omega arith)).1
      s
