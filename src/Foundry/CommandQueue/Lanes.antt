-- ===== src/Foundry/CommandQueue/Lanes.antt =====
-- foundry/command_queue.py: which futures the lane of a scope still owes a result, and what is left of
-- the lanes when one of them is written.
use ai_dm.Prelude.{
  ℕ, Option, none, some, Bool, false, Bool-cases, inl, inr, ◌≡◌, refl, List, [], ◌∷◌, ◌++◌, String,
  arith, str_eq, if◌then◌else◌, map, get_or_default,
}
use ai_dm.Prelude.Dict.{Dict, get, put, get-put, string_key}
use ai_dm.Foundry.CommandQueue.{
  QueuedItem, Worker, testing, waiting, stopped, running, Lane, new_lane, Ticket, CommandQueue,
  lane_of, Outcome, Event, submitting, submitting_batch, working, shutting_down, step, run, enqueue,
  submit, submit_batch, worker_step, take_front, resolve, move_worker, reject, accept, work, Reply,
  outcome_of, is_late, is_full,
}

-- The futures of a scope in a log, oldest first.
unfoldable pub futures_of : String → List Ticket → List ℕ
futures_of s [] = []
futures_of s (t ∷ ts) =
    let rest = futures_of s ts in if str_eq t.scope_key s then t.future ∷ rest else rest

abbrev pub held_by : Worker → List ℕ
held_by (running item) = item.future ∷ []
held_by _ = []

-- The futures a lane still owes a result, the one in flight first.
unfoldable pub owed : Lane → List ℕ
owed lane = held_by lane.worker ++ map (λ (item : QueuedItem). item.future) lane.pending

abbrev pub lane_at : Dict String Lane → String → Lane
lane_at lanes s = get_or_default new_lane (get lanes s)

-- A log of one future.
abbrev pub ticket : String → ℕ → List Ticket
ticket k n = record { scope_key = k; future = n } ∷ []

pub futures_of-append :
    (s : String) (ts us : List Ticket)
    → futures_of s (ts ++ us) ≡ futures_of s ts ++ futures_of s us
unfolding futures_of
futures_of-append s [] us = refl
futures_of-append s (t ∷ ts) us = ground (arith, futures_of-append s ts us)

pub lane_at-put :
    (lanes : Dict String Lane) (k s : String) (lane : Lane)
    → lane_at (put lanes k lane) s ≡ (if str_eq k s then lane else lane_at lanes s)
lane_at-put lanes k s lane = elim (Bool-cases (str_eq k s)) [
  | inl e ↦ ground (arith, get-put lanes k s lane)
  | inr e ↦ ground (arith, get-put lanes k s lane)
]

pub run-keeps :
    (P : CommandQueue → Type 0)
    → ((e : Event) (q : CommandQueue) → P q → P (step e q))
    → (es : List Event) (q : CommandQueue) → P q
    → P (run es q)
unfolding run
run-keeps P keeps [] q h = h
run-keeps P keeps (e ∷ es) q h = run-keeps P keeps es (step e q) (keeps e q h)

-- Whether an event is a call or a step for the scope.
unfoldable pub concerns : String → Event → Bool
concerns s (submitting now kind k timeout) = str_eq k s
concerns s (submitting_batch now label k timeout) = str_eq k s
concerns s (working now k reply) = str_eq k s
concerns s shutting_down = false

put_elsewhere :
    (lanes : Dict String Lane) (k s : String) (lane : Lane)
    → str_eq k s ≡ false
    → lane_at (put lanes k lane) s ≡ lane_at lanes s
put_elsewhere lanes k s lane other = ground (arith, lane_at-put lanes k s lane)

enqueue_elsewhere :
    (q : CommandQueue) (now : ℕ) (k label : String) (timeout : ℕ) (s : String)
    → str_eq k s ≡ false
    → lane_at (enqueue q now k label timeout).0.lanes s ≡ lane_at q.lanes s
unfolding enqueue reject accept lane_of
enqueue_elsewhere q now k label timeout s other = elim (Bool-cases q.shut) [
  | inl e ↦ rw e refl
  | inr e ↦ rw e (elim (Bool-cases (is_full q.max_pending (lane_of q k))) [
    | inl f ↦ rw f (put_elsewhere q.lanes k s (lane_of q k) other)
    | inr f ↦ rw f (put_elsewhere q.lanes k s _ other)
  ])
]

worker_step_elsewhere :
    (q : CommandQueue) (now : ℕ) (k : String) (reply : Outcome) (items : List QueuedItem)
    (w : Worker) (s : String)
    → str_eq k s ≡ false
    → lane_at (worker_step q now k reply items w).lanes s ≡ lane_at q.lanes s
unfolding worker_step move_worker take_front resolve
worker_step_elsewhere q now k reply items testing s other = put_elsewhere q.lanes k s _ other
worker_step_elsewhere q now k reply [] waiting s other = put_elsewhere q.lanes k s _ other
worker_step_elsewhere q now k reply (item ∷ rest) waiting s other =
    elim (Bool-cases (is_late now item.deadline)) [
      | inl e ↦ rw e (put_elsewhere q.lanes k s _ other)
      | inr e ↦ rw e (put_elsewhere q.lanes k s _ other)
    ]
worker_step_elsewhere q now k reply items (running item) s other = put_elsewhere q.lanes k s _ other
worker_step_elsewhere q now k reply items stopped s other = refl

work_elsewhere :
    (q : CommandQueue) (now : ℕ) (k : String) (reply : Reply) (o : Option Lane) (s : String)
    → str_eq k s ≡ false
    → lane_at (work q now k reply o).lanes s ≡ lane_at q.lanes s
unfolding work
work_elsewhere q now k reply none s other = refl
work_elsewhere q now k reply (some lane) s other =
    worker_step_elsewhere q now k (outcome_of reply) lane.pending lane.worker s other

-- What does not concern a scope leaves its lane as it was.
pub step_elsewhere :
    (e : Event) (q : CommandQueue) (s : String)
    → concerns s e ≡ false
    → lane_at (step e q).lanes s ≡ lane_at q.lanes s
unfolding step submit submit_batch concerns
step_elsewhere (submitting now kind k timeout) q s other = enqueue_elsewhere q now k _ _ s other
step_elsewhere (submitting_batch now label k timeout) q s other =
    enqueue_elsewhere q now k _ _ s other
step_elsewhere (working now k reply) q s other =
    work_elsewhere q now k reply (get q.lanes k) s other
step_elsewhere shutting_down q s other = refl
