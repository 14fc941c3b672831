-- ===== src/Foundry/CommandQueue/Draining.antt =====
-- foundry/command_queue.py: a worker that keeps stepping resolves all that was handed out to its scope.
use ai_dm.Prelude.{
  ℕ, suc, ◌+◌, ◌*◌, ◌-◌, ◌≤◌, Bool, true, false, not, Bool-cases, inl, inr, ◌≡◌, refl, sym, ◌∙◌, ap,
  Option, none, some, List, [], ◌∷◌, ◌++◌, String, arith, str_eq, eq_iff, if◌then◌else◌, length,
  All, append_nil, length-map, get_or_default,
}
use mathlib.Core.Path.{subst}
use ai_dm.Prelude.Dict.{Dict, get, put, string_key}
use ai_dm.Foundry.CommandQueue.{
  QueuedItem, Worker, testing, waiting, stopped, running, Lane, new_lane, CommandQueue, lane_of,
  Outcome, init, Event, submitting, submitting_batch, working, shutting_down, step, run, submit,
  submit_batch, worker_step, take_front, resolve, move_worker, work, Reply, outcome_of, is_late,
}
use ai_dm.Foundry.CommandQueue.Lanes.{
  lane_at, lane_at-put, run-keeps, concerns, step_elsewhere, owed, futures_of,
}
use ai_dm.Foundry.CommandQueue.Workers.{
  is_stopped, IsManned, enqueue-shut, work-shut, step-IsManned,
}
use ai_dm.Foundry.CommandQueue.Fifo.{InOrder, step-InOrder}

-- How many steps of the worker resolve all that a lane owes.
unfoldable weight : List QueuedItem → Worker → ℕ
weight [] (running item) = 1
weight [] _ = 0
weight (i ∷ items) testing = 3 * length items + 4
weight (i ∷ items) (running item) = 3 * length items + 5
weight (i ∷ items) _ = 3 * length items + 3

-- A lane with a live worker that owes no more than `n` steps.
abbrev Nears : ℕ → Lane → Type 0
Nears n lane = (is_stopped lane.worker ≡ false) × (weight lane.pending lane.worker ≤ n)

-- An event that neither shuts the queue nor gives the scope more to do.
abbrev pub is_calm : String → Event → Bool
is_calm s (submitting now kind k timeout) = not (str_eq k s)
is_calm s (submitting_batch now label k timeout) = not (str_eq k s)
is_calm s (working now k reply) = true
is_calm s shutting_down = false

-- How many of the events are steps of the scope's worker.
unfoldable pub steps_of : String → List Event → ℕ
steps_of s [] = 0
steps_of s (working now k reply ∷ es) =
    let rest = steps_of s es in if str_eq k s then suc rest else rest
steps_of s (_ ∷ es) = steps_of s es

put-Nears :
    (lanes : Dict String Lane) (s : String) (lane : Lane) (n : ℕ)
    → Nears n lane
    → Nears n (lane_at (put lanes s lane) s)
put-Nears lanes s lane n h = ground (arith, lane_at-put lanes s s lane, eq_iff s s, h)

abbrev weight_at : CommandQueue → String → ℕ
weight_at q s = weight (lane_at q.lanes s).pending (lane_at q.lanes s).worker

-- The queue is open and the scope owes at most `n` steps.
abbrev IsOpen : String → ℕ → CommandQueue → Type 0
IsOpen s n q = (q.shut ≡ false) × Nears n (lane_at q.lanes s)

module _ (q : CommandQueue) (now : ℕ) (k : String) (n : ℕ) (live : q.shut ≡ false) where
  take_front-IsOpen :
      (items : List QueuedItem)
      → weight items waiting ≤ n
      → IsOpen k (n - 1) (take_front q now k items)
  unfolding take_front move_worker resolve weight
  take_front-IsOpen [] h = (live, put-Nears q.lanes k _ (n - 1) (refl, ground arith))
  take_front-IsOpen (item ∷ []) h = elim (Bool-cases (is_late now item.deadline)) [
    | inl e ↦ rw e (live, put-Nears q.lanes k _ (n - 1) (refl, ground (arith, h)))
    | inr e ↦ rw e (live, put-Nears q.lanes k _ (n - 1) (refl, ground (arith, h)))
  ]
  take_front-IsOpen (item ∷ i ∷ rest) h = elim (Bool-cases (is_late now item.deadline)) [
    | inl e ↦ rw e (live, put-Nears q.lanes k _ (n - 1) (refl, ground (arith, h)))
    | inr e ↦ rw e (live, put-Nears q.lanes k _ (n - 1) (refl, ground (arith, h)))
  ]

  testing-IsOpen :
      (reply : Outcome) (items : List QueuedItem)
      → weight items testing ≤ n
      → IsOpen k (n - 1) (worker_step q now k reply items testing)
  unfolding worker_step move_worker weight
  testing-IsOpen reply [] h = (live, rw live (put-Nears q.lanes k _ (n - 1) (refl, ground arith)))
  testing-IsOpen reply (i ∷ rest) h =
      (live, rw live (put-Nears q.lanes k _ (n - 1) (refl, ground (arith, h))))

  running-IsOpen :
      (reply : Outcome) (item : QueuedItem) (items : List QueuedItem)
      → weight items (running item) ≤ n
      → IsOpen k (n - 1) (worker_step q now k reply items (running item))
  unfolding worker_step resolve weight
  running-IsOpen reply item [] h = (live, put-Nears q.lanes k _ (n - 1) (refl, ground arith))
  running-IsOpen reply item (i ∷ rest) h =
      (live, put-Nears q.lanes k _ (n - 1) (refl, ground (arith, h)))

  worker_step-IsOpen :
      (reply : Outcome) (items : List QueuedItem) (w : Worker)
      → is_stopped w ≡ false
      → weight items w ≤ n
      → IsOpen k (n - 1) (worker_step q now k reply items w)
  unfolding worker_step
  worker_step-IsOpen reply items testing up h = testing-IsOpen reply items h
  worker_step-IsOpen reply items waiting up h = take_front-IsOpen items h
  worker_step-IsOpen reply items (running item) up h = running-IsOpen reply item items h
  worker_step-IsOpen reply items stopped up h = cc

  work-IsOpen :
      (reply : Reply) (o : Option Lane)
      → get q.lanes k ≡ o
      → Nears n (lane_at q.lanes k)
      → IsOpen k (n - 1) (work q now k reply o)
  unfolding work weight
  work-IsOpen reply none at h = (live, ground (arith, at, h))
  work-IsOpen reply (some lane) at h =
      let same : lane_at q.lanes k ≡ lane = ap (get_or_default new_lane) at in
      worker_step-IsOpen (outcome_of reply) lane.pending lane.worker
        (ap (λ (l : Lane). is_stopped l.worker) (sym same) ∙ h.0)
        (subst (λ (l : Lane). weight l.pending l.worker ≤ n) same h.1)

IsOpen-elsewhere :
    (e : Event) (q : CommandQueue) (s : String) (n : ℕ)
    → concerns s e ≡ false
    → (step e q).shut ≡ q.shut
    → IsOpen s n q
    → IsOpen s n (step e q)
IsOpen-elsewhere e q s n other same h =
    (same ∙ h.0, subst (Nears n) (sym (step_elsewhere e q s other)) h.1)

Nears-subst : (k s : String) (n : ℕ) (q : CommandQueue) → k ≡ s → IsOpen k n q → IsOpen s n q
Nears-subst k s n q same h = subst (λ t. IsOpen t n q) same h

IsOpen-weaken : (s : String) (m n : ℕ) (q : CommandQueue) → m ≤ n → IsOpen s m q → IsOpen s n q
IsOpen-weaken s m n q le h = (h.0, (h.1.0, omega (arith, h.1.1, le)))

worked-IsOpen :
    (q : CommandQueue) (now : ℕ) (k s : String) (reply : Reply) (n : ℕ)
    → IsOpen s n q
    → k ≡ s
    → IsOpen s (n - 1) (work q now k reply (get q.lanes k))
worked-IsOpen q now k s reply n h same =
    Nears-subst k s (n - 1) (work q now k reply (get q.lanes k)) same
      (work-IsOpen q now k n h.0 reply (get q.lanes k) refl (Nears-subst s k n q (sym same) h).1)

step-IsOpen :
    (e : Event) (q : CommandQueue) (s : String) (n : ℕ)
    → is_calm s e ≡ true
    → IsOpen s n q
    → IsOpen s (n - steps_of s (e ∷ [])) (step e q)
unfolding steps_of step submit submit_batch concerns
step-IsOpen (submitting now kind k timeout) q s n calm h =
    IsOpen-weaken s n (n - 0) (step (submitting now kind k timeout) q) (omega arith) (
      IsOpen-elsewhere (submitting now kind k timeout) q s n (ground (arith, calm))
        (enqueue-shut q now k _ _) h)
step-IsOpen (submitting_batch now label k timeout) q s n calm h =
    IsOpen-weaken s n (n - 0) (step (submitting_batch now label k timeout) q) (omega arith) (
      IsOpen-elsewhere (submitting_batch now label k timeout) q s n (ground (arith, calm))
        (enqueue-shut q now k _ _) h)
step-IsOpen (working now k reply) q s n calm h = elim (Bool-cases (str_eq k s)) [
  | inl e ↦
      IsOpen-weaken s (n - 1) _ (step (working now k reply) q) (ground (arith, e))
        (worked-IsOpen q now k s reply n h (ground (arith, e, eq_iff k s)))
  | inr e ↦
      IsOpen-weaken s n _ (step (working now k reply) q) (ground (arith, e))
        (IsOpen-elsewhere (working now k reply) q s n e (work-shut q now k reply (get q.lanes k)) h)
]
step-IsOpen shutting_down q s n calm h = cc

steps_of-cons :
    (s : String) (e : Event) (es : List Event)
    → steps_of s (e ∷ es) ≡ steps_of s (e ∷ []) + steps_of s es
unfolding steps_of
steps_of-cons s (submitting now kind k timeout) es = omega arith
steps_of-cons s (submitting_batch now label k timeout) es = omega arith
steps_of-cons s (working now k reply) es = ground arith
steps_of-cons s shutting_down es = omega arith

run-IsOpen :
    (es : List Event) (q : CommandQueue) (s : String) (n : ℕ)
    → All (λ (e : Event). is_calm s e ≡ true) es
    → IsOpen s n q
    → steps_of s es ≡ n
    → IsOpen s 0 (run es q)
unfolding run steps_of
run-IsOpen [] q s n calm h enough = IsOpen-weaken s n 0 q (omega (arith, enough)) h
run-IsOpen (e ∷ es) q s n calm h enough =
    let after : IsOpen s (steps_of s es) (step e q) =
      IsOpen-weaken s (n - steps_of s (e ∷ [])) (steps_of s es) (step e q)
        (omega (arith, enough, steps_of-cons s e es)) (step-IsOpen e q s n calm.0 h) in
    run-IsOpen es (step e q) s (steps_of s es) calm.1 after refl

owed_nothing :
    (items : List QueuedItem) (w : Worker)
    → weight items w ≤ 0
    → is_stopped w ≡ false
    → owed (record { pending = items; worker = w }) ≡ []
unfolding weight owed
owed_nothing [] testing h up = refl
owed_nothing [] waiting h up = refl
owed_nothing [] (running item) h up = absurd (omega (arith, h))
owed_nothing [] stopped h up = cc
owed_nothing (i ∷ items) testing h up = absurd (omega (arith, h))
owed_nothing (i ∷ items) waiting h up = absurd (omega (arith, h))
owed_nothing (i ∷ items) (running item) h up = absurd (omega (arith, h))
owed_nothing (i ∷ items) stopped h up = cc

weight-owed :
    (items : List QueuedItem) (w : Worker)
    → is_stopped w ≡ false
    → weight items w ≤ 3 * length (owed (record { pending = items; worker = w })) + 1
unfolding weight owed
weight-owed [] testing up = omega arith
weight-owed [] waiting up = omega arith
weight-owed [] (running item) up = omega arith
weight-owed [] stopped up = omega arith
weight-owed (i ∷ items) testing up =
    omega (arith, length-map (λ (item : QueuedItem). item.future) items)
weight-owed (i ∷ items) waiting up =
    omega (arith, length-map (λ (item : QueuedItem). item.future) items)
weight-owed (i ∷ items) (running item) up =
    omega (arith, length-map (λ (item : QueuedItem). item.future) items)
weight-owed (i ∷ items) stopped up = cc

owes_nothing : (q : CommandQueue) (s : String) → IsOpen s 0 q → owed (lane_at q.lanes s) ≡ []
owes_nothing q s h = owed_nothing (lane_at q.lanes s).pending (lane_at q.lanes s).worker h.1.1 h.1.0

settled :
    (q : CommandQueue) (s : String)
    → InOrder q
    → owed (lane_at q.lanes s) ≡ []
    → futures_of s q.resolved ≡ futures_of s q.accepted
settled q s h none_left =
    sym (append_nil (futures_of s q.resolved))
    ∙ ap (λ (t : List ℕ). futures_of s q.resolved ++ t) (sym none_left)
    ∙ sym (h s)

-- Take any schedule after which the queue is still open, and any further one that neither shuts it nor
-- submits to the scope. If the scope's worker makes at least three steps for each future that was owed,
-- and one more, then all the futures handed out for the scope are resolved.
pub run-settles :
    (max_pending default_timeout : ℕ) (es fs : List Event) (s : String)
    → (run es (init max_pending default_timeout)).shut ≡ false
    → All (λ (e : Event). is_calm s e ≡ true) fs
    → 3 * length (owed (lane_of (run es (init max_pending default_timeout)) s)) + 1 ≤ steps_of s fs
    → let q = run fs (run es (init max_pending default_timeout)) in
      futures_of s q.resolved ≡ futures_of s q.accepted
unfolding init lane_of get futures_of owed
run-settles max_pending default_timeout es fs s live calm enough =
    let start : CommandQueue = init max_pending default_timeout in
    let q : CommandQueue = run es start in
    let up : is_stopped (lane_at q.lanes s).worker ≡ false =
      run-keeps IsManned step-IsManned es start (λ t l. refl) s live in
    let start_open : IsOpen s (steps_of s fs) q = (
      live,
      (
        up,
        omega
            (arith, enough, weight-owed (lane_at q.lanes s).pending (lane_at q.lanes s).worker up),
      ),
    ) in
    settled (run fs q) s
      (run-keeps InOrder step-InOrder fs q (run-keeps InOrder step-InOrder es start (λ t. refl)))
      (owes_nothing (run fs q) s (run-IsOpen fs q s (steps_of s fs) calm start_open refl))
