-- ===== src/Foundry/CommandQueue/Fifo.antt =====
-- foundry/command_queue.py: each scope is an abstract queue of futures. What was handed out to a scope
-- is what was resolved, followed by what the lane still owes, in one order.
use ai_dm.Prelude.{
  ℕ, Bool-cases, inl, inr, ◌≡◌, refl, sym, ap, Option, none, some, List, [], ◌∷◌, ◌++◌, String,
  arith, str_eq, eq_iff, map, append_nil, append_assoc, get_or_default,
}
use mathlib.Core.List.{map-append}
use ai_dm.Prelude.Dict.{Dict, get, put, string_key}
use ai_dm.Foundry.CommandQueue.{
  QueuedItem, Worker, testing, waiting, stopped, running, Lane, new_lane, Ticket, CommandQueue,
  lane_of, Outcome, init, Event, submitting, submitting_batch, working, shutting_down, step, run,
  enqueue, submit, submit_batch, worker_step, take_front, resolve, move_worker, reject, accept,
  item_for, work, Reply, outcome_of, is_late, is_full,
}
use ai_dm.Foundry.CommandQueue.Lanes.{
  ticket, futures_of, held_by, owed, lane_at, futures_of-append, lane_at-put, run-keeps,
}

-- `accepted`, `resolved` and the lanes agree.
abbrev pub Agree : List Ticket → List Ticket → Dict String Lane → Type 0
Agree accepted resolved lanes =
    (s : String) → futures_of s accepted ≡ futures_of s resolved ++ owed (lane_at lanes s)

abbrev pub InOrder : CommandQueue → Type 0
InOrder q = Agree q.accepted q.resolved q.lanes

module _ (a r : List Ticket) (lanes : Dict String Lane) (k : String) (lane : Lane)
    (h : Agree a r lanes) where
  Agree-move : owed lane ≡ owed (lane_at lanes k) → Agree a r (put lanes k lane)
  Agree-move same s = elim (Bool-cases (str_eq k s)) [
    | inl e ↦ ground (arith, h s, same, lane_at-put lanes k s lane, eq_iff k s)
    | inr e ↦ ground (arith, h s, lane_at-put lanes k s lane)
  ]

  Agree-accept :
      (n : ℕ)
      → owed lane ≡ owed (lane_at lanes k) ++ n ∷ []
      → Agree (a ++ ticket k n) r (put lanes k lane)
  unfolding futures_of
  Agree-accept n more s = elim (Bool-cases (str_eq k s)) [
    | inl e ↦ ground (
      arith,
      h s,
      more,
      lane_at-put lanes k s lane,
      eq_iff k s,
      futures_of-append s a (ticket k n),
      append_assoc (futures_of s r) (owed (lane_at lanes k)) (n ∷ []),
    )
    | inr e ↦ ground (
      arith,
      h s,
      lane_at-put lanes k s lane,
      futures_of-append s a (ticket k n),
      append_nil (futures_of s a),
    )
  ]

  Agree-resolve :
      (n : ℕ)
      → owed (lane_at lanes k) ≡ n ∷ owed lane
      → Agree a (r ++ ticket k n) (put lanes k lane)
  unfolding futures_of
  Agree-resolve n less s = elim (Bool-cases (str_eq k s)) [
    | inl e ↦ ground (
      arith,
      h s,
      less,
      lane_at-put lanes k s lane,
      eq_iff k s,
      futures_of-append s r (ticket k n),
      append_assoc (futures_of s r) (n ∷ []) (owed lane),
    )
    | inr e ↦ ground (
      arith,
      h s,
      lane_at-put lanes k s lane,
      futures_of-append s r (ticket k n),
      append_nil (futures_of s r),
    )
  ]

abbrev future_of : QueuedItem → ℕ
future_of item = item.future

owed-append :
    (w : Worker) (items : List QueuedItem) (item : QueuedItem)
    → owed (record { pending = items ++ item ∷ []; worker = w })
      ≡ owed (record { pending = items; worker = w }) ++ item.future ∷ []
unfolding owed
owed-append w items item = cc (
  map-append future_of items (item ∷ []),
  append_assoc (held_by w) (map future_of items) (item.future ∷ []),
)

submit-InOrder :
    (q : CommandQueue) (now : ℕ) (k label : String) (timeout : ℕ)
    → InOrder q
    → InOrder (enqueue q now k label timeout).0
unfolding enqueue reject accept item_for lane_of
submit-InOrder q now k label timeout h = elim (Bool-cases q.shut) [
  | inl e ↦ rw e h
  | inr e ↦ rw e (elim (Bool-cases (is_full q.max_pending (lane_of q k))) [
    | inl f ↦ rw f (Agree-move q.accepted q.resolved q.lanes k (lane_of q k) h refl)
    | inr f ↦ rw f (
        Agree-accept q.accepted q.resolved q.lanes k _ h q.next_future
          (owed-append (lane_of q k).worker (lane_of q k).pending (item_for q now label timeout)))
  ])
]

module _ (q : CommandQueue) (now : ℕ) (k : String) (h : InOrder q) where
  take_front-InOrder :
      (items : List QueuedItem)
      → lane_at q.lanes k ≡ record { pending = items; worker = waiting }
      → InOrder (take_front q now k items)
  unfolding take_front move_worker resolve owed
  take_front-InOrder [] at = Agree-move q.accepted q.resolved q.lanes k _ h (ap owed (sym at))
  take_front-InOrder (item ∷ rest) at = elim (Bool-cases (is_late now item.deadline)) [
    | inl e ↦ rw e (Agree-resolve q.accepted q.resolved q.lanes k _ h item.future (ap owed at))
    | inr e ↦ rw e (Agree-move q.accepted q.resolved q.lanes k _ h (ap owed (sym at)))
  ]

  worker_step-InOrder :
      (reply : Outcome) (items : List QueuedItem) (w : Worker)
      → lane_at q.lanes k ≡ record { pending = items; worker = w }
      → InOrder (worker_step q now k reply items w)
  unfolding worker_step move_worker resolve owed
  worker_step-InOrder reply items testing at = elim (Bool-cases q.shut) [
    | inl e ↦ rw e (Agree-move q.accepted q.resolved q.lanes k _ h (ap owed (sym at)))
    | inr e ↦ rw e (Agree-move q.accepted q.resolved q.lanes k _ h (ap owed (sym at)))
  ]
  worker_step-InOrder reply items waiting at = take_front-InOrder items at
  worker_step-InOrder reply items (running item) at =
      Agree-resolve q.accepted q.resolved q.lanes k _ h item.future (ap owed at)
  worker_step-InOrder reply items stopped at = h

  work-InOrder :
      (reply : Reply) (o : Option Lane) → get q.lanes k ≡ o → InOrder (work q now k reply o)
  unfolding work
  work-InOrder reply none at = h
  work-InOrder reply (some lane) at =
      worker_step-InOrder (outcome_of reply) lane.pending lane.worker
        (ap (get_or_default new_lane) at)

pub step-InOrder : (e : Event) (q : CommandQueue) → InOrder q → InOrder (step e q)
unfolding step submit submit_batch
step-InOrder (submitting now kind k timeout) q h = submit-InOrder q now k _ _ h
step-InOrder (submitting_batch now label k timeout) q h = submit-InOrder q now k _ _ h
step-InOrder (working now k reply) q h = work-InOrder q now k h reply (get q.lanes k) refl
step-InOrder shutting_down q h = h

-- Whatever is submitted and however the workers and their client interleave: the futures handed out for
-- a scope are those already given a result, in the order of submission, then the one in flight, then
-- those that wait in its lane.
pub run-InOrder :
    (max_pending default_timeout : ℕ) (es : List Event) (s : String)
    → let q = run es (init max_pending default_timeout) in
      futures_of s q.accepted ≡ futures_of s q.resolved ++ owed (lane_of q s)
unfolding init futures_of owed lane_of get
run-InOrder max_pending default_timeout es s =
    run-keeps InOrder step-InOrder es (init max_pending default_timeout) (λ t. refl) s
