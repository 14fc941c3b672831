-- ===== src/Foundry/CommandQueue/Workers.antt =====
-- foundry/command_queue.py: the workers of a queue that is not shut down have not returned.
use ai_dm.Prelude.{
  ℕ, Bool, true, false, Bool-cases, inl, inr, ◌≡◌, refl, Option, none, some, List, [], ◌∷◌, ◌++◌,
  String, arith,
}
use ai_dm.Prelude.Dict.{Dict, get, put, string_key}
use ai_dm.Foundry.CommandQueue.{
  QueuedItem, Worker, testing, waiting, stopped, running, Lane, CommandQueue, lane_of, Outcome,
  Event, submitting, submitting_batch, working, shutting_down, step, enqueue, submit, submit_batch,
  worker_step, take_front, resolve, move_worker, work, is_full, item_for, Reply, outcome_of,
  is_late, reject, accept,
}
use ai_dm.Foundry.CommandQueue.Lanes.{lane_at, lane_at-put}

abbrev pub is_stopped : Worker → Bool
is_stopped stopped = true
is_stopped _ = false

pub enqueue-shut :
    (q : CommandQueue) (now : ℕ) (k label : String) (timeout : ℕ)
    → (enqueue q now k label timeout).0.shut ≡ q.shut
unfolding enqueue reject accept
enqueue-shut q now k label timeout = ground arith

take_front-shut :
    (q : CommandQueue) (now : ℕ) (k : String) (items : List QueuedItem)
    → (take_front q now k items).shut ≡ q.shut
unfolding take_front move_worker resolve
take_front-shut q now k [] = refl
take_front-shut q now k (item ∷ rest) = ground arith

worker_step-shut :
    (q : CommandQueue) (now : ℕ) (k : String) (reply : Outcome) (items : List QueuedItem)
    (w : Worker)
    → (worker_step q now k reply items w).shut ≡ q.shut
unfolding worker_step move_worker resolve
worker_step-shut q now k reply items testing = refl
worker_step-shut q now k reply items waiting = take_front-shut q now k items
worker_step-shut q now k reply items (running item) = refl
worker_step-shut q now k reply items stopped = refl

pub work-shut :
    (q : CommandQueue) (now : ℕ) (k : String) (reply : Reply) (o : Option Lane)
    → (work q now k reply o).shut ≡ q.shut
unfolding work
work-shut q now k reply none = refl
work-shut q now k reply (some lane) =
    worker_step-shut q now k (outcome_of reply) lane.pending lane.worker

-- The workers of an open queue have not returned.
abbrev pub HasWorkers : Bool → Dict String Lane → Type 0
HasWorkers shut lanes = (s : String) → shut ≡ false → is_stopped (lane_at lanes s).worker ≡ false

HasWorkers-put :
    (shut : Bool) (lanes : Dict String Lane) (k : String) (lane : Lane)
    → HasWorkers shut lanes
    → (shut ≡ false → is_stopped lane.worker ≡ false)
    → HasWorkers shut (put lanes k lane)
HasWorkers-put shut lanes k lane h up s live =
    ground (arith, lane_at-put lanes k s lane, h s live, up live)

abbrev pub IsManned : CommandQueue → Type 0
IsManned q = HasWorkers q.shut q.lanes

enqueue-IsManned :
    (q : CommandQueue) (now : ℕ) (k label : String) (timeout : ℕ)
    → IsManned q
    → IsManned (enqueue q now k label timeout).0
unfolding enqueue reject accept lane_of
enqueue-IsManned q now k label timeout h = elim (Bool-cases q.shut) [
  | inl e ↦ rw e (λ s live. cc)
  | inr e ↦ rw e (elim (Bool-cases (is_full q.max_pending (lane_of q k))) [
    | inl f ↦ rw f (λ s live. HasWorkers-put q.shut q.lanes k (lane_of q k) h (h k) s e)
    | inr f ↦ rw f (λ s live.
        HasWorkers-put q.shut q.lanes k
          (record {
            pending = (lane_of q k).pending ++ item_for q now label timeout ∷ [];
            worker = (lane_of q k).worker;
          })
          h (h k) s e)
  ])
]

worker_step-IsManned :
    (q : CommandQueue) (now : ℕ) (k : String) (reply : Outcome) (items : List QueuedItem)
    (w : Worker)
    → IsManned q
    → IsManned (worker_step q now k reply items w)
unfolding worker_step move_worker take_front resolve
worker_step-IsManned q now k reply items testing h =
    HasWorkers-put q.shut q.lanes k _ h (λ live. ground (arith, live))
worker_step-IsManned q now k reply [] waiting h = HasWorkers-put q.shut q.lanes k _ h (λ live. refl)
worker_step-IsManned q now k reply (item ∷ rest) waiting h =
    elim (Bool-cases (is_late now item.deadline)) [
      | inl e ↦ rw e (HasWorkers-put q.shut q.lanes k _ h (λ live. refl))
      | inr e ↦ rw e (HasWorkers-put q.shut q.lanes k _ h (λ live. refl))
    ]
worker_step-IsManned q now k reply items (running item) h =
    HasWorkers-put q.shut q.lanes k _ h (λ live. refl)
worker_step-IsManned q now k reply items stopped h = h

work-IsManned :
    (q : CommandQueue) (now : ℕ) (k : String) (reply : Reply) (o : Option Lane)
    → IsManned q
    → IsManned (work q now k reply o)
unfolding work
work-IsManned q now k reply none h = h
work-IsManned q now k reply (some lane) h =
    worker_step-IsManned q now k (outcome_of reply) lane.pending lane.worker h

pub step-IsManned : (e : Event) (q : CommandQueue) → IsManned q → IsManned (step e q)
unfolding step submit submit_batch
step-IsManned (submitting now kind k timeout) q h = enqueue-IsManned q now k _ _ h
step-IsManned (submitting_batch now label k timeout) q h = enqueue-IsManned q now k _ _ h
step-IsManned (working now k reply) q h = work-IsManned q now k reply (get q.lanes k) h
step-IsManned shutting_down q h = λ s live. cc
