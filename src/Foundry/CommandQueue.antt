-- ===== src/Foundry/CommandQueue.antt =====
-- src/ai_dm/foundry/command_queue.py: one queue and one worker thread for each scope. Threads are an
-- event list: each event is one call of the queue or one step of one worker, in any order. Each event is
-- taken as atomic, also the update of the statistics. Time is counted in ticks, and what the client
-- answers to a command is part of the event. `accepted` and `resolved` record the futures that were
-- handed out and those that were given a result, in the order in which that happened.
pub mod Lanes
pub mod Fifo
pub mod Accounts
pub mod Workers
pub mod Draining
pub mod Shutdown
mod Examples
use ai_dm.Prelude.{
  ℕ, zero, suc, ◌+◌, Bool, true, false, not, ◌&&◌, Option, none, some, List, [], ◌∷◌, ◌++◌, String,
  if◌then◌else◌, length, leb, ltb, get_or_default,
}
use ai_dm.Prelude.Dict.{Dict, get, put, string_key}

pub record QueuedItem : Type 0 where
  pub future : ℕ
  pub deadline : Option ℕ
  pub label : String

pub record QueueStats : Type 0 where
  pub submitted : ℕ
  pub completed : ℕ
  pub failed : ℕ
  pub timed_out_in_queue : ℕ
  pub backpressure_rejects : ℕ

-- Where the loop of a worker stands: before its test, in `queue.get`, in `item.fn()`, or returned.
pub data Worker : Type 0 where
  testing waiting stopped : Worker
  running : QueuedItem → Worker

pub record Lane : Type 0 where
  pub pending : List QueuedItem
  pub worker : Worker

abbrev pub new_lane : Lane
new_lane = record { pending = []; worker = testing }

pub data Outcome : Type 0 where
  completed failed timed_out : Outcome

pub record Ticket : Type 0 where
  pub scope_key : String
  pub future : ℕ

pub record CommandQueue : Type 0 where
  pub max_pending : ℕ
  pub default_timeout : ℕ
  pub shut : Bool
  pub lanes : Dict String Lane
  pub next_future : ℕ
  pub accepted : List Ticket
  pub resolved : List Ticket
  pub stats : QueueStats

unfoldable pub init : ℕ → ℕ → CommandQueue
init max_pending default_timeout = record {
  max_pending = max_pending;
  default_timeout = default_timeout;
  shut = false;
  lanes = [];
  next_future = 0;
  accepted = [];
  resolved = [];
  stats = record {
    submitted = 0;
    completed = 0;
    failed = 0;
    timed_out_in_queue = 0;
    backpressure_rejects = 0;
  };
}

unfoldable pub lane_of : CommandQueue → String → Lane
lane_of q scope_key = get_or_default new_lane (get q.lanes scope_key)

-- `queue.Queue` takes a maximal size of 0 for none.
unfoldable pub is_full : ℕ → Lane → Bool
is_full max_pending lane = ltb 0 max_pending && leb max_pending (length lane.pending)

pub data Submission : Type 0 where
  handed_out : ℕ → Submission
  shut_down queue_full : Submission

-- A queue and its worker are there from the first command of a scope on.
unfoldable pub reject : CommandQueue → String → CommandQueue
reject q scope_key = record q {
  lanes = put q.lanes scope_key (lane_of q scope_key);
  stats = record (q.stats) { backpressure_rejects = q.stats.backpressure_rejects + 1 };
}

unfoldable pub item_for : CommandQueue → ℕ → String → ℕ → QueuedItem
item_for q now label timeout = record {
  future = q.next_future;
  deadline = if ltb 0 timeout then some (now + timeout) else none;
  label = label;
}

unfoldable pub accept : CommandQueue → String → QueuedItem → CommandQueue
accept q scope_key item =
    let lane = lane_of q scope_key in
    record q {
      lanes = put q.lanes scope_key (record lane { pending = lane.pending ++ item ∷ [] });
      next_future = q.next_future + 1;
      accepted = q.accepted ++ record { scope_key = scope_key; future = item.future } ∷ [];
      stats = record (q.stats) { submitted = q.stats.submitted + 1 };
    }

-- `_enqueue`
unfoldable pub enqueue : CommandQueue → ℕ → String → String → ℕ → CommandQueue × Submission
unfolding is_full reject accept item_for
enqueue q now scope_key label timeout =
    if q.shut
    then (q, shut_down)
    else if is_full q.max_pending (lane_of q scope_key)
    then (reject q scope_key, queue_full)
    else (accept q scope_key (item_for q now label timeout), handed_out q.next_future)

-- `kind` is the type in the payload.
unfoldable pub submit :
    CommandQueue → ℕ → Option String → String → Option ℕ → CommandQueue × Submission
unfolding enqueue
submit q now kind scope_key timeout =
    enqueue q now scope_key (get_or_default "command" kind)
      (get_or_default q.default_timeout timeout)

-- `label` is the text that counts the commands of the batch.
unfoldable pub submit_batch :
    CommandQueue → ℕ → String → String → Option ℕ → CommandQueue × Submission
unfolding enqueue
submit_batch q now label scope_key timeout =
    enqueue q now scope_key label (get_or_default q.default_timeout timeout)

unfoldable pub count_outcome : QueueStats → Outcome → QueueStats
count_outcome s completed = record s { completed = s.completed + 1 }
count_outcome s failed = record s { failed = s.failed + 1 }
count_outcome s timed_out = record s { timed_out_in_queue = s.timed_out_in_queue + 1 }

-- `future.set_result` or `set_exception`; the lane is the one that the worker goes on with.
unfoldable pub resolve : CommandQueue → String → QueuedItem → Outcome → Lane → CommandQueue
unfolding count_outcome
resolve q scope_key item outcome lane = record q {
  lanes = put q.lanes scope_key lane;
  resolved = q.resolved ++ record { scope_key = scope_key; future = item.future } ∷ [];
  stats = count_outcome q.stats outcome;
}

unfoldable pub move_worker : CommandQueue → String → Lane → Worker → CommandQueue
move_worker q scope_key lane worker = record q {
  lanes = put q.lanes scope_key (record lane { worker = worker });
}

unfoldable pub is_late : ℕ → Option ℕ → Bool
is_late now none = false
is_late now (some deadline) = ltb deadline now

-- `queue.get` returns the front item; one whose deadline has passed is not dispatched.
unfoldable pub take_front : CommandQueue → ℕ → String → List QueuedItem → CommandQueue
unfolding is_late resolve move_worker
take_front q now scope_key [] =
    move_worker q scope_key (record { pending = []; worker = waiting }) testing
take_front q now scope_key (item ∷ rest) =
    if is_late now item.deadline
    then resolve q scope_key item timed_out (record { pending = rest; worker = testing })
    else move_worker q scope_key (record { pending = rest; worker = waiting }) (running item)

-- One step of a worker, by the point where it stands.
unfoldable pub worker_step :
    CommandQueue → ℕ → String → Outcome → List QueuedItem → Worker → CommandQueue
unfolding move_worker take_front resolve
worker_step q now scope_key reply pending testing =
    move_worker q scope_key (record { pending = pending; worker = testing })
      (if q.shut then stopped else waiting)
worker_step q now scope_key reply pending waiting = take_front q now scope_key pending
worker_step q now scope_key reply pending (running item) =
    resolve q scope_key item reply (record { pending = pending; worker = testing })
worker_step q now scope_key reply pending stopped = q

-- Of the answers only those of `item.fn()` are left to the client.
pub data Reply : Type 0 where
  answered raised : Reply

abbrev pub outcome_of : Reply → Outcome
outcome_of answered = completed
outcome_of raised = failed

pub data Event : Type 0 where
  submitting : ℕ → Option String → String → Option ℕ → Event
  submitting_batch : ℕ → String → String → Option ℕ → Event
  working : ℕ → String → Reply → Event
  shutting_down : Event

-- A worker that was never started makes no step.
unfoldable pub work : CommandQueue → ℕ → String → Reply → Option Lane → CommandQueue
unfolding worker_step
work q now scope_key reply none = q
work q now scope_key reply (some lane) =
    worker_step q now scope_key (outcome_of reply) lane.pending lane.worker

unfoldable pub step : Event → CommandQueue → CommandQueue
unfolding submit submit_batch work
step (submitting now kind scope_key timeout) q = (submit q now kind scope_key timeout).0
step (submitting_batch now label scope_key timeout) q =
    (submit_batch q now label scope_key timeout).0
step (working now scope_key reply) q = work q now scope_key reply (get q.lanes scope_key)
step shutting_down q = record q { shut = true }

unfoldable pub run : List Event → CommandQueue → CommandQueue
unfolding step
run [] q = q
run (e ∷ es) q = run es (step e q)

unfoldable pub queue_depth : CommandQueue → String → ℕ
queue_depth q scope_key = length (lane_of q scope_key).pending
