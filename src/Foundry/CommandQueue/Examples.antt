-- ===== src/Foundry/CommandQueue/Examples.antt =====
-- Runs of foundry/command_queue.py.
use ai_dm.Prelude.{◌≤◌, ◌≡◌, refl, none, some, List, [], ◌∷◌, ◌++◌, arith}
use ai_dm.Prelude.Dict.{get, put}
use ai_dm.Foundry.CommandQueue.{
  CommandQueue, Event, submitting, submitting_batch, working, shutting_down, answered, raised,
  queue_full, init, run, submit, queue_depth, lane_of,
}
use ai_dm.Foundry.CommandQueue.Lanes.{futures_of, owed}
use ai_dm.Foundry.CommandQueue.Fifo.{run-InOrder}
use ai_dm.Foundry.CommandQueue.Accounts.{queue_depth-bounded}
use ai_dm.Foundry.CommandQueue.Draining.{run-settles, steps_of}
use ai_dm.Foundry.CommandQueue.Shutdown.{run-Abandons, Abandons}

-- Two commands of one scene and one of another; the first of them is sent.
abbrev busy : List Event
busy =
    submitting 0 (some "move_token") "scene:a" none
    ∷ submitting 1 none "scene:b" (some 0)
    ∷ submitting_batch 2 "batch[2]" "scene:a" none
    ∷ working 3 "scene:a" answered
    ∷ working 4 "scene:a" answered
    ∷ []

-- The worker of the first scene goes on for long enough.
abbrev served : List Event
served =
    working 5 "scene:a" answered
    ∷ working 6 "scene:a" answered
    ∷ working 7 "scene:b" answered
    ∷ working 30 "scene:a" answered
    ∷ working 31 "scene:a" raised
    ∷ working 32 "scene:a" raised
    ∷ working 33 "scene:a" raised
    ∷ working 34 "scene:a" raised
    ∷ []

-- The queue is shut while a command of the scene runs and another one waits.
abbrev cut_off : List Event
cut_off = busy ++ shutting_down ∷ working 5 "scene:a" answered ∷ working 6 "scene:a" answered ∷ []

abbrev closed : CommandQueue
closed = run cut_off (init 4 10)

late_resolved : futures_of "scene:a" (run served (run busy (init 4 10))).resolved ≡ 0 ∷ 2 ∷ []
unfolding run init futures_of get put lane_of
late_resolved = refl

late_counted : (run served (run busy (init 4 10))).stats.timed_out_in_queue ≡ 1
unfolding run init get put lane_of
late_counted = refl

refused_when_full : (submit (run busy (init 1 10)) 5 none "scene:b" none).1 ≡ queue_full
unfolding run init submit get put lane_of
refused_when_full = refl

run-InOrder_example :
    futures_of "scene:a" (run busy (init 4 10)).accepted
    ≡ futures_of "scene:a" (run busy (init 4 10)).resolved
      ++ owed (lane_of (run busy (init 4 10)) "scene:a")
run-InOrder_example = run-InOrder 4 10 busy "scene:a"

queue_depth-bounded_example : queue_depth (run busy (init 1 10)) "scene:a" ≤ 1
queue_depth-bounded_example = queue_depth-bounded 1 10 busy "scene:a" (omega arith)

run-settles_example :
    futures_of "scene:a" (run served (run busy (init 4 10))).resolved
    ≡ futures_of "scene:a" (run served (run busy (init 4 10))).accepted
unfolding run init owed lane_of get put steps_of
run-settles_example =
    run-settles 4 10 busy served "scene:a" refl
      (refl, (refl, (refl, (refl, (refl, (refl, (refl, (refl, tt)))))))) (omega arith)

run-Abandons_example :
    Abandons "scene:a"
      (lane_of closed "scene:a").pending
      (futures_of "scene:a" closed.resolved)
      (run served closed)
unfolding run init lane_of get put
run-Abandons_example =
    run-Abandons served closed "scene:a" (lane_of closed "scene:a").pending (refl, refl)
