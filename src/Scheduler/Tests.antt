-- ===== src/Scheduler/Tests.antt =====
-- Concrete runs of the scheduler, and the theorems at inputs that meet their hypotheses.
use emergence_kernel.Prelude.{◌≡◌, refl, arith, none, some, [], ◌∷◌, pos}
use emergence_kernel.ListHead
use emergence_kernel.ListHead.{Links}
use emergence_kernel.Scheduler.{
  ready, running, blocked, Sched, rq_head, add_thread, pick_next, schedule, thread_yield, tick,
  put_back, switch_to, choose_next,
}
use emergence_kernel.Scheduler.Queue.{Queued, Detached}
use emergence_kernel.Scheduler.Switch.{Switched, schedule-runnable}
use emergence_kernel.Scheduler.Yield.{thread_yield-keeps}

abbrev blank : Links
blank = record { next = λ p. p; prev = λ p. p }

-- Threads 1024 and 2048 wait, 4096 runs on CPU 0, and 512 is the idle thread of CPU 0.
abbrev waiting_links : Links
unfolding ListHead.push_back
waiting_links = ListHead.push_back (ListHead.push_back blank rq_head 1024) rq_head 2048

abbrev busy : Sched
busy = record {
  links = waiting_links;
  threads = λ t. record { state = running; cpu = pos 0 };
  nr_running = pos 2;
  idle_threads = λ cpu. some 512;
  current = λ cpu. some 4096;
  ticks = 4;
  nr_active = 0;
  switches = [];
}

-- The same with thread 4096 blocked.
abbrev stuck : Sched
stuck = record busy { threads = λ t. record { state = blocked; cpu = pos 0 } }

-- Nobody waits.
abbrev quiet : Sched
quiet = record busy { links = blank; nr_running = pos 0 }

-- Nobody waits and the idle thread runs.
abbrev idle : Sched
idle = record quiet { current = λ cpu. some 512 }

busy-Queued : Queued busy (1024 ∷ 2048 ∷ [])
unfolding ListHead.push_back
busy-Queued = record {
  linked = (refl, refl, (refl, refl, (refl, refl)));
  apart = omega arith;
  distinct = omega arith;
}

busy-Detached : Detached busy 4096
unfolding ListHead.push_back
busy-Detached = record {
  self = record { linked = (refl, refl); apart = tt; distinct = tt };
  no_head = omega arith;
}

quiet-Queued : Queued quiet []
quiet-Queued = record { linked = (refl, refl); apart = tt; distinct = tt }

-- Three detached threads are added to an empty queue: the count is 3, and one can be taken.
three_added : Sched
three_added = add_thread (add_thread (add_thread quiet (some 1024)) (some 2048)) (some 4096)

three_added_count : three_added.nr_running ≡ pos 3
unfolding three_added add_thread
three_added_count = refl

three_added_first : (pick_next three_added).0 ≡ some 4096
unfolding three_added add_thread pick_next ListHead.push_back ListHead.pop_front ListHead.empty
three_added_first = refl

three_added_second : (pick_next (pick_next three_added).1).0 ≡ none
unfolding three_added add_thread pick_next ListHead.push_back ListHead.pop_front ListHead.empty
    ListHead.remove
three_added_second = refl

fifth_tick : (tick busy 0).current 0 ≡ some 1024
unfolding tick schedule choose_next pick_next put_back add_thread switch_to ListHead.push_back
    ListHead.pop_front ListHead.empty ListHead.remove
fifth_tick = refl

schedule-runnable_example :
    Switched busy (schedule busy 0) 0 4096 1024 (4096 ∷ [])
    × ((schedule busy 0).nr_running ≡ pos 2)
    × (((schedule busy 0).threads 4096).state ≡ ready)
schedule-runnable_example =
    schedule-runnable busy 0 4096 1024 (2048 ∷ []) busy-Queued refl refl busy-Detached (omega arith)

thread_yield-keeps_example :
    ((thread_yield busy 0).current 0 ≡ some 4096)
    × ((thread_yield busy 0).switches ≡ [])
    × Queued (thread_yield busy 0) []
    × ((thread_yield busy 0).nr_running ≡ pos 2)
    × (((thread_yield busy 0).threads 4096).state ≡ ready)
thread_yield-keeps_example = thread_yield-keeps busy 0 4096 refl busy-Detached
