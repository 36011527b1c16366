-- ===== src/Tests/Pools.antt =====
-- Thread pools at work.
use asyncxx.Base.{ℕ, ◌≡◌, refl, List, [], ◌∷◌, ◌++◌, some, arith, inr}
use asyncxx.ThreadPool.{
  Pool, Action, push, notify_worker, check, sleep, end_task, clear_queue, set_finish,
  notify_workers, join, steps, start, returned, joining, asleep, at_top, not_called, gone,
}
use asyncxx.ThreadPool.Fifo.{history, steps-history}
use asyncxx.ThreadPool.Draining.{Draining, any_gone, wait_all_lem}
use asyncxx.Flags.{get_flag, set_flag}
use asyncxx.ThreadPool.Stuck.{IsStuck, steps-IsStuck}

-- Two workers: one falls asleep and is woken by the first task.
abbrev busy : List (Action ℕ)
busy =
    check 0
    ∷ sleep 0
    ∷ push 7
    ∷ notify_worker 0
    ∷ push 8
    ∷ check 1
    ∷ check 0
    ∷ notify_worker 1
    ∷ end_task 1
    ∷ push 9
    ∷ []

abbrev after_busy : Pool ℕ
after_busy = record {
  flags = 0;
  queue = 9 ∷ [];
  threads = at_top ∷ at_top ∷ [];
  caller = not_called;
  to_notify = 1;
  started = 7 ∷ 8 ∷ [];
}

busy_run : steps (busy ++ end_task 0 ∷ []) (start 2) ≡ some after_busy
unfolding steps start get_flag
busy_run = refl

steps-history_example : history after_busy ≡ 7 ∷ 8 ∷ 9 ∷ []
unfolding start
steps-history_example =
    steps-history (busy ++ end_task 0 ∷ []) (start 2) after_busy (ground arith) busy_run

-- `waitAll` on the pool above.
abbrev stop : List (Action ℕ)
stop = check 0 ∷ set_finish ∷ check 1 ∷ end_task 0 ∷ notify_workers ∷ check 0 ∷ join ∷ []

abbrev stopped : Pool ℕ
stopped = record {
  flags = 3;
  queue = [];
  threads = [];
  caller = returned;
  to_notify = 1;
  started = 7 ∷ 8 ∷ 9 ∷ [];
}

stop_run : steps stop after_busy ≡ some stopped
unfolding steps get_flag set_flag
stop_run = refl

after_busy-Draining : Draining after_busy
unfolding any_gone get_flag
after_busy-Draining = record {
  byte = omega arith;
  no_terminate = refl;
  drained = inr refl;
  joined = inr (omega arith, refl);
}

wait_all_lem_example : (stopped.queue ≡ []) × (stopped.started ≡ 7 ∷ 8 ∷ 9 ∷ [])
wait_all_lem_example =
    wait_all_lem stop after_busy stopped (ground arith) after_busy-Draining stop_run refl

-- The flag and the notification come between the worker's test and its sleep.
abbrev stuck : Pool ℕ
stuck = record {
  flags = 2;
  queue = [];
  threads = asleep ∷ gone ∷ [];
  caller = joining;
  to_notify = 0;
  started = [];
}

race_run :
    steps (check 0 ∷ set_finish ∷ notify_workers ∷ sleep 0 ∷ check 1 ∷ []) (start 2) ≡ some stuck
unfolding steps start get_flag set_flag
race_run = refl

stuck_run : steps (clear_queue ∷ []) stuck ≡ some stuck
unfolding steps
stuck_run = refl

steps-IsStuck_example : IsStuck 0 stuck
steps-IsStuck_example =
    steps-IsStuck 0 (clear_queue ∷ []) stuck stuck (ground arith)
      (record { sleeper = refl; joins_now = refl; no_notify = refl }) stuck_run
