-- ===== src/Tests/Loops.antt =====
-- The event loop at work, with a number as the program's own data.
use asyncxx.Base.{ℕ, ◌+◌, ◌*◌, ◌≡◌, refl, true, false, [], ◌∷◌, Option, none, some, arith}
use asyncxx.Api.{TaskId, notify_each, Result, ok, err, cancelled}
use asyncxx.Async.Await.{alone, await_hangs}
use asyncxx.Async.Sequential.{Straight, ends, acts, pauses, IsIdle, eval, run-Straight}
use asyncxx.Async.{await, run, task, gather, rethrow, event_wait, notify}
use asyncxx.Future.{Future, save_waiter_at, find, create, complete_at, cancel_at, after_wait, get}
use asyncxx.Loop.Cycle.{add_task, cycle, exec, run_until_completed, modify_at}
use asyncxx.FutureState
use asyncxx.Loop.Cleanup.{clean_up_task, clear}
use asyncxx.Loop.Invariant.{Leaves, cycle-IsValid}
use asyncxx.Loop.Sync.{process_sync, set_main_task, wake, wake_each}
use asyncxx.Loop.Types.{EventLoop, Outcome, new}
use asyncxx.Loop.Tags.{TagsValid}
use asyncxx.StackPool.{new as no_stacks}
use asyncxx.Loop.Valid.{IsValid, add_task-IsValid}
use asyncxx.Loop.Wakeups.{process_sync_lem}
use asyncxx.Task.{State, Task, Program, Shared, finish, act, yields, waits, exits}
use asyncxx.Tests.Fixtures.{config}

bump_user : TaskId → Shared ℕ ℕ → Shared ℕ ℕ
bump_user id s = record { heap = s.heap; user = s.user + 1 }

-- `async_yield` of src/tests/async.cc, counting on both sides of the `yield`.
abbrev yielder : Program ℕ ℕ
yielder = act bump_user (λ id s. yields (act bump_user (λ id s. finish)))

pub new-IsIdle : IsIdle {V = ℕ} {U = ℕ} (new 0 0)
unfolding new
new-IsIdle = record {
  running = refl;
  no_task = refl;
  at_front = refl;
  none_to_start = refl;
  none_to_wake = refl;
}

yielder-Straight : Straight yielder
unfolding bump_user
yielder-Straight = acts (λ id s. refl) (λ id s. pauses (acts (λ id s. refl) (λ id s. ends)))

run-Straight_example :
    (m : EventLoop ℕ ℕ) × (run config 4 yielder (new 0 0) ≡ some (Outcome.ok m))
    × (m.shared
        ≡ eval 0 yielder (record { heap = record { futures = []; to_wake = [] }; user = 0 }))
    × IsIdle m
    × (m.task_id_counter ≡ 1)
unfolding new
run-Straight_example =
    run-Straight config yielder 4 (new 0 0) yielder-Straight new-IsIdle (omega arith)

-- A loop with the yielder to start.
started : EventLoop ℕ ℕ
started = (add_task config yielder [] none (new 0 0)).1

empty-TagsValid : TagsValid 0 no_stacks []
empty-TagsValid = record {
  pool = record { free_apart = tt; used_apart = tt; separate = tt };
  below = tt;
  owned = tt;
  unlike = tt;
}

started-IsValid : IsValid started
unfolding started new
started-IsValid =
    (add_task-IsValid config yielder [] none (new 0 0) empty-TagsValid (omega arith)).0

cycle-IsValid_example : Leaves config IsValid (cycle config started)
unfolding started new add_task
cycle-IsValid_example = cycle-IsValid config started started-IsValid refl

-- Two tasks that wait, of which one is to be woken, and one that is to start.
waiter : TaskId → State → Task ℕ ℕ
waiter id s = record {
  state = s;
  id = id;
  name = [];
  worker = finish;
  ctx = some finish;
  stack = (65536 * id + 1, 65536);
  result_future = none;
}

notified : EventLoop ℕ ℕ
unfolding waiter
notified = record {
  running = true;
  tasks = waiter 3 State.wait ∷ waiter 5 State.wait ∷ [];
  current = 1;
  task_id_counter = 8;
  main_task_id = some 3;
  to_start = waiter 7 State.init ∷ [];
  shared = record { heap = record { futures = []; to_wake = 5 ∷ [] }; user = 0 };
  stacks = no_stacks;
}

process_sync_lem_example :
    process_sync notified
    ≡ Outcome.ok (record {
      running = true;
      tasks = waiter 3 State.wait ∷ waiter 5 State.exec ∷ notified.to_start;
      current = notified.current;
      task_id_counter = notified.task_id_counter;
      main_task_id = notified.main_task_id;
      to_start = [];
      shared = record {
        heap = record { futures = notified.shared.heap.futures; to_wake = [] };
        user = notified.shared.user;
      };
      stacks = notified.stacks;
    })
unfolding notified
process_sync_lem_example = process_sync_lem notified (((λ e. omega arith), tt), (tt, tt))

-- A future that was cancelled before anybody awaited it.
abbrev gone : Future ℕ
gone = record { state = record { completed = false; cancelled = true; waiters = [] }; result = 0 }

abbrev lost : EventLoop ℕ ℕ
unfolding new
lost = record (new 0 0) {
  shared = record { heap = record { futures = gone ∷ []; to_wake = [] }; user = 0 };
}

abbrev awaiting : Task ℕ ℕ
awaiting = record {
  state = State.exec;
  id = 0;
  name = [];
  worker = finish;
  ctx = some (await 0 (rethrow (λ _. finish)));
  stack = (1, 65536);
  result_future = none;
}

await_hangs_example : run_until_completed config 1000 (alone config awaiting lost) ≡ none
unfolding find new
await_hangs_example =
    await_hangs config 1000 awaiting 0 (rethrow (λ _. finish)) lost gone refl refl refl refl refl

abbrev told : Result ℕ → ℕ
told (ok v) = v
told (err cancelled) = 1000
told (err _) = 2000

abbrev note : Result ℕ → Program ℕ ℕ
note r = act (λ self s. record { heap = s.heap; user = told r }) (λ self s. finish)

abbrev outcome : Option (Outcome (EventLoop ℕ ℕ)) → Option (ℕ × ℕ)
outcome (some (Outcome.ok m)) = some (m.shared.user, m.task_id_counter)
outcome _ = none

-- Thirty cycles of a main task that is the given worker.
run_main : Program ℕ ℕ → Option (ℕ × ℕ)
unfolding run cycle exec run_until_completed task await gather rethrow event_wait notify add_task
    new set_main_task wake wake_each modify_at clean_up_task clear find create save_waiter_at
    complete_at cancel_at get after_wait FutureState.save_waiter FutureState.complete
    FutureState.cancel notify_each
run_main p = outcome (run config 30 p (new 0 0))

-- `async_exit` of src/tests/async.cc: a task that exits cancels its future, and the exception
-- reaches the task that awaits it.
exit_cancels : run_main (task 0 (λ k. exits (k 5)) (λ f. await f note)) ≡ some (1000, 2)
unfolding run_main
exit_cancels = refl

-- `async_await_val` of src/tests/async.cc.
await_value : run_main (task 0 (λ k. yields (k 42)) (λ f. await f note)) ≡ some (42, 2)
unfolding run_main
await_value = refl

-- `async_wait_notify` of src/tests/async.cc: task 1 waits, and task 2 wakes it.
wait_notify :
    run_main (
      task 0
        (λ k. waits (k 3))
        (λ f. task 0 (λ k. notify 1 (k 4)) (λ g. gather (f ∷ g ∷ []) (await f note))))
    ≡ some (3, 3)
unfolding run_main
wait_notify = refl
