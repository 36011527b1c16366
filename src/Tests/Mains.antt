-- ===== src/Tests/Mains.antt =====
-- `async_main` with a number as the program's own data.
use asyncxx.Base.{refl, true, none, ℕ, ◌+◌, ◌≡◌, some, arith}
use asyncxx.Task.{Program}
use asyncxx.Async.Main.{uncaught, async_task_r, main_returned, async_main}
use asyncxx.Async.Main.Returns.{lift, Block, returns, acts, pauses, body}
use asyncxx.Async.Called.{Local, run_result}
use asyncxx.Async.Called.Poisoned.{throwing, run_result-throws}
use asyncxx.Async.Called.Returns.{run_result_lem}
use asyncxx.Async.Main.Catches.{guarding, async_main-throws}
use asyncxx.Api.{Result, ok, err, user, cancelled}
use asyncxx.Async.Main.Tasks.{async_main-task}
use asyncxx.Async.{task, await, rethrow, run}
use asyncxx.Async.Sequential.{IsIdle}
use asyncxx.Loop.Types.{Config, Outcome, null_task, EventLoop, new}
use asyncxx.Tests.Fixtures.{config}
use asyncxx.Tests.Loops.{new-IsIdle}

-- Counts on both sides of a `yield` and returns what it counted to.
abbrev pub counter : Block ℕ ℕ
counter = acts (λ u. u + 1) (λ u. pauses (acts (λ u. u + 1) (λ u. returns (u + 41))))

-- In a task that `main` awaits.
async_main-task_example :
    (m : EventLoop ℕ ℕ) × (async_main config 8 0
        (λ k. task 0 (body counter) (λ f. await f (rethrow k)))
        (new 0 0)
      ≡ some (main_returned 42 m))
    × (m.shared.user ≡ 2)
    × IsIdle m
unfolding new
async_main-task_example = async_main-task config counter 8 0 0 (new 0 0) new-IsIdle (omega arith)

-- The handler of `main`: 1000 for an exception of the library, and what was returned otherwise.
abbrev handler : Result ℕ → ℕ
handler (ok v) = v
handler (err e) = 1000

abbrev lenient : Config
lenient = record config { continue_on_task_exc = true }

async_main-throws_example :
    (m : EventLoop ℕ ℕ) × ((async_main lenient 8 0
          (guarding lenient 0 counter (user 7) handler)
          (new 0 0)
        ≡ some (main_returned 1000 m))
      × (m.shared.user ≡ 2)
      × IsIdle m)
unfolding new
async_main-throws_example =
    async_main-throws lenient counter (user 7) handler 8 0 0 (new 0 0) new-IsIdle (omega arith)

abbrev fresh : EventLoop ℕ (Local ℕ)
fresh = new 0 (none, 0)

fresh-IsIdle : IsIdle fresh
unfolding new
fresh-IsIdle = record {
  running = refl;
  no_task = refl;
  at_front = refl;
  none_to_start = refl;
  none_to_wake = refl;
}

run_result_lem_example :
    (m : EventLoop ℕ (Local ℕ)) × (run_result config 8 (async_task_r 0 (body (lift counter))) fresh
      ≡ some (main_returned 42 m))
    × (m.shared.user.1 ≡ 2)
    × IsIdle m
unfolding new
run_result_lem_example = run_result_lem config counter 8 0 fresh fresh-IsIdle (omega arith)

run_result-throws_example :
    (m : EventLoop ℕ (Local ℕ)) × (run_result lenient 8 (throwing lenient 0 counter (user 7)) fresh
      ≡ some (uncaught cancelled m))
    × (m.shared.user.1 ≡ 2)
    × (run lenient 100 Program.finish m ≡ some (Outcome.fault null_task))
unfolding new
run_result-throws_example =
    run_result-throws lenient counter (user 7) 8 99 0 Program.finish fresh refl fresh-IsIdle
      (omega arith)
