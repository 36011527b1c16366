-- ===== src/Async/Called.antt =====
-- `run(task, args...)` of include/async/async.h, which runs an asynchronous function and gives its
-- result. `start` is the call of the function, and is given what is done with the future that it
-- returns. The local variable `f` of `run`, which the worker captures by reference, lies in front of the
-- program's data: `none` is the null pointer.
pub mod Calls
pub mod Returns
pub mod Poisoned
use asyncxx.Base.{ℕ, List, [], Option, none, some}
use asyncxx.Future.{Ref, find}
use asyncxx.Task.{Shared, Program, finish, act, manage}
use asyncxx.Loop.Types.{Config, EventLoop, Outcome, null_task}
use asyncxx.Loop.Types
use asyncxx.Async.{run, await, rethrow}
use asyncxx.Async.Main.{Ending, uncaught, broken, read_result}

-- The program's data with the variable.
abbrev pub Local {κ} : Type κ → Type κ
Local U = Option Ref × U

module _ {ℓ κ} {V : Type ℓ} {U : Type κ} where
  -- `f = ...;`
  abbrev pub keep : Option Ref → Shared V (Local U) → Shared V (Local U)
  keep f s = record { heap = s.heap; user = (f, s.user.1) }

  -- The worker: an exception of the future is the main task's.
  unfoldable pub run_worker :
      ((Ref → Program V (Local U)) → Program V (Local U)) → Program V (Local U)
  unfolding await rethrow
  run_worker start =
      start (λ f. act (λ _ s. keep (some f) s) (λ _ _. manage f (await f (rethrow (λ _. finish)))))

  -- `return f->get();`
  abbrev pub read_local : EventLoop V (Local U) → Option Ref → Ending V (Local U)
  read_local m none = broken null_task
  read_local m (some f) = read_result m (find f m.shared.heap)

  abbrev pub after_task : Option (Outcome (EventLoop V (Local U))) → Option (Ending V (Local U))
  after_task none = none
  after_task (some (Outcome.ok m)) = some (read_local m m.shared.user.0)
  after_task (some (Outcome.raised e m)) = some (uncaught e m)
  after_task (some (Outcome.fault x)) = some (broken x)

  module _ (c : Config) where
    -- `run(task, args...)`; `none` as for `run`.
    unfoldable pub run_result :
        ℕ
        → ((Ref → Program V (Local U)) → Program V (Local U))
        → EventLoop V (Local U)
        → Option (Ending V (Local U))
    unfolding run run_worker
    run_result fuel start l =
        after_task (run c fuel (run_worker start) (record l { shared = keep none l.shared }))
