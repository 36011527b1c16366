-- ===== src/Loop/Sync.antt =====
-- Finding, waking and starting tasks: `getTask`, `notifyReady`, `setMainTask` and `processSync` of
-- include/async/loop.h.
use asyncxx.Base.{if◌then◌else◌, ◌==◌, List, [], ◌∷◌, ◌++◌, Option, none, some}
use asyncxx.Api.{TaskId}
use asyncxx.Task.{State, Task}
use asyncxx.Loop.Types.{EventLoop, Outcome, ok, fault, null_task}
use mathlib.Core.Option

module _ {ℓ κ} {V : Type ℓ} {U : Type κ} where
  -- `getTask(id)`, `none` for `nullptr`.
  unfoldable pub get_task : TaskId → List (Task V U) → Option (Task V U)
  get_task id [] = none
  get_task id (t ∷ ts) = if t.id == id then some t else get_task id ts

  -- `getTask(id)->state = State::EXEC`
  unfoldable pub wake : TaskId → List (Task V U) → Option (List (Task V U))
  wake id [] = none
  wake id (t ∷ ts) =
      let rest = Option.map (λ us. t ∷ us) (wake id ts) in
      if t.id == id then some (record t { state = State.exec } ∷ ts) else rest

  -- `for (id : to_wake) getTask(id)->state = State::EXEC;`
  unfoldable pub wake_each : List TaskId → List (Task V U) → Option (List (Task V U))
  wake_each [] ts = some ts
  wake_each (id ∷ ids) ts = elim (wake id ts) [ none ↦ none | some us ↦ wake_each ids us ]

  -- The tasks that were to start stand last, and both lists of `sync` are empty.
  abbrev pub synced : List (Task V U) → EventLoop V U → EventLoop V U
  synced ts l = record l {
    tasks = ts ++ l.to_start;
    to_start = [];
    shared = record {
      heap = record { futures = l.shared.heap.futures; to_wake = [] };
      user = l.shared.user;
    };
  }

  unfoldable pub process_sync : EventLoop V U → Outcome (EventLoop V U)
  process_sync l = elim (wake_each l.shared.heap.to_wake l.tasks) [
    | none ↦ fault null_task
    | some ts ↦ ok (synced ts l)
  ]

  unfoldable pub set_main_task : TaskId → EventLoop V U → EventLoop V U
  set_main_task id l = record l { main_task_id = some id }

  -- `notifyReady(id)`, by `async::notify`.
  unfoldable pub notify_ready : TaskId → EventLoop V U → EventLoop V U
  notify_ready id l = record l {
    shared = record {
      heap = record { futures = heap.futures; to_wake = heap.to_wake ++ id ∷ [] };
      user = l.shared.user;
    };
  }
    where
      open l use {shared.{heap}}
