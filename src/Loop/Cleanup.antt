-- ===== src/Loop/Cleanup.antt =====
-- `cleanUpTask`, `checkOrphanedTasks` and `clear` of include/async/loop.h.
use asyncxx.Base.{
  Bool, true, false, ◌&&◌, ◌||◌, not, if◌then◌else◌, ◌==◌, List, [], ◌∷◌, Option, none, some,
  erase_at,
}
use asyncxx.Api.{TaskId, main_task_exited}
use asyncxx.Future.{Ref, Heap, find, cancel_at}
use asyncxx.StackPool.{StackPool, free as free_stack}
use asyncxx.Task.{State, Task}
use asyncxx.Loop.Types.{EventLoop, Outcome, ok, raised, is_empty}

abbrev pub is_done : State → Bool
is_done State.done = true
is_done _ = false

-- `main_task_id != INVALID_TASK_ID && main_task_id == task->id`
unfoldable pub is_main : TaskId → Option TaskId → Bool
is_main id none = false
is_main id (some m) = m == id

-- `if (task->result_future && !task->result_future->is_completed()) task->result_future->cancel();`
unfoldable pub cancel_pending {ℓ} : {V : Type ℓ} → Option Ref → Heap V → Heap V
cancel_pending none h = h
cancel_pending (some r) h = elim (find r h) [
  | none ↦ h
  | some f ↦ if f.state.completed then h else cancel_at r h
]

module _ {ℓ κ} {V : Type ℓ} {U : Type κ} where
  -- `~Task`: the stack goes back to the pool.
  abbrev pub delete_task : Task V U → StackPool → StackPool
  delete_task t p = free_stack t.stack.0 p

  -- `t->state != State::DONE` for some task of the list.
  unfoldable pub unfinished : List (Task V U) → Bool
  unfinished [] = false
  unfinished (t ∷ ts) = not (is_done t.state) || unfinished ts

  unfoldable pub clean_up_task : Task V U → EventLoop V U → Outcome (EventLoop V U)
  unfolding is_main unfinished cancel_pending
  clean_up_task t l =
      let rest = erase_at l.tasks l.current in
      if is_main t.id l.main_task_id && (unfinished l.tasks || unfinished l.to_start)
      then raised main_task_exited l
      else ok (record l {
        shared = record {
          heap = cancel_pending t.result_future l.shared.heap;
          user = l.shared.user;
        };
        stacks = delete_task t l.stacks;
        tasks = rest;
        running = if is_empty rest then false else l.running;
      })

  unfoldable pub delete_each : List (Task V U) → StackPool → StackPool
  delete_each [] p = p
  delete_each (t ∷ ts) p = delete_each ts (delete_task t p)

  -- The lists of `sync` are left as they are.
  unfoldable pub clear : EventLoop V U → EventLoop V U
  unfolding delete_each
  clear l = record l {
    stacks = delete_each l.tasks l.stacks;
    tasks = [];
    current = 0;
    running = true;
    main_task_id = none;
  }
