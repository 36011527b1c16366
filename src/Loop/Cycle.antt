-- ===== src/Loop/Cycle.antt =====
-- `addTask`, `cycle` and `runUntilCompleted` of include/async/loop.h. `exec` runs a worker up to its
-- next suspension: it stands for the jumps to the task's stack and back.
use asyncxx.Base.{
  ℕ, zero, suc, ◌+◌, if◌then◌else◌, ◌==◌, List, [], ◌∷◌, ◌++◌, Option, none, some, length,
  get_elem?,
}
use asyncxx.Api.{TaskId}
use asyncxx.Future.{Ref}
use asyncxx.StackPool.{alloc}
use asyncxx.Task.{
  Name, State, Program, finish, throw, crash, act, spawn, manage, yields, waits, exits, Task,
  default_stack_size,
}
use asyncxx.Loop.Names.{task_name}
use asyncxx.Loop.Types.{
  Config, EventLoop, Outcome, ok, raised, fault, no_current_task, stale_jump, dangling, ◌>>=◌, Stop,
  returned, threw, crashed, suspended,
}
use asyncxx.Loop.Sync.{process_sync}
use asyncxx.Loop.Cleanup.{clean_up_task}

module _ {ℓ κ} {V : Type ℓ} {U : Type κ} where
  -- A write through `getCurrentTask()`.
  unfoldable pub modify_at : ℕ → (Task V U → Task V U) → List (Task V U) → List (Task V U)
  modify_at i f [] = []
  modify_at zero f (t ∷ ts) = f t ∷ ts
  modify_at (suc i) f (t ∷ ts) = t ∷ modify_at i f ts

  abbrev pub modify_current : (Task V U → Task V U) → EventLoop V U → EventLoop V U
  modify_current f l = record l { tasks = modify_at l.current f l.tasks }

  abbrev pub set_state : State → EventLoop V U → EventLoop V U
  set_state s l = modify_current (λ t. record t { state = s }) l

  abbrev pub advance : EventLoop V U → EventLoop V U
  advance l = record l { current = l.current + 1 }

  abbrev pub finished : EventLoop V U → EventLoop V U
  finished l = modify_current (λ t. record t { state = State.done; ctx = none }) l

  -- `Task(id, worker, name, future)`, with the stack that the pool gave.
  abbrev pub new_task : TaskId → Program V U → Name → Option Ref → ℕ → Task V U
  new_task id fn name future data_ = record {
    state = State.init;
    id = id;
    name = name;
    worker = fn;
    ctx = none;
    stack = (data_, default_stack_size);
    result_future = future;
  }

  module _ (c : Config) where
    unfoldable pub add_task :
        Program V U → Name → Option Ref → EventLoop V U → TaskId × EventLoop V U
    add_task fn name future l =
        let id = l.task_id_counter in
        let (data_, stacks) = alloc c.allocator default_stack_size l.stacks in
        let t = new_task id fn (task_name name id) future data_ in
        (
          id,
          record l { task_id_counter = id + 1; to_start = l.to_start ++ t ∷ []; stacks = stacks },
        )

    -- The current task runs up to its next suspension, or to its end.
    unfoldable pub exec : TaskId → Program V U → EventLoop V U → EventLoop V U × Stop V U
    unfolding add_task
    exec self finish l = (l, returned)
    exec self (throw e) l = (l, threw e)
    exec self crash l = (l, crashed)
    exec self (act f k) l = exec self (k self l.shared) (record l { shared = f self l.shared })
    exec self (spawn name future fn k) l =
        let (id, l') = add_task fn name future l in exec self (k id) l'
    exec self (manage r k) l =
        exec self k (modify_current (λ t. record t { result_future = some r }) l)
    exec self (yields k) l = (l, suspended k)
    exec self (waits k) l = (set_state State.wait l, suspended k)
    exec self (exits k) l = (set_state State.done l, suspended k)

    -- What `cycle` does after a slice: a worker that returned or threw is `DONE` and stays the current
    -- task, and one that suspended gives way to the next.
    unfoldable pub after_slice : EventLoop V U × Stop V U → Outcome (EventLoop V U)
    after_slice (l, returned) = ok (finished l)
    after_slice (l, threw e) =
        if c.continue_on_task_exc then ok (finished l) else raised e (finished l)
    after_slice (l, crashed) = fault dangling
    after_slice (l, suspended k) = ok (advance (modify_current (λ t. record t { ctx = some k }) l))

    -- `longjmp(task->ctx, 1)`
    unfoldable pub resume : Option (Program V U) → TaskId → EventLoop V U → Outcome (EventLoop V U)
    unfolding exec after_slice
    resume none id l = fault stale_jump
    resume (some k) id l = after_slice (exec id k l)

    unfoldable pub run_task : State → Task V U → EventLoop V U → Outcome (EventLoop V U)
    unfolding resume
    run_task State.uninit t l = ok (advance l)
    run_task State.init t l = after_slice (exec t.id t.worker (set_state State.exec l))
    run_task State.exec t l = resume t.ctx t.id l
    run_task State.wait t l = ok (advance l)
    run_task State.done t l = clean_up_task t l

    -- Of `tasks[current]`; `none` is an access past the end.
    unfoldable pub run_found : Option (Task V U) → EventLoop V U → Outcome (EventLoop V U)
    unfolding run_task
    run_found none l = fault no_current_task
    run_found (some t) l = run_task t.state t l

    -- After the last task it is the first one's turn.
    unfoldable pub schedule : EventLoop V U → Outcome (EventLoop V U)
    unfolding run_found
    schedule l =
        let i = if l.current == length l.tasks then 0 else l.current in
        run_found (get_elem? l.tasks i) (record l { current = i })

    unfoldable pub cycle : EventLoop V U → Outcome (EventLoop V U)
    unfolding schedule process_sync
    cycle l = process_sync l >>= schedule

    -- An exception leaves the loop of `runUntilCompleted`.
    abbrev pub then_run :
        (EventLoop V U → Option (Outcome (EventLoop V U)))
        → Outcome (EventLoop V U)
        → Option (Outcome (EventLoop V U))
    then_run go (ok l) = go l
    then_run go (raised e l) = some (raised e l)
    then_run go (fault x) = some (fault x)

    -- `none` is a loop that has not ended after `fuel` cycles.
    unfoldable pub run_until_completed : ℕ → EventLoop V U → Option (Outcome (EventLoop V U))
    run_until_completed zero l = none
    run_until_completed (suc fuel) l =
        let rest = then_run (run_until_completed fuel) (cycle l) in
        if l.running then rest else some (ok l)
