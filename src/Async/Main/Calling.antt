-- ===== src/Async/Main/Calling.antt =====
-- `task(fn)->await()` of include/async/async.h and future.h, by the main task, up to the first slice of
-- the inner task.
use asyncxx.Base.{
  List, ℕ, suc, ◌+◌, ◌≡◌, refl, ap, ◌∙◌, true, [], ◌∷◌, none, some, arith, get_elem?-append_self,
}
use asyncxx.Api.{TaskId, Result}
use asyncxx.Future.{Future, Heap, new, create, save_waiter_at, find}
use asyncxx.Future.Laws.{update_self, save_waiter_at-wakes}
use asyncxx.FutureState
use asyncxx.StackPool.{alloc}
use asyncxx.Task.{State, Task, Program, default_stack_size}
use asyncxx.Loop.Types.{Config, EventLoop, Outcome, ◌>>=◌}
use asyncxx.Loop.Cycle.{
  exec, after_slice, add_task, new_task, modify_at, cycle, schedule, run_task, run_until_completed,
}
use asyncxx.Loop.Names.{task_name}
use asyncxx.Loop.Sync.{process_sync, wake_each, set_main_task}
use asyncxx.Async.{with_heap, run_name, task, await}
use asyncxx.Async.Await.{exec-await_waits, woken}
use asyncxx.Async.Sequential.{IsIdle, solo, drive, starting, run_until-cycle, cycle_starts}
use asyncxx.Async.Main.{completing}
use asyncxx.Async.Main.Nested.{Awaited, asleep}
use asyncxx.Async.Main.Pair.{pair, sleeper}

module _ {ℓ} {V : Type ℓ} where
  pub find-create :
      (init : V) (h : Heap V) → find (create init h).0 (create init h).1 ≡ some (new init)
  unfolding find create
  find-create init h = get_elem?-append_self h.futures (new init)

  -- A future that was just created, and that one task waits for.
  pub create-Awaited :
      (init : V) (id : TaskId) (h : Heap V)
      → h.to_wake ≡ []
      → let (r, g) = create init h in Awaited r id (save_waiter_at r id g)
  unfolding create find new save_waiter_at FutureState.save_waiter
  create-Awaited init id h w =
      let (r, g) = create init h in
      let op : Future V → List TaskId → Future V × List TaskId =
        λ f ws. (record f { state = FutureState.save_waiter id f.state }, ws) in
      record {
        future = _;
        found = (update_self r op g (get_elem?-append_self h.futures (new init))).0;
        pending = refl;
        alive = refl;
        waits = refl;
        none_to_wake = save_waiter_at-wakes r id g ∙ w;
      }

module _ {ℓ κ} {V : Type ℓ} {U : Type κ} (c : Config) where
  -- The loop when the outer task has called the inner one and waits, to go on with `p`.
  abbrev pub called : Task V U → Task V U → Program V U → EventLoop V U → EventLoop V U
  called m t p l = record l {
    running = true;
    tasks = sleeper c m p ∷ [];
    current = 1;
    to_start = t ∷ [];
  }

  cycle_inner :
      (m t : Task V U) (p : Program V U) (l : EventLoop V U)
      → t.state ≡ State.init
      → l.shared.heap.to_wake ≡ []
      → cycle c (called m t p l)
        ≡ after_slice c
            (exec c t.id t.worker (pair (sleeper c m p) (record t { state = State.exec }) 1 l))
  unfolding cycle schedule modify_at process_sync wake_each
  cycle_inner m t p l s w =
      ap (λ o. o >>= schedule c) synced_pair
      ∙ ap (λ q. run_task c q t (pair (sleeper c m p) t 1 l)) s
    where
      synced_pair : process_sync (called m t p l) ≡ Outcome.ok (pair (sleeper c m p) t 1 l)
      synced_pair = rw (w) (ground arith)

  -- The first slice of the outer task.
  exec-calls :
      (init : V) (fn : (V → Program V U) → Program V U) (k : Result V → Program V U) (m : Task V U)
      (l : EventLoop V U)
      → let (r, g) = create init l.shared.heap in
        let (p, q) = alloc c.allocator default_stack_size l.stacks in
        let id = l.task_id_counter in
        let t = new_task id (completing r fn) (task_name [] id) (some r) p in
        after_slice c (exec c m.id (task init fn (λ f. await f k)) (solo c m 0 l))
        ≡ Outcome.ok (
            called m t (woken c r k) (record l {
              task_id_counter = id + 1;
              stacks = q;
              shared = with_heap (λ _. save_waiter_at r m.id g) l.shared;
            }))
  unfolding exec task completing after_slice modify_at add_task new
  exec-calls init fn k m l =
      let (r, g) = create init l.shared.heap in
      ap (after_slice c)
        (exec-await_waits c m.id r k _ (new init) (find-create init l.shared.heap) refl)

  -- The outer task as `run` makes it.
  abbrev pub outer : Program V U → EventLoop V U → Task V U
  outer w l =
      let id = l.task_id_counter in
      record (new_task id w (task_name run_name id) none
        (alloc c.allocator default_stack_size l.stacks).0) { state = State.exec }

  begun :
      (w : Program V U) (l : EventLoop V U)
      → IsIdle l
      → let id = l.task_id_counter in
        let (p, q) = alloc c.allocator default_stack_size l.stacks in
        let a : EventLoop V U = record l {
          task_id_counter = id + 1;
          main_task_id = some id;
          stacks = q;
        } in
        set_main_task id (add_task c w run_name none l).1
        ≡ starting c (new_task id w (task_name run_name id) none p) a
  unfolding add_task set_main_task
  begun w l i = ground (arith, i.running, i.no_task, i.at_front, i.none_to_start)

  -- The inner task as `task` makes it, and the loop when it starts.
  abbrev pub inner : V → ((V → Program V U) → Program V U) → EventLoop V U → Task V U
  inner init fn l =
      let id = l.task_id_counter + 1 in
      let (p, q) = alloc c.allocator default_stack_size l.stacks in
      let (p', q') = alloc c.allocator default_stack_size q in
      let r = (create init l.shared.heap).0 in
      record (new_task id (completing r fn) (task_name [] id) (some r) p') { state = State.exec }

  abbrev pub entered : V → EventLoop V U → EventLoop V U
  entered init l =
      let id = l.task_id_counter in
      let (p, q) = alloc c.allocator default_stack_size l.stacks in
      let (r, g) = create init l.shared.heap in
      record l {
        task_id_counter = id + 1 + 1;
        main_task_id = some id;
        stacks = (alloc c.allocator default_stack_size q).1;
        shared = with_heap (λ _. save_waiter_at r id g) l.shared;
      }

  -- The loop when it has taken the main task.
  abbrev pub taken : EventLoop V U → EventLoop V U
  taken l =
      let id = l.task_id_counter in
      let (p, q) = alloc c.allocator default_stack_size l.stacks in
      record l { task_id_counter = id + 1; main_task_id = some id; stacks = q }

  -- Two cycles: the first slice of the main task, which ends with a call, and the first of the other.
  pub begin_call :
      (w : Program V U) (m t : Task V U) (p : Program V U) (n : ℕ) (l d : EventLoop V U)
      → IsIdle l
      → t.state ≡ State.init
      → d.shared.heap.to_wake ≡ []
      → let id = l.task_id_counter in
        after_slice c (exec c id w (solo c (outer w l) 0 (taken l))) ≡ Outcome.ok (called m t p d)
        → run_until_completed c (suc (suc n)) (set_main_task id (add_task c w run_name none l).1)
          ≡ drive c n (
              after_slice c
                (exec c t.id t.worker (pair (sleeper c m p) (record t { state = State.exec }) 1 d)))
  begin_call w m t p n l d i s z first =
      let id = l.task_id_counter in
      let (ptr, q) = alloc c.allocator default_stack_size l.stacks in
      let o = new_task id w (task_name run_name id) none ptr in
      ap (run_until_completed c (suc (suc n))) (begun w l i)
      ∙ run_until-cycle c (suc n) (starting c o (taken l)) refl
      ∙ ap (drive c (suc n)) (cycle_starts c o (taken l) refl i.none_to_wake ∙ first)
      ∙ run_until-cycle c n (called m t p d) refl
      ∙ ap (drive c n) (cycle_inner m t p d s z)

  pub begin_inner :
      (init : V) (fn : (V → Program V U) → Program V U) (k : Result V → Program V U) (n : ℕ)
      (l : EventLoop V U)
      → IsIdle l
      → let w = task init fn (λ f. await f k) in
        let id = l.task_id_counter in
        let r = (create init l.shared.heap).0 in
        run_until_completed c (suc (suc n)) (set_main_task id (add_task c w run_name none l).1)
        ≡ drive c n (
            after_slice c (
              exec c
                (id + 1)
                (completing r fn)
                (pair (asleep c (outer w l) r k) (inner init fn l) 1 (entered init l))))
  begin_inner init fn k n l i =
      let w = task init fn (λ f. await f k) in
      let id = l.task_id_counter in
      let r = (create init l.shared.heap).0 in
      begin_call w (outer w l) (record (inner init fn l) { state = State.init }) (woken c r k) n l
        (entered init l) i refl (create-Awaited init id l.shared.heap i.none_to_wake).none_to_wake
        (exec-calls init fn k (outer w l) (taken l))
