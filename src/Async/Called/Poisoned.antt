-- ===== src/Async/Called/Poisoned.antt =====
-- `run(task, args...)` of include/async/async.h on a function that throws, where the loop goes on after
-- exceptions: the future is cancelled twice, the second time when the main task, which it waits for, is
-- deleted.
use asyncxx.Base.{
  if◌then◌else◌, ℕ, suc, ◌+◌, ◌*◌, ◌-◌, ◌≤◌, ◌≡◌, refl, ap, ◌∙◌, true, false, [], ◌∷◌, some, none,
  arith,
}
use asyncxx.Api.{TaskId, Exception, cancelled, notify_each}
use asyncxx.Future.{
  Ref, Heap, Future, wakes, create, cancel, cancel_at, save_waiter_at, find, get, is_cancelled,
}
use asyncxx.Future.Laws.{update_self}
use asyncxx.FutureState
use asyncxx.StackPool.{free}
use asyncxx.Task.{State, Program}
use asyncxx.Loop.Types.{Config, EventLoop, Outcome, null_task}
use asyncxx.Loop.Cycle.{add_task, after_slice, exec, modify_at, cycle}
use asyncxx.Loop.Cleanup.{clear, cancel_pending}
use asyncxx.Loop.Sync.{set_main_task, process_sync, wake, wake_each}
use asyncxx.Async.{run, run_name, after_run, rethrow}
use asyncxx.Async.Sequential.{IsIdle, solo, holding, ended, left, drive, run_until-cycle}
use asyncxx.Async.Main.{async_task_r, completing, uncaught, read_result}
use asyncxx.Async.Main.Returns.{lift, call-lift, Block, body, call, rest_count}
use asyncxx.Async.Main.Nested.{awake}
use asyncxx.Async.Main.Pair.{turns, drained}
use asyncxx.Async.Main.Calling.{inner, create-Awaited}
use asyncxx.Async.Main.Failing.{nested_failing, cancel_at-Awaited}
use asyncxx.Async.Main.Tasks.{turns_lem}
use asyncxx.Async.Called.{Local, keep, run_worker, run_result, after_task, read_local}
use asyncxx.Async.Called.Calls.{passes, managing, kept, begin_result}
use asyncxx.Async.Called.Returns.{cycles, drive-ends, keep-IsIdle}

module _ {ℓ} {V : Type ℓ} where
  -- A future that is cancelled and not completed, and that a task still waits for.
  cancel_again :
      (r : Ref) (id : TaskId) (h : Heap V) (f : Future V)
      → find r h ≡ some f
      → f.state.completed ≡ false
      → f.state.waiters ≡ id ∷ []
      → h.to_wake ≡ []
      → let h' = cancel_pending (some r) h in
        (g : Future V) × (find r h' ≡ some g) × (g.state.cancelled ≡ true) × (h'.to_wake ≡ id ∷ [])
  unfolding cancel_pending cancel_at find FutureState.cancel notify_each
  cancel_again r id h f e d w z =
      let again : cancel_pending (some r) h ≡ cancel_at r h = ground (arith, e, d) in
      let (p, q) = update_self r (cancel wakes) h e in
      (
        (cancel wakes f h.to_wake).0,
        ap (find r) again ∙ p,
        refl,
        ap (λ x. x.to_wake) again ∙ q ∙ rw (w, z) refl,
      )

module _ {ℓ κ} {V : Type ℓ} {U : Type κ} (c : Config) where
  cycle_misses :
      (id : TaskId) (l : EventLoop V U)
      → l.tasks ≡ []
      → l.shared.heap.to_wake ≡ id ∷ []
      → cycle c l ≡ Outcome.fault null_task
  unfolding cycle process_sync wake_each wake
  cycle_misses id l e w = rw (w, e, process_sync, wake_each, wake) (ground arith)

  -- A loop without tasks, on whose list the id of a task stands.
  crashes :
      (id : TaskId) (p : Program V U) (n : ℕ) (l : EventLoop V U)
      → l.running ≡ true
      → l.tasks ≡ []
      → l.shared.heap.to_wake ≡ id ∷ []
      → run c (suc n) p l ≡ some (Outcome.fault null_task)
  unfolding run add_task set_main_task
  crashes id p n l t e w =
      let b = set_main_task l.task_id_counter (add_task c p run_name none l).1 in
      ap (after_run c) (run_until-cycle c n b t ∙ ap (drive c n) (cycle_misses id b e w))

  read_result-Cancelled :
      (m : EventLoop V U) (r : Ref) {f : Future V}
      → find r m.shared.heap ≡ some f
      → f.state.cancelled ≡ true
      → read_result m (find r m.shared.heap) ≡ uncaught cancelled m
  unfolding get is_cancelled
  read_result-Cancelled m r e d = rw (e, d) refl

module _ {ℓ κ} {V : Type ℓ} {U : Type κ} (c : Config) where
  -- The function: a block whose result is not returned, as it throws.
  abbrev pub throwing :
      V → Block V U → Exception → (Ref → Program V (Local U)) → Program V (Local U)
  throwing init b x = async_task_r init (λ _. body (lift b) (λ _. Program.throw x))

  fails :
      (init : V) (b : Block V U) (x : Exception) (n : ℕ) (l : EventLoop V (Local U))
      → c.continue_on_task_exc ≡ true
      → IsIdle l
      → let id = l.task_id_counter in
        let r = (create init l.shared.heap).0 in
        (m : EventLoop V (Local U)) × (f : Future V) × (run c
            (cycles c init b n l)
            (run_worker (throwing init b x))
            l
          ≡ some (Outcome.ok m))
        × (m.shared.user ≡ (call (lift b) (some r, l.shared.user.1)).1)
        × (find r m.shared.heap ≡ some f)
        × (f.state.cancelled ≡ true)
        × (m.running ≡ true)
        × (m.tasks ≡ [])
        × (m.shared.heap.to_wake ≡ id ∷ [])
  unfolding run clear add_task after_slice exec rethrow modify_at find completing
  fails init b x n l cont i =
      let id = l.task_id_counter in
      let (r, g) = create init l.shared.heap in
      let u = (call (lift b) (some r, l.shared.user.1)).1 in
      let fn = λ (_ : V → Program V (Local U)). body (lift b) (λ _. Program.throw x) in
      let m = managing c init fn l in
      let t = inner c init fn l in
      let d = kept c init l in
      let h = save_waiter_at r id g in
      let s = drained (cancel_at r h) u in
      let d' = record d { stacks = free t.stack.0 d.stacks } in
      let o = awake c m r (passes c) in
      let asked = create-Awaited init id l.shared.heap i.none_to_wake in
      let (f, e, _, _, y, w) = cancel_at-Awaited c m r (passes c) h asked in
      let (f', e', d'', w') = cancel_again r id s.heap f e y w refl in
      let thrown = solo c (record o { state = State.done; ctx = none }) 0 (holding c s d') in
      (
        clear (ended c o d' (left c o s)),
        f',
        ap (after_run c) (
            begin_result c init fn
              (turns (lift b) (some r, l.shared.user.1) (suc (suc (suc (suc n))))) l i
            ∙ nested_failing c m r (passes c) (lift b) x (suc (suc n)) t h (some r, l.shared.user.1)
                d cont refl refl refl (omega arith) asked
            ∙ ap
                (λ z.
                  drive c (suc (suc n))
                    (if z then Outcome.ok thrown else Outcome.raised cancelled thrown))
                cont
            ∙ drive-ends c n o s d' refl),
        refl,
        e',
        d'',
        refl,
        refl,
        w',
      )

  -- With exceptions of tasks passed over, on an idle loop and with the fuel of twice the number of times
  -- that the block yields, and 6, or more: `run` of an asynchronous function that only computes, yields and then throws
  -- ends with `CancelledException`, whatever was thrown; but it leaves the id of the main task, which is gone, on
  -- the list of tasks to wake, so that every `run` that follows dereferences a null task.
  pub run_result-throws :
      (b : Block V U) (x : Exception) (fuel n : ℕ) (init : V) (p : Program V (Local U))
      (l : EventLoop V (Local U))
      → c.continue_on_task_exc ≡ true
      → IsIdle l
      → 2 * rest_count b l.shared.user.1 + 6 ≤ fuel
      → (m : EventLoop V (Local U)) × (run_result c fuel (throwing init b x) l
          ≡ some (uncaught cancelled m))
        × (m.shared.user.1 ≡ (call b l.shared.user.1).1)
        × (run c (suc n) p m ≡ some (Outcome.fault null_task))
  unfolding run_result
  run_result-throws b x fuel n init p l cont i h =
      let l' = record l { shared = keep none l.shared } in
      let r = (create init l.shared.heap).0 in
      let (e, z) = call-lift b (some r) l.shared.user.1 in
      let k = fuel - (2 * rest_count b l.shared.user.1 + 6) in
      let enough : fuel ≡ cycles c init b k l' =
        omega
          (arith, h, z, turns_lem c (lift b) (some r, l.shared.user.1) (suc (suc (suc (suc k))))) in
      let (m, f, q, u, y, d, t, j, w) = fails init b x k l' cont (keep-IsIdle c none l i) in
      let user = u ∙ ap (λ v. v.1) e in
      (
        m,
        ap (λ v. after_task (run c v (run_worker (throwing init b x)) l')) enough
            ∙ ap after_task q
            ∙ ap (λ o. some (read_local m o)) (ap (λ v. v.0) user)
            ∙ ap some (read_result-Cancelled c m r y d),
        ap (λ v. v.1) user,
        crashes c l.task_id_counter p n m t j w,
      )
