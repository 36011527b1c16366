-- ===== src/Async/Main/Failing.antt =====
-- A task that throws while another one awaits it, in include/async/loop.h and future.h: what reaches the
-- one that waits.
use asyncxx.Base.{
  if◌then◌else◌, ℕ, suc, ◌≡◌, ◌≢◌, refl, ap, ◌∙◌, true, false, [], ◌∷◌, none, some, arith,
}
use asyncxx.Api.{Exception, Result, err, cancelled, notify_each}
use asyncxx.Future.{Ref, Heap, Future, wakes, cancel, cancel_at, find, after_wait, is_cancelled}
use asyncxx.Future.Laws.{update_self}
use asyncxx.FutureState
use asyncxx.StackPool.{free}
use asyncxx.Task.{State, Task, Shared, Program}
use asyncxx.Loop.Types.{Config, EventLoop, Outcome, ◌>>=◌}
use asyncxx.Loop.Cycle.{exec, after_slice, modify_at, cycle, schedule, run_task, resume}
use asyncxx.Loop.Sync.{process_sync, wake, wake_each}
use asyncxx.Loop.Cleanup.{clean_up_task, cancel_pending, is_main}
use asyncxx.Async.{deliver}
use asyncxx.Async.Await.{process_sync_quiet, woken}
use asyncxx.Async.Sequential.{solo, holding, drive, run_until-cycle}
use asyncxx.Async.Main.Returns.{Block, body, call}
use asyncxx.Async.Main.Nested.{Awaited, asleep, awake}
use asyncxx.Async.Main.Pair.{turns, pair, drained, reaches}

module _ {ℓ κ} {V : Type ℓ} {U : Type κ} (c : Config) (m : Task V U) (r : Ref)
    (k : Result V → Program V U) where
  -- The inner function: a block whose result is not returned, as it throws.
  abbrev pub failing : Block V U → Exception → Program V U
  failing b e = body b (λ _. Program.throw e)

  pub cancel_at-Awaited :
      (h : Heap V)
      → Awaited r m.id h
      → let h' = cancel_at r h in
        (f : Future V) × (find r h' ≡ some f)
        × (f.state.cancelled ≡ true)
        × (h'.to_wake ≡ m.id ∷ [])
        × (f.state.completed ≡ false)
        × (f.state.waiters ≡ m.id ∷ [])
  unfolding find cancel_at FutureState.cancel notify_each
  cancel_at-Awaited h a =
      let (e, w) = update_self r (cancel wakes) h a.found in
      (
        (cancel wakes a.future h.to_wake).0,
        e,
        refl,
        w ∙ rw (a.waits, a.none_to_wake) refl,
        a.pending,
        a.waits,
      )

  clean_up_failed :
      (t : Task V U) (h : Heap V) (u : U) (l : EventLoop V U) (f : Future V)
      → t.result_future ≡ some r
      → l.main_task_id ≡ some m.id
      → m.id ≢ t.id
      → find r h ≡ some f
      → f.state.completed ≡ false
      → let s : Shared V U = record { heap = h; user = u } in
        let s' : Shared V U = record { heap = cancel_at r h; user = u } in
        clean_up_task t (pair (asleep c m r k) t 1 (holding c s l))
        ≡ Outcome.ok (
            solo c
              (asleep c m r k)
              1
              (holding c s' (record l { stacks = free t.stack.0 l.stacks })))
  unfolding clean_up_task is_main cancel_pending find
  clean_up_failed t h u l f rf mi ne e d = ground (arith, rf, mi, ne, e, d)

  -- The inner task is gone, and its future cancelled.
  cycle_cancels :
      (t : Task V U) (h : Heap V) (u : U) (l : EventLoop V U)
      → t.state ≡ State.done
      → t.result_future ≡ some r
      → l.main_task_id ≡ some m.id
      → m.id ≢ t.id
      → Awaited r m.id h
      → let s : Shared V U = record { heap = h; user = u } in
        let s' : Shared V U = record { heap = cancel_at r h; user = u } in
        cycle c (pair (asleep c m r k) t 1 (holding c s l))
        ≡ Outcome.ok (
            solo c
              (asleep c m r k)
              1
              (holding c s' (record l { stacks = free t.stack.0 l.stacks })))
  unfolding cycle schedule
  cycle_cancels t h u l s rf mi ne a =
      let l' = pair (asleep c m r k) t 1 (holding c (record { heap = h; user = u }) l) in
      ap (λ o. o >>= schedule c) (process_sync_quiet c l' a.none_to_wake refl)
      ∙ ap (λ q. run_task c q t l') s
      ∙ clean_up_failed t h u l a.future rf mi ne a.found a.pending

  -- The outer task is woken and runs.
  cycle_rouses :
      (h : Heap V) (u : U) (l : EventLoop V U)
      → h.to_wake ≡ m.id ∷ []
      → let s : Shared V U = record { heap = h; user = u } in
        cycle c (solo c (asleep c m r k) 1 (holding c s l))
        ≡ after_slice c
            (exec c m.id (woken c r k) (solo c (awake c m r k) 0 (holding c (drained h u) l)))
  unfolding cycle schedule resume run_task process_sync wake_each wake
  cycle_rouses h u l w = ap (λ o. o >>= schedule c) (sync_rouses h u l w)
    where
      sync_rouses :
          (h : Heap V) (u : U) (l : EventLoop V U)
          → h.to_wake ≡ m.id ∷ []
          → process_sync (solo c (asleep c m r k) 1 (holding c (record { heap = h; user = u }) l))
            ≡ Outcome.ok (solo c (awake c m r k) 1 (holding c (drained h u) l))
      sync_rouses h u l w = rw (w) (ground arith)

  exec-woken_cancelled :
      (l : EventLoop V U) (f : Future V)
      → find r l.shared.heap ≡ some f
      → f.state.cancelled ≡ true
      → exec c m.id (woken c r k) l ≡ exec c m.id (k (err cancelled)) l
  unfolding exec after_wait is_cancelled
  exec-woken_cancelled l f e n = ap (λ o. exec c m.id (deliver k after_wait o) l) e ∙ rw (n) refl

  -- With exceptions of tasks passed over, the outer task is told that the future was cancelled.
  pub nested_failing :
      (b : Block V U) (x : Exception) (fuel : ℕ) (t : Task V U) (h : Heap V) (u : U)
      (l : EventLoop V U)
      → c.continue_on_task_exc ≡ true
      → t.state ≡ State.exec
      → t.result_future ≡ some r
      → l.main_task_id ≡ some m.id
      → m.id ≢ t.id
      → Awaited r m.id h
      → let u' = (call b u).1 in
        let l' = record l { stacks = free t.stack.0 l.stacks } in
        let p : Shared V U = record { heap = h; user = u } in
        drive c
          (turns b u (suc (suc fuel)))
          (after_slice c (exec c t.id (failing b x) (pair (asleep c m r k) t 1 (holding c p l))))
        ≡ drive c fuel (
            after_slice c (
              exec c m.id
                (k (err cancelled))
                (solo c (awake c m r k) 0 (holding c (drained (cancel_at r h) u') l'))))
  unfolding after_slice exec modify_at find
  nested_failing b x fuel t h u l cont s rf mi ne a =
      let u' = (call b u).1 in
      let p' : Shared V U = record { heap = h; user = u' } in
      let (ctx, q) =
        reaches c m (woken c r k) b (λ _. Program.throw x) (suc (suc fuel)) t h u l s
          a.none_to_wake in
      let t' = record t { state = State.done; ctx = none } in
      let o = pair (asleep c m r k) t' 1 (holding c p' l) in
      let h' = cancel_at r h in
      let l' = record l { stacks = free t.stack.0 l.stacks } in
      let (f, e, n, w, _, _) = cancel_at-Awaited h a in
      let asleep' = solo c (asleep c m r k) 1 (holding c (record { heap = h'; user = u' }) l') in
      let awake' = solo c (awake c m r k) 0 (holding c (drained h' u') l') in
      q
      ∙ ap (λ z. drive c (suc (suc fuel)) (if z then Outcome.ok o else Outcome.raised x o)) cont
      ∙ run_until-cycle c (suc fuel) o refl
      ∙ ap (drive c (suc fuel)) (cycle_cancels t' h u' l refl rf mi ne a)
      ∙ run_until-cycle c fuel asleep' refl
      ∙ ap (drive c fuel) (cycle_rouses h' u' l' w)
      ∙ ap (λ z. drive c fuel (after_slice c z)) (exec-woken_cancelled awake' f e n)

  -- Otherwise the exception leaves the loop.
  pub nested_raises :
      (b : Block V U) (x : Exception) (fuel : ℕ) (t : Task V U) (h : Heap V) (u : U)
      (l : EventLoop V U)
      → c.continue_on_task_exc ≡ false
      → t.state ≡ State.exec
      → h.to_wake ≡ []
      → let p : Shared V U = record { heap = h; user = u } in
        (o : EventLoop V U) × (drive c
            (turns b u fuel)
            (after_slice c (exec c t.id (failing b x) (pair (asleep c m r k) t 1 (holding c p l))))
          ≡ some (Outcome.raised x o))
  unfolding after_slice exec modify_at
  nested_raises b x fuel t h u l cont s w =
      let p' : Shared V U = record { heap = h; user = (call b u).1 } in
      let (ctx, q) = reaches c m (woken c r k) b (λ _. Program.throw x) fuel t h u l s w in
      let t' = record t { state = State.done; ctx = none } in
      let o = pair (asleep c m r k) t' 1 (holding c p' l) in
      (o, q ∙ ap (λ z. drive c fuel (if z then Outcome.ok o else Outcome.raised x o)) cont)
