-- ===== src/Async/Main/Awaits.antt =====
-- `run` of include/async/async.h on a main task that awaits an inner one.
use asyncxx.Base.{ℕ, suc, ◌+◌, ◌≤◌, ◌≡◌, refl, ap, ◌∙◌, [], none, some, arith}
use asyncxx.Api.{Result, ok}
use asyncxx.Future.{create, complete_at, save_waiter_at}
use asyncxx.StackPool.{free}
use asyncxx.Task.{Shared, State, Task, Program}
use asyncxx.Loop.Types.{Config, EventLoop, Outcome}
use asyncxx.Loop.Cycle.{exec, after_slice, add_task, run_until_completed}
use asyncxx.Loop.Cleanup.{clear}
use asyncxx.Loop.Sync.{set_main_task}
use asyncxx.Async.{run, run_name, after_run, task, await}
use asyncxx.Async.Sequential.{
  StraightFrom, IsIdle, eval, pause_count, solo, holding, ended, drive, drive-slice, eval-wakes,
}
use asyncxx.Async.Main.Returns.{Block, body, call}
use asyncxx.Async.Main.Calling.{outer, inner, entered, begin_inner, create-Awaited}
use asyncxx.Async.Main.Nested.{asleep, nested}
use asyncxx.Async.Main.Pair.{turns, drained}

module _ {ℓ κ} {V : Type ℓ} {U : Type κ} (c : Config) where
  -- `run` when the main task is left alone with `p` to do.
  pub run_alone :
      (w p : Program V U) (fuel n : ℕ) (l d : EventLoop V U) (s : Shared V U) (t : Task V U)
      → let id = l.task_id_counter in
        StraightFrom id s p
        → t.state ≡ State.exec
        → t.result_future ≡ none
        → pause_count id p s + 2 ≤ n
        → run_until_completed c fuel (set_main_task id (add_task c w run_name none l).1)
          ≡ drive c n
              (after_slice c (exec c id p (solo c (record t { id = id }) 0 (holding c s d))))
        → s.heap.to_wake ≡ []
        → (m : EventLoop V U) × (run c fuel w l ≡ some (Outcome.ok m))
          × (m.shared ≡ eval id p s)
          × IsIdle m
  unfolding run clear add_task
  run_alone w p fuel n l d s t st e f h q z =
      let id = l.task_id_counter in
      (
        clear (ended c t d (eval id p s)),
        ap (after_run c) (q ∙ drive-slice c id st n t d e f z h),
        refl,
        record {
          running = refl;
          no_task = refl;
          at_front = refl;
          none_to_start = refl;
          none_to_wake = eval-wakes c id st ∙ z;
        },
      )

  -- `run` of a main task that goes on with what the inner one returns.
  pub run_nested :
      (init : V) (b : Block V U) (k : Result V → Program V U) (n : ℕ) (l : EventLoop V U)
      → IsIdle l
      → let id = l.task_id_counter in
        let (r, g) = create init l.shared.heap in
        let (v, u) = call b l.shared.user in
        let s = drained (complete_at r v (save_waiter_at r id g)) u in
        StraightFrom id s (k (ok v))
        → pause_count id (k (ok v)) s + 2 ≤ n
        → (m : EventLoop V U) × (run c
              (suc (suc (turns b l.shared.user (suc (suc n)))))
              (task init (body b) (λ f. await f k))
              l
            ≡ some (Outcome.ok m))
          × (m.shared ≡ eval id (k (ok v)) s)
          × IsIdle m
  run_nested init b k n l i st h =
      let id = l.task_id_counter in
      let (r, g) = create init l.shared.heap in
      let (v, u) = call b l.shared.user in
      let s = drained (complete_at r v (save_waiter_at r id g)) u in
      let w = task init (body b) (λ f. await f k) in
      let fuel = turns b l.shared.user (suc (suc n)) in
      let d = entered c init l in
      let t = inner c init (body b) l in
      let m = record (asleep c (outer c w l) r k) { state = State.exec } in
      run_alone w (k (ok v)) (suc (suc fuel)) n l (record d { stacks = free t.stack.0 d.stacks }) s
        m st refl refl h
        (begin_inner c init (body b) k fuel l i
          ∙ nested c (outer c w l) r k b n t (save_waiter_at r id g) l.shared.user d refl refl refl
              (omega arith) (create-Awaited init id l.shared.heap i.none_to_wake))
        refl
