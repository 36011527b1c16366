-- ===== src/Async/Called/Calls.antt =====
-- `run(task, args...)` of include/async/async.h on a function that a macro of macros.h declares: the
-- first cycles.
use asyncxx.Base.{ℕ, suc, ◌+◌, ◌≡◌, refl, ap, none, some}
use asyncxx.Api.{Result}
use asyncxx.Future.{new, create}
use asyncxx.Task.{State, Task, Program}
use asyncxx.Loop.Types.{Config, EventLoop, Outcome}
use asyncxx.Loop.Cycle.{exec, after_slice, add_task, modify_at, run_until_completed}
use asyncxx.Loop.Sync.{set_main_task}
use asyncxx.Async.{run_name, rethrow}
use asyncxx.Async.Await.{exec-await_waits, woken}
use asyncxx.Async.Sequential.{IsIdle, solo, drive}
use asyncxx.Async.Main.{completing, async_task_r}
use asyncxx.Async.Main.Nested.{asleep}
use asyncxx.Async.Main.Pair.{pair}
use asyncxx.Async.Main.Calling.{
  outer, inner, entered, taken, begin_call, find-create, create-Awaited, called,
}
use asyncxx.Async.Called.{Local, keep, run_worker}

module _ {ℓ κ} {V : Type ℓ} {U : Type κ} (c : Config) where
  -- What the main task does with the outcome: nothing, or it throws.
  abbrev pub passes : Result V → Program V (Local U)
  passes = rethrow (λ _. Program.finish)

  -- The main task, whose future is the one of the function that it called.
  abbrev pub managing :
      V
      → ((V → Program V (Local U)) → Program V (Local U))
      → EventLoop V (Local U)
      → Task V (Local U)
  managing init fn l = record (outer c (run_worker (async_task_r init fn)) l) {
    result_future = some (create init l.shared.heap).0;
  }

  abbrev pub kept : V → EventLoop V (Local U) → EventLoop V (Local U)
  kept init l =
      let (r, g) = create init l.shared.heap in
      record (entered c init l) { shared = keep (some r) (entered c init l).shared }

  exec-manages :
      (init : V) (fn : (V → Program V (Local U)) → Program V (Local U)) (l : EventLoop V (Local U))
      → let w = run_worker (async_task_r init fn) in
        let r = (create init l.shared.heap).0 in
        let id = l.task_id_counter in
        after_slice c (exec c id w (solo c (outer c w l) 0 (taken c l)))
        ≡ Outcome.ok (
            called c
              (managing init fn l)
              (record (inner c init fn l) { state = State.init })
              (woken c r passes)
              (kept init l))
  unfolding exec async_task_r run_worker completing after_slice modify_at add_task new
  exec-manages init fn l =
      let r = (create init l.shared.heap).0 in
      ap (after_slice c) (
        exec-await_waits c l.task_id_counter r passes _ (new init) (find-create init l.shared.heap)
          refl)

  pub begin_result :
      (init : V) (fn : (V → Program V (Local U)) → Program V (Local U)) (n : ℕ)
      (l : EventLoop V (Local U))
      → IsIdle l
      → let w = run_worker (async_task_r init fn) in
        let r = (create init l.shared.heap).0 in
        let id = l.task_id_counter in
        run_until_completed c (suc (suc n)) (set_main_task id (add_task c w run_name none l).1)
        ≡ drive c n (
            after_slice c (
              exec c (id + 1) (completing r fn) (
                pair (asleep c (managing init fn l) r passes) (inner c init fn l) 1 (kept init l))))
  begin_result init fn n l i =
      begin_call c (run_worker (async_task_r init fn)) (managing init fn l)
        (record (inner c init fn l) { state = State.init })
        (woken c (create init l.shared.heap).0 passes) n l (kept init l) i refl
        (create-Awaited init l.task_id_counter l.shared.heap i.none_to_wake).none_to_wake
        (exec-manages init fn l)
