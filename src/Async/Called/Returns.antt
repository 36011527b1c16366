-- ===== src/Async/Called/Returns.antt =====
-- `run(task, args...)` of include/async/async.h on a function that computes, yields and returns.
use asyncxx.Base.{
  ℕ, suc, ◌+◌, ◌*◌, ◌-◌, ◌≤◌, ◌≡◌, refl, ap, ◌∙◌, true, [], some, none, arith, Option,
}
use asyncxx.Future.{Ref, Heap, Future, create, complete_at, save_waiter_at, find}
use asyncxx.Future.Laws.{Settled}
use asyncxx.StackPool.{free}
use asyncxx.Task.{State, Task, Shared}
use asyncxx.Loop.Types.{Config, EventLoop, Outcome}
use asyncxx.Loop.Cycle.{add_task, run_until_completed, after_slice, exec, modify_at}
use asyncxx.Loop.Cleanup.{clear, cancel_pending}
use asyncxx.Async.{run, after_run, rethrow}
use asyncxx.Async.Sequential.{
  IsIdle, solo, holding, ended, left, drive, run_until-cycle, cycle_ends,
}
use asyncxx.Async.Main.{async_task_r, main_returned}
use asyncxx.Async.Main.Returns.{Block, body, call, rest_count, lift, call-lift, read_result-Settled}
use asyncxx.Async.Main.Pair.{turns, drained}
use asyncxx.Async.Main.Nested.{awake, nested, complete_at-Awaited}
use asyncxx.Async.Main.Calling.{inner, create-Awaited}
use asyncxx.Async.Main.Tasks.{turns_lem}
use asyncxx.Async.Called.{Local, keep, run_worker, run_result, after_task, read_local}
use asyncxx.Async.Called.Calls.{passes, managing, kept, begin_result}

module _ {ℓ} {V : Type ℓ} where
  cancel_pending_done :
      (r : Ref) (h : Heap V) {f : Future V}
      → find r h ≡ some f
      → f.state.completed ≡ true
      → cancel_pending (some r) h ≡ h
  unfolding cancel_pending
  cancel_pending_done r h e d = ground (arith, e, d)

module _ {ℓ κ} {V : Type ℓ} {U : Type κ} where
  module _ (c : Config) where
    -- The last task of the loop is done.
    pub drive-ends :
        (n : ℕ) (t : Task V U) (s : Shared V U) (l : EventLoop V U)
        → s.heap.to_wake ≡ []
        → drive c
            (suc (suc n))
            (Outcome.ok (solo c (record t { state = State.done; ctx = none }) 0 (holding c s l)))
          ≡ some (Outcome.ok (ended c t (holding c s l) (left c t s)))
    drive-ends n t s l w =
        let t' = record t { state = State.done; ctx = none } in
        run_until-cycle c (suc n) (solo c t' 0 (holding c s l)) refl
        ∙ ap (drive c (suc n)) (cycle_ends c t (holding c s l) w)
        ∙ unfold run_until_completed in refl

module _ {ℓ κ} {V : Type ℓ} {U : Type κ} (c : Config) where
  -- The memory when the main task ends.
  abbrev answered : V → Block V U → EventLoop V (Local U) → Shared V (Local U)
  answered init b l =
      let (r, g) = create init l.shared.heap in
      let (v, u) = call (lift b) (some r, l.shared.user.1) in
      drained (complete_at r v (save_waiter_at r l.task_id_counter g)) u

  abbrev pub cycles : V → Block V U → ℕ → EventLoop V (Local U) → ℕ
  cycles init b n l =
      let r = (create init l.shared.heap).0 in
      suc (suc (turns (lift b) (some r, l.shared.user.1) (suc (suc (suc (suc n))))))

  runs :
      (init : V) (b : Block V U) (n : ℕ) (l : EventLoop V (Local U))
      → IsIdle l
      → (m : EventLoop V (Local U)) × (run c
            (cycles init b n l)
            (run_worker (async_task_r init (body (lift b))))
            l
          ≡ some (Outcome.ok m))
        × (m.shared ≡ answered init b l)
        × IsIdle m
  unfolding run clear add_task after_slice exec rethrow modify_at find
  runs init b n l i =
      let id = l.task_id_counter in
      let (r, g) = create init l.shared.heap in
      let (v, u) = call (lift b) (some r, l.shared.user.1) in
      let fn = body (lift b) in
      let m = managing c init fn l in
      let t = inner c init fn l in
      let d = kept c init l in
      let h = save_waiter_at r id g in
      let s = drained (complete_at r v h) u in
      let d' = record d { stacks = free t.stack.0 d.stacks } in
      let o = awake c m r (passes c) in
      let asked = create-Awaited init id l.shared.heap i.none_to_wake in
      let (f, e, y, _, _, _) = complete_at-Awaited c m r (passes c) v h asked in
      let same : left c o s ≡ s =
        ap (λ x. record { heap = x; user = u }) (cancel_pending_done r s.heap e y) in
      (
        clear (ended c o d' s),
        ap (after_run c) (
            begin_result c init fn
              (turns (lift b) (some r, l.shared.user.1) (suc (suc (suc (suc n))))) l i
            ∙ nested c m r (passes c) (lift b) (suc (suc n)) t h (some r, l.shared.user.1) d refl
                refl refl (omega arith) asked
            ∙ drive-ends c n o s d' refl
            ∙ ap (λ x. some (Outcome.ok (ended c o d' x))) same),
        refl,
        record {
          running = refl;
          no_task = refl;
          at_front = refl;
          none_to_start = refl;
          none_to_wake = refl;
        },
      )

  pub keep-IsIdle :
      (o : Option Ref) (l : EventLoop V (Local U))
      → IsIdle l
      → IsIdle (record l { shared = keep o l.shared })
  keep-IsIdle o l i = record {
    running = i.running;
    no_task = i.no_task;
    at_front = i.at_front;
    none_to_start = i.none_to_start;
    none_to_wake = i.none_to_wake;
  }

  -- On an idle loop `run` of an asynchronous function, whose block computes, yields and returns, ends, if
  -- the fuel is twice the number of times that the block yields, and 6, or more. It returns what the
  -- block returns when it is called plainly on the program's data, the data is as that call leaves it,
  -- and the loop is idle again.
  pub run_result_lem :
      (b : Block V U) (fuel : ℕ) (init : V) (l : EventLoop V (Local U))
      → IsIdle l
      → 2 * rest_count b l.shared.user.1 + 6 ≤ fuel
      → (m : EventLoop V (Local U)) × (run_result c fuel (async_task_r init (body (lift b))) l
          ≡ some (main_returned (call b l.shared.user.1).0 m))
        × (m.shared.user.1 ≡ (call b l.shared.user.1).1)
        × IsIdle m
  unfolding run_result find
  run_result_lem b fuel init l i h =
      let l' = record l { shared = keep none l.shared } in
      let i' = keep-IsIdle none l i in
      let (r, g) = create init l.shared.heap in
      let (e, z) = call-lift b (some r) l.shared.user.1 in
      let n = fuel - (2 * rest_count b l.shared.user.1 + 6) in
      let enough : fuel ≡ cycles init b n l' =
        omega
          (arith, h, z, turns_lem c (lift b) (some r, l.shared.user.1) (suc (suc (suc (suc n))))) in
      let (m, q, s, j) = runs init b n l' i' in
      let v = (call (lift b) (some r, l.shared.user.1)).0 in
      let w = run_worker (async_task_r init (body (lift b))) in
      let asked = create-Awaited init l.task_id_counter l.shared.heap i.none_to_wake in
      let h' = save_waiter_at r l.task_id_counter g in
      let (f, p, y, d, x, _) =
        complete_at-Awaited c (managing c init (body (lift b)) l') r (passes c) v h' asked in
      let held : Settled m.shared.heap r v = (f, ap (λ t. find r t.heap) s ∙ p, y, d, x) in
      let user = ap (λ t. t.user) s ∙ ap (λ t. t.1) e in
      (
        m,
        ap (λ t. after_task (run c t w l')) enough
            ∙ ap after_task q
            ∙ ap (λ o. some (read_local m o)) (ap (λ t. t.0) user)
            ∙ ap some (read_result-Settled m r v held)
            ∙ ap (λ t. some (main_returned t m)) (ap (λ t. t.0) e),
        ap (λ t. t.1) user,
        j,
      )
