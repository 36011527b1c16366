-- ===== src/Async/Main/Tasks.antt =====
-- `async_main` of include/async/macros.h on a block that awaits a task of include/async/async.h.
use asyncxx.Base.{ℕ, suc, ◌+◌, ◌*◌, ◌-◌, ◌≤◌, ◌≡◌, ◌≢◌, refl, ap, ◌∙◌, some, arith, []}
use asyncxx.Api.{TaskId}
use asyncxx.Future.{Heap, new, create, complete_at, save_waiter_at, find}
use asyncxx.Future.Laws.{
  find-complete_at_ne, find-save_waiter_at_ne, find-create_ne, length-create, complete_at-Settled,
  Settled-find,
}
use asyncxx.Task.{Shared, Program}
use asyncxx.Loop.Types.{Config, EventLoop}
use asyncxx.Async.{with_heap, task, await, rethrow}
use asyncxx.Async.Sequential.{IsIdle}
use asyncxx.Async.Main.{completing, async_main, main_returned, after_main}
use asyncxx.Async.Main.Returns.{
  Block, returns, body, call, rest_count, completing-StraightFrom, eval-completing, create-IsIdle,
  read_result-Settled,
}
use asyncxx.Async.Main.Pair.{turns}
use asyncxx.Async.Main.Awaits.{run_nested}
use asyncxx.Async.Main.Calling.{find-create}

module _ {ℓ} {V : Type ℓ} where
  -- The memory when the inner task is done.
  abbrev answered : V → V → V → TaskId → Heap V → Heap V
  answered a init v id h =
      let (r, g) = create init (create a h).1 in
      record { futures = (complete_at r v (save_waiter_at r id g)).futures; to_wake = [] }

  -- The two futures differ, and `main`'s is as it was created.
  pub find-outer :
      (a init : V) (id : TaskId) (h : Heap V)
      → let (r, g) = create a h in
        let (r', g') = create init g in (r' ≢ r) × (find r (save_waiter_at r' id g') ≡ some (new a))
  find-outer a init id h =
      let (r, g) = create a h in
      let (r', g') = create init g in
      let (n, e) = length-create a h in
      let (n', e') = length-create init g in
      let apart : r' ≢ r = omega (arith, n, e, e') in
      (
        apart,
        find-save_waiter_at_ne r r' id g' apart
            ∙ find-create_ne r init g (omega (arith, n, e))
            ∙ find-create a h,
      )

  find-main :
      (a init v : V) (id : TaskId) (h : Heap V)
      → find (create a h).0 (answered a init v id h) ≡ some (new a)
  unfolding find
  find-main a init v id h =
      let (r, g) = create a h in
      let (r', g') = create init g in
      let (apart, q) = find-outer a init id h in
      find-complete_at_ne r r' v (save_waiter_at r' id g') apart ∙ q

module _ {ℓ κ} {V : Type ℓ} {U : Type κ} (c : Config) where
  pub turns_lem : (b : Block V U) (u : U) (n : ℕ) → turns b u n ≡ 2 * rest_count b u + n
  turns_lem (returns v) u n = omega arith
  turns_lem (Block.acts f b) u n = turns_lem (b u) (f u) n
  turns_lem (Block.pauses b) u n = omega (arith, turns_lem b u n)

  -- On an idle loop an `async_main` whose block starts a task by `task`, awaits its future and returns
  -- what it gets ends, if the fuel is twice the number of times that the inner function yields, and 6,
  -- or more. `main` returns what the function returns when it is called plainly on the program's data,
  -- the data is as that call leaves it, and the loop is idle again.
  pub async_main-task :
      (b : Block V U) (fuel : ℕ) (a init : V) (l : EventLoop V U)
      → IsIdle l
      → 2 * rest_count b l.shared.user + 6 ≤ fuel
      → (m : EventLoop V U) × (async_main c fuel a
            (λ k. task init (body b) (λ f. await f (rethrow k)))
            l
          ≡ some (main_returned (call b l.shared.user).0 m))
        × (m.shared.user ≡ (call b l.shared.user).1)
        × IsIdle m
  unfolding async_main completing rethrow new
  async_main-task b fuel a init l i h =
      let (r, g) = create a l.shared.heap in
      let l' = record l { shared = with_heap (λ _. g) l.shared } in
      let id = l.task_id_counter in
      let (v, u) = call b l.shared.user in
      let n = fuel - (2 * rest_count b l.shared.user + 4) in
      let block = λ (k : V → Program V U). task init (body b) (λ f. await f (rethrow k)) in
      let s : Shared V U = record { heap = answered a init v id l.shared.heap; user = u } in
      let own = find-main a init v id l.shared.heap in
      let (e, z) = eval-completing {V = V} {U = U} id r (returns v) s in
      let k : V → Program V U = λ x. completing r (λ q. q x) in
      let enough : fuel ≡ suc (suc (turns b l.shared.user (suc (suc n)))) =
        omega (arith, h, turns_lem b l.shared.user (suc (suc n))) in
      let (m, q, t, j) =
        run_nested c init b (rethrow k) n l' (create-IsIdle a l i)
          (completing-StraightFrom id r (returns v) s (new a, own, refl)) (omega (arith, h, z)) in
      let held =
        Settled-find (complete_at r v s.heap) m.shared.heap r v (ap (λ x. find r x.heap) (t ∙ e))
          (complete_at-Settled r v s.heap (new a, own, refl, refl)) in
      (
        m,
        ap (λ x. async_main c x a block l) enough
            ∙ ap (after_main r) q
            ∙ ap some (read_result-Settled m r v held),
        ap (λ x. x.user) (t ∙ e),
        j,
      )
