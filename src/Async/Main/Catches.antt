-- ===== src/Async/Main/Catches.antt =====
-- `async_main` of include/async/macros.h on a block that awaits a task that throws.
use asyncxx.Base.{
  ℕ, suc, ◌+◌, ◌*◌, ◌-◌, ◌≤◌, ◌≡◌, refl, Bool, true, false, ap, ◌∙◌, some, arith, if◌then◌else◌,
  Bool-cases, inl, inr,
}
use asyncxx.Api.{Exception, Result, err, cancelled}
use asyncxx.Future.{new, create, complete_at, cancel_at, save_waiter_at, find}
use asyncxx.Future.Laws.{find-cancel_at_ne, complete_at-Settled, Settled-find}
use asyncxx.StackPool.{free}
use asyncxx.Task.{State, Program}
use asyncxx.Loop.Types.{Config, EventLoop}
use asyncxx.Loop.Cycle.{add_task}
use asyncxx.Async.{with_heap, run, after_run, task, await}
use asyncxx.Async.Sequential.{IsIdle}
use asyncxx.Async.Main.{completing, async_main, main_returned, uncaught, after_main}
use asyncxx.Async.Main.Returns.{
  Block, returns, body, call, rest_count, completing-StraightFrom, eval-completing,
  read_result-Settled, create-IsIdle,
}
use asyncxx.Async.Main.Nested.{asleep}
use asyncxx.Async.Main.Pair.{turns, drained}
use asyncxx.Async.Main.Calling.{outer, inner, entered, begin_inner, create-Awaited}
use asyncxx.Async.Main.Awaits.{run_alone}
use asyncxx.Async.Main.Failing.{nested_failing, nested_raises}
use asyncxx.Async.Main.Tasks.{find-outer, turns_lem}

holds_then {ℓ} : {b : Bool} {A : Type ℓ} → b ≡ true → (B : Type ℓ) → A → if b then A else B
holds_then e B a = rw e a

holds_else {ℓ} : {b : Bool} {B : Type ℓ} → b ≡ false → (A : Type ℓ) → B → if b then A else B
holds_else e A a = rw e a

module _ {ℓ κ} {V : Type ℓ} {U : Type κ} (c : Config) where
  -- A block of `async_main` that awaits a task that throws, and makes a value of what it gets.
  abbrev pub guarding : V → Block V U → Exception → (Result V → V) → (V → Program V U) → Program V U
  guarding init b x handler k =
      task init (λ (_ : V → Program V U). body b (λ _. Program.throw x))
        (λ f. await f (λ o. k (handler o)))

  catches :
      (b : Block V U) (x : Exception) (handler : Result V → V) (n : ℕ) (a init : V)
      (l : EventLoop V U)
      → c.continue_on_task_exc ≡ true
      → IsIdle l
      → 2 ≤ n
      → (m : EventLoop V U) × (async_main c
            (suc (suc (turns b l.shared.user (suc (suc n)))))
            a
            (guarding init b x handler)
            l
          ≡ some (main_returned (handler (err cancelled)) m))
        × (m.shared.user ≡ (call b l.shared.user).1)
        × IsIdle m
  unfolding async_main completing new find
  catches b x handler n a init l cont i h =
      let (r, g) = create a l.shared.heap in
      let l' = record l { shared = with_heap (λ _. g) l.shared } in
      let i' = create-IsIdle a l i in
      let id = l.task_id_counter in
      let u = (call b l.shared.user).1 in
      let big = turns b l.shared.user (suc (suc n)) in
      let (r', g') = create init g in
      let asked = create-Awaited init id g i'.none_to_wake in
      let v = handler (err cancelled) in
      let k : Result V → Program V U = λ o. completing r (body (returns (handler o))) in
      let w = completing r (guarding init b x handler) in
      let fn = λ (_ : V → Program V U). body b (λ _. Program.throw x) in
      let t = inner c init fn l' in
      let d = entered c init l' in
      let s = drained (cancel_at r' (save_waiter_at r' id g')) u in
      let (apart, saved) = find-outer a init id l.shared.heap in
      let own : find r s.heap ≡ some (new a) =
        find-cancel_at_ne r r' (save_waiter_at r' id g') apart ∙ saved in
      let (e, z) = eval-completing {V = V} {U = U} id r (returns v) s in
      let (m, q, y, j) =
        run_alone c w (k (err cancelled)) (suc (suc big)) n l'
          (record d { stacks = free t.stack.0 d.stacks }) s
          (record (asleep c (outer c w l') r' k) { state = State.exec })
          (completing-StraightFrom id r (returns v) s (new a, own, refl)) refl refl h
          (begin_inner c init fn k big l' i'
            ∙ nested_failing c (outer c w l') r' k b x n t (save_waiter_at r' id g') l.shared.user d
                cont refl refl refl (omega arith) asked)
          refl in
      let held =
        Settled-find (complete_at r v s.heap) m.shared.heap r v (ap (λ f. find r f.heap) (y ∙ e))
          (complete_at-Settled r v s.heap (new a, own, refl, refl)) in
      (
        m,
        ap (after_main r) q ∙ ap some (read_result-Settled m r v held),
        ap (λ f. f.user) (y ∙ e),
        j,
      )

  raises :
      (b : Block V U) (x : Exception) (handler : Result V → V) (n : ℕ) (a init : V)
      (l : EventLoop V U)
      → c.continue_on_task_exc ≡ false
      → IsIdle l
      → (m : EventLoop V U) × (async_main c
            (suc (suc (turns b l.shared.user n)))
            a
            (guarding init b x handler)
            l
          ≡ some (uncaught x m))
  unfolding async_main completing run add_task
  raises b x handler n a init l cont i =
      let (r, g) = create a l.shared.heap in
      let l' = record l { shared = with_heap (λ _. g) l.shared } in
      let i' = create-IsIdle a l i in
      let id = l.task_id_counter in
      let (r', g') = create init g in
      let asked = create-Awaited init id g i'.none_to_wake in
      let k : Result V → Program V U = λ o. completing r (body (returns (handler o))) in
      let w = completing r (guarding init b x handler) in
      let fn = λ (_ : V → Program V U). body b (λ _. Program.throw x) in
      let (o, q) =
        nested_raises c (outer c w l') r' k b x n (inner c init fn l') (save_waiter_at r' id g')
          l.shared.user (entered c init l') cont refl asked.none_to_wake in
      (
        o,
        ap (λ y. after_main r (after_run c y))
            (begin_inner c init fn k (turns b l.shared.user n) l' i' ∙ q),
      )

  -- On an idle loop, with the fuel of twice the number of times that the inner function yields, and 6,
  -- or more: an `async_main` whose block awaits a task that computes, yields and throws ends. If the
  -- loop goes on after exceptions, the block gets `CancelledException`, whatever the task threw, and
  -- `main` returns what the block makes of that; the data is as the task left it, and the loop is idle.
  -- If not, the task's exception leaves `main`.
  pub async_main-throws :
      (b : Block V U) (x : Exception) (handler : Result V → V) (fuel : ℕ) (a init : V)
      (l : EventLoop V U)
      → IsIdle l
      → 2 * rest_count b l.shared.user + 6 ≤ fuel
      → (m : EventLoop V U) × (if c.continue_on_task_exc
          then (async_main c fuel a (guarding init b x handler) l
              ≡ some (main_returned (handler (err cancelled)) m))
            × (m.shared.user ≡ (call b l.shared.user).1)
            × IsIdle m
          else async_main c fuel a (guarding init b x handler) l ≡ some (uncaught x m))
  async_main-throws b x handler fuel a init l i h =
      let u = l.shared.user in
      let n = fuel - (2 * rest_count b u + 4) in
      let enough : fuel ≡ suc (suc (turns b u (suc (suc n)))) =
        omega (arith, h, turns_lem c b u (suc (suc n))) in
      let same = ap (λ y. async_main c y a (guarding init b x handler) l) enough in
      elim (Bool-cases c.continue_on_task_exc) [
        | inl y ↦
            let (m, q, v, j) = catches b x handler n a init l y i (omega (arith, h)) in
            (m, holds_then y _ (same ∙ q, v, j))
        | inr y ↦
            let (m, q) = raises b x handler (suc (suc n)) a init l y i in
            (m, holds_else y _ (same ∙ q))
      ]
