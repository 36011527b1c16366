-- ===== src/Async/Exchange/Stored.antt =====
-- Two tasks with a queue between them, from the start of the loop to its end.
use asyncxx.Base.{ℕ, suc, ◌+◌, ◌*◌, ◌-◌, ◌≤◌, ◌≡◌, ◌≢◌, refl, ap, ◌∙◌, [], none, some, arith}
use asyncxx.Api.{Result, ok}
use asyncxx.Future.{create, complete_at}
use asyncxx.Queue.{Queue, put, get, complete_front, pop_front}
use asyncxx.Queue
use asyncxx.StackPool.{free}
use asyncxx.Task.{State, Task, Program, Shared, act, finish}
use asyncxx.Loop.Types.{Config, EventLoop, Outcome}
use asyncxx.Loop.Cycle.{exec, after_slice}
use asyncxx.Async.{rethrow, run, with_heap}
use asyncxx.Async.Sequential.{IsIdle, solo, holding, drive, computes, stops}
use asyncxx.Async.Main.{completing}
use asyncxx.Async.Main.Returns.{Block, call, rest_count, lift, call-lift, create-wakes}
use asyncxx.Async.Main.Nested.{asleep, awake, hands_over}
use asyncxx.Async.Await.{woken}
use asyncxx.Async.Main.Pair.{pair, turns, drained, reaches}
use asyncxx.Async.Main.Calling.{create-Awaited, outer, taken, begin_call}
use asyncxx.Async.Main.Tasks.{turns_lem}
use asyncxx.Async.Exchange.{Queued, answered, put_in, exchange, stores, made, waited}
use asyncxx.Async.Main.Awaits.{run_alone}
use asyncxx.Async.Exchange.Slices.{exec-exchange, answered-Settled, exec-puts}

module _ {ℓ κ} {V : Type ℓ} {U : Type κ} (c : Config) where
  -- From the first slice of the producer to the slice in which the main task goes on with `v`.
  exchanges :
      (init : V) (b : Block V U) (k : Result V → Program V (Queued V U)) (n : ℕ)
      (m : Task V (Queued V U)) (l : EventLoop V (Queued V U))
      → l.shared.heap.to_wake ≡ []
      → l.main_task_id ≡ some m.id
      → m.id ≢ l.task_id_counter
      → let t = made c init b l in
        let d = waited c init m.id l in
        let (v, w) = call b l.shared.user.1 in
        let r = (create init (create init l.shared.heap).1).0 in
        drive c (turns (lift b) d.shared.user (suc (suc n))) (
          after_slice c
            (exec c t.id t.worker (pair (asleep c m r k) (record t { state = State.exec }) 1 d)))
        ≡ drive c n (
            after_slice c (
              exec c m.id (k (ok v)) (
                solo c (awake c m r k) 0 (
                  holding c
                    (drained (answered init v m.id l.shared.heap) (Queue.new, w))
                    (record d { stacks = free t.stack.0 d.stacks })))))
  unfolding completing
  exchanges init b k n m l w mi ne =
      let h = l.shared.heap in
      let (p, g) = create init h in
      let r = (create init g).0 in
      let t = record (made c init b l) { state = State.exec } in
      let d = waited c init m.id l in
      let z = (create-Awaited init m.id g (create-wakes init h ∙ w)).none_to_wake in
      let rest : V → Program V (Queued V U) =
        λ v. put_in v (act (λ _ s. with_heap (complete_at p v) s) (λ _ _. finish)) in
      let (x, e) =
        reaches c m (woken c r k) (lift b) rest (suc (suc n)) t d.shared.heap d.shared.user d refl
          z in
      let (v, u) = call b l.shared.user.1 in
      let t' = record t { ctx = x } in
      let ((g1, e1, d1, _, _), (f, e2, d2, n2, x2), z2) = answered-Settled c init v m k h w in
      let slice : V × Queued V U → Outcome (EventLoop V (Queued V U)) = λ y. after_slice c (
        exec c t.id (rest y.0) (
          pair (asleep c m r k) t' 1
            (holding c (record { heap = d.shared.heap; user = y.1 }) d))) in
      e
      ∙ ap (λ y. drive c (suc (suc n)) (slice y)) (call-lift b d.shared.user.0 l.shared.user.1).0
      ∙ ap (drive c (suc (suc n))) (exec-puts c init v m.id t' h u (asleep c m r k) d)
      ∙ hands_over c m r k v n (record t { state = State.done; ctx = none })
          (answered init v m.id h) (Queue.new, u) d p g1 f refl refl mi ne e1 d1 z2 e2 d2 n2 x2

  -- On an idle loop, `run` of a main task that creates a queue, starts a producer, awaits what `get`
  -- gives it and stores that ends, if the fuel is twice the number of times that the producer's block
  -- yields, and 6, or more. The producer puts what its block returns; `store` has then got what the
  -- block returns when it is called plainly on the program's data, and the data as that call leaves it;
  -- the queue is empty with nobody on record, and the loop is idle again.
  pub exchange_lem :
      (init : V) (b : Block V U) (store : V → U → U) (fuel : ℕ) (l : EventLoop V (Queued V U))
      → IsIdle l
      → 2 * rest_count b l.shared.user.1 + 6 ≤ fuel
      → let (v, w) = call b l.shared.user.1 in
        (m : EventLoop V (Queued V U)) × (run c fuel (exchange init b store) l
          ≡ some (Outcome.ok m))
        × (m.shared.user ≡ (Queue.new, store v w))
        × IsIdle m
  unfolding rethrow
  exchange_lem init b store fuel l i h =
      let main = exchange init b store in
      let k = stores store in
      let l' = taken c l in
      let o = outer c main l in
      let t = made c init b l' in
      let d = waited c init o.id l' in
      let (p, g) = create init l.shared.heap in
      let r = (create init g).0 in
      let (v, w) = call b l.shared.user.1 in
      let n = fuel - (2 * rest_count b l.shared.user.1 + 4) in
      let s : Shared V (Queued V U) = drained (answered init v o.id l.shared.heap) (Queue.new, w) in
      let slices = turns (lift b) d.shared.user (suc (suc n)) in
      let (_, y) = call-lift b d.shared.user.0 l.shared.user.1 in
      let enough : fuel ≡ suc (suc slices) =
        omega (arith, h, y, turns_lem c (lift b) d.shared.user (suc (suc n))) in
      let z =
        (create-Awaited init o.id g
          (create-wakes init l.shared.heap ∙ i.none_to_wake)).none_to_wake in
      let (m, q, e, j) =
        run_alone c main (k (ok v)) (suc (suc slices)) n l
          (record d { stacks = free t.stack.0 d.stacks }) s (awake c o r k) (computes refl stops)
          refl refl (omega arith)
          (begin_call c main o t (woken c r k) slices l d i refl z
              (exec-exchange c init b store o l')
            ∙ exchanges init b k n o l' i.none_to_wake refl (omega arith))
          refl in
      (m, ap (λ x. run c x main l) enough ∙ q, ap (λ x. x.user) e, j)
