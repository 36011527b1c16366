-- ===== src/Async/Exchange/Slices.antt =====
-- What the slices of the two tasks with a queue between them do.
use asyncxx.Base.{◌≡◌, refl, sym, ap, ◌∙◌, [], ◌∷◌, none}
use asyncxx.Api.{TaskId, Result}
use asyncxx.Future.{Heap, new, create, complete_at, save_waiter_at, find}
use asyncxx.Future.Laws.{Settled, Settled-find, complete_at-Settled, find-complete_at_ne}
use asyncxx.Queue.{Queue, put, get, complete_front, pop_front}
use asyncxx.Queue
use asyncxx.Task.{State, Task, Program, act, finish}
use asyncxx.Loop.Types.{Config, EventLoop, Outcome}
use asyncxx.Loop.Cycle.{exec, after_slice, add_task, modify_at}
use asyncxx.Async.{task, with_heap}
use asyncxx.Async.Await.{exec-await_waits, woken}
use asyncxx.Async.Sequential.{solo, holding}
use asyncxx.Async.Main.{completing}
use asyncxx.Async.Main.Returns.{Block, complete_at-wakes, create-wakes}
use asyncxx.Async.Main.Pair.{pair}
use asyncxx.Async.Main.Nested.{complete_at-Awaited}
use asyncxx.Async.Main.Calling.{called, find-create, create-Awaited}
use asyncxx.Async.Main.Tasks.{find-outer}
use asyncxx.Async.Exchange.{
  Queued, answered, put_in, get_from, exchange, stores, sleeping, made, waited,
}

module _ {ℓ κ} {V : Type ℓ} {U : Type κ} (c : Config) where
  pub exec-exchange :
      (init : V) (b : Block V U) (store : V → U → U) (m : Task V (Queued V U))
      (l : EventLoop V (Queued V U))
      → after_slice c (exec c m.id (exchange init b store) (solo c m 0 l))
        ≡ Outcome.ok (
            called c m
              (made c init b l)
              (woken c (create init (create init l.shared.heap).1).0 (stores store))
              (waited c init m.id l))
  unfolding exec task completing after_slice modify_at add_task new exchange get_from get create
      find Queue.new
  exec-exchange init b store m l =
      let g = (create init l.shared.heap).1 in
      let r = (create init g).0 in
      ap (after_slice c)
        (exec-await_waits c m.id r (stores store) _ (new init) (find-create init g) refl)

  -- Both futures have got `v`, and the main task is to be woken.
  pub answered-Settled :
      (init v : V) (m : Task V (Queued V U)) (k : Result V → Program V (Queued V U)) (h : Heap V)
      → h.to_wake ≡ []
      → let (p, g) = create init h in
        let h' = answered init v m.id h in
        Settled h' p v × Settled h' (create init g).0 v × (h'.to_wake ≡ m.id ∷ [])
  unfolding new
  answered-Settled init v m k h w =
      let (p, g) = create init h in
      let (r, g') = create init g in
      let (apart, own) = find-outer init init m.id h in
      let (f, e, d, n, x, z) =
        complete_at-Awaited c m r k v (save_waiter_at r m.id g')
          (create-Awaited init m.id g (create-wakes init h ∙ w)) in
      let h1 = complete_at r v (save_waiter_at r m.id g') in
      let kept = find-complete_at_ne p r v (save_waiter_at r m.id g') apart ∙ own in
      (
        complete_at-Settled p v h1 (new init, kept, refl, refl),
        Settled-find h1 (complete_at p v h1) r v (find-complete_at_ne r p v h1 (λ q. apart (sym q)))
            (f, e, d, n, x),
        complete_at-wakes p v h1 (new init, kept, refl) ∙ z,
      )

  -- The last slice of the producer, from the end of its block.
  pub exec-puts :
      (init v : V) (id : TaskId) (t : Task V (Queued V U)) (h : Heap V) (u : U)
      (m : Task V (Queued V U)) (l : EventLoop V (Queued V U))
      → let (p, g) = create init h in
        let r = (create init g).0 in
        let s = sleeping init id (record { heap = h; user = (Queue.new, u) }) in
        after_slice c (
          exec c t.id
            (put_in v (act (λ _ s. with_heap (complete_at p v) s) (λ _ _. finish)))
            (pair m t 1 (holding c (record { heap = s.heap; user = (s.user.0, u) }) l)))
        ≡ Outcome.ok (
            pair m
              (record t { state = State.done; ctx = none })
              1
              (holding c (record { heap = answered init v id h; user = (Queue.new, u) }) l))
  unfolding exec after_slice modify_at put_in put complete_front pop_front Queue.new
  exec-puts init v id t h u m l = refl
