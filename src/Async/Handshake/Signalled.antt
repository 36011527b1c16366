-- ===== src/Async/Handshake/Signalled.antt =====
-- Two tasks with an event between them, from the start of the loop to its end.
use asyncxx.Base.{
  ℕ, suc, ◌+◌, ◌*◌, ◌-◌, ◌≤◌, ◌≡◌, ◌≢◌, refl, ap, ◌∙◌, Bool, true, false, [], ◌∷◌, none, some,
  arith,
}
use asyncxx.Api.{TaskId, notify_each}
use asyncxx.Event.{Event, notify_one, notify_all, save_waiter}
use asyncxx.Event
use asyncxx.Future.{Heap, new, create, complete_at, find}
use asyncxx.Future.Laws.{Settled, complete_at-Settled}
use asyncxx.StackPool.{free}
use asyncxx.Task.{State, Task, Program, Shared, act, finish}
use asyncxx.Loop.Types.{Config, EventLoop, Outcome}
use asyncxx.Loop.Cycle.{exec, after_slice, add_task, modify_at}
use asyncxx.Async.{run, task, event_wait, with_heap}
use asyncxx.Async.Sequential.{IsIdle, solo, holding, drive, computes, stops}
use asyncxx.Async.Main.{completing}
use asyncxx.Async.Main.Returns.{
  Block, call, rest_count, lift, call-lift, complete_at-wakes, create-wakes,
}
use asyncxx.Async.Main.Pair.{pair, turns, drained, sleeper, roused, reaches, lets_go}
use asyncxx.Async.Main.Calling.{called, find-create, outer, taken, begin_call}
use asyncxx.Async.Main.Tasks.{turns_lem}
use asyncxx.Async.Main.Awaits.{run_alone}
use asyncxx.Async.Handshake.{Evented, signalled, reacts, handshake, made, waited}

module _ {ℓ} {V : Type ℓ} where
  -- The memory when the notifier has returned `v`.
  abbrev notified : V → V → TaskId → Heap V → Heap V
  notified init v id h =
      let (p, g) = create init h in
      complete_at p v (record { futures = g.futures; to_wake = id ∷ [] })

  -- The notifier's future has got `v`, and the main task is to be woken.
  notified-Settled :
      (init v : V) (id : TaskId) (h : Heap V)
      → let h' = notified init v id h in Settled h' (create init h).0 v × (h'.to_wake ≡ id ∷ [])
  unfolding new find
  notified-Settled init v id h =
      let (p, g) = create init h in
      let g' : Heap V = record { futures = g.futures; to_wake = id ∷ [] } in
      let own = find-create init h in
      (
        complete_at-Settled p v g' (new init, own, refl, refl),
        complete_at-wakes p v g' (new init, own, refl),
      )

module _ {ℓ κ} {V : Type ℓ} {U : Type κ} (c : Config) where
  exec-handshake :
      (all : Bool) (init : V) (b : Block V U) (react : U → U) (m : Task V (Evented U))
      (l : EventLoop V (Evented U))
      → after_slice c (exec c m.id (handshake all init b react) (solo c m 0 l))
        ≡ Outcome.ok (called c m (made c all init b l) (reacts react) (waited c init m.id l))
  unfolding exec task completing after_slice modify_at add_task handshake event_wait save_waiter
      Event.new
  exec-handshake all init b react m l = refl

  -- The last slice of the notifier, from the end of its block.
  exec-signals :
      (all : Bool) (init v : V) (id : TaskId) (t m : Task V (Evented U)) (h : Heap V) (u : U)
      (l : EventLoop V (Evented U))
      → h.to_wake ≡ []
      → let (p, g) = create init h in
        after_slice c (
          exec c t.id
            (act
              (λ _ s. signalled all s)
              (λ _ _. act (λ _ s. with_heap (complete_at p v) s) (λ _ _. finish)))
            (pair m t 1 (holding c (record { heap = g; user = (record { list = id ∷ [] }, u) }) l)))
        ≡ Outcome.ok (
            pair m
              (record t { state = State.done; ctx = none })
              1
              (holding c (record { heap = notified init v id h; user = (Event.new, u) }) l))
  unfolding exec after_slice modify_at signalled notify_one notify_all notify_each Event.new create
  exec-signals true init v id t m h u l w = rw (w) refl
  exec-signals false init v id t m h u l w = rw (w) refl

  -- From the first slice of the notifier to the slice in which the main task goes on.
  signals :
      (all : Bool) (init : V) (b : Block V U) (w : Program V (Evented U)) (n : ℕ)
      (m : Task V (Evented U)) (l : EventLoop V (Evented U))
      → l.shared.heap.to_wake ≡ []
      → l.main_task_id ≡ some m.id
      → m.id ≢ l.task_id_counter
      → let t = made c all init b l in
        let d = waited c init m.id l in
        let (v, u) = call b l.shared.user.1 in
        drive c (turns (lift b) d.shared.user (suc (suc n))) (
          after_slice c
            (exec c t.id t.worker (pair (sleeper c m w) (record t { state = State.exec }) 1 d)))
        ≡ drive c n (
            after_slice c (
              exec c m.id w (
                solo c (roused c m w) 0 (
                  holding c
                    (drained (notified init v m.id l.shared.heap) (Event.new, u))
                    (record d { stacks = free t.stack.0 d.stacks })))))
  unfolding completing
  signals all init b w n m l z mi ne =
      let h = l.shared.heap in
      let (p, g) = create init h in
      let t = record (made c all init b l) { state = State.exec } in
      let d = waited c init m.id l in
      let rest : V → Program V (Evented U) = λ v.
        act (λ _ s. signalled all s)
          (λ _ _. act (λ _ s. with_heap (complete_at p v) s) (λ _ _. finish)) in
      let (x, e) =
        reaches c m w (lift b) rest (suc (suc n)) t g d.shared.user d refl
          (create-wakes init h ∙ z) in
      let (v, u) = call b l.shared.user.1 in
      let t' = record t { ctx = x } in
      let ((f, e1, d1, _, _), z1) = notified-Settled init v m.id h in
      let slice : V × Evented U → Outcome (EventLoop V (Evented U)) = λ y. after_slice c (
        exec c t.id (rest y.0)
          (pair (sleeper c m w) t' 1 (holding c (record { heap = g; user = y.1 }) d))) in
      e
      ∙ ap (λ y. drive c (suc (suc n)) (slice y)) (call-lift b d.shared.user.0 l.shared.user.1).0
      ∙ ap (drive c (suc (suc n))) (exec-signals all init v m.id t' (sleeper c m w) h u d z)
      ∙ lets_go c m w n (record t { state = State.done; ctx = none }) (notified init v m.id h)
          (Event.new, u) d p f refl refl mi ne e1 d1 z1

  -- On an idle loop, `run` of a main task that creates an event, starts a task and waits for the event,
  -- which that task notifies, by either call, at the end of a block that computes and yields, ends, if
  -- the fuel is twice the number of times that the block yields, and 6, or more. The main task reacts to
  -- the data as the block leaves it when it is called plainly, nobody is left in line, and the loop is
  -- idle again.
  pub handshake_lem :
      (all : Bool) (init : V) (b : Block V U) (react : U → U) (fuel : ℕ)
      (l : EventLoop V (Evented U))
      → IsIdle l
      → 2 * rest_count b l.shared.user.1 + 6 ≤ fuel
      → (m : EventLoop V (Evented U)) × (run c fuel (handshake all init b react) l
          ≡ some (Outcome.ok m))
        × (m.shared.user ≡ (Event.new, react (call b l.shared.user.1).1))
        × IsIdle m
  handshake_lem all init b react fuel l i h =
      let main : Program V (Evented U) = handshake all init b react in
      let w : Program V (Evented U) = reacts react in
      let l' = taken c l in
      let o = outer c main l in
      let t = made c all init b l' in
      let d = waited c init o.id l' in
      let (v, u) = call b l.shared.user.1 in
      let n = fuel - (2 * rest_count b l.shared.user.1 + 4) in
      let s : Shared V (Evented U) = drained (notified init v o.id l.shared.heap) (Event.new, u) in
      let slices = turns (lift b) d.shared.user (suc (suc n)) in
      let (_, y) = call-lift b d.shared.user.0 l.shared.user.1 in
      let enough : fuel ≡ suc (suc slices) =
        omega (arith, h, y, turns_lem c (lift b) d.shared.user (suc (suc n))) in
      let (m, q, e, j) =
        run_alone c main w (suc (suc slices)) n l (record d { stacks = free t.stack.0 d.stacks }) s
          (roused c o w) (computes refl stops) refl refl (omega arith)
          (begin_call c main o t w slices l d i refl
              (create-wakes init l.shared.heap ∙ i.none_to_wake)
              (exec-handshake all init b react o l')
            ∙ signals all init b w n o l' i.none_to_wake refl (omega arith))
          refl in
      (m, ap (λ x. run c x main l) enough ∙ q, ap (λ x. x.user) e, j)
