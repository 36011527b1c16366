-- ===== src/Async/Main/Nested.antt =====
-- A task that another one awaits, in include/async/async.h and loop.h: the two tasks in the loop, from
-- the first slice of the inner one to the slice in which the outer one gets its result.
use asyncxx.Base.{ℕ, suc, ◌≡◌, ◌≢◌, refl, ap, ◌∙◌, true, false, [], ◌∷◌, none, some}
use asyncxx.Api.{TaskId, Result, ok, notify_each}
use asyncxx.Future.{
  Ref, Heap, Future, wakes, complete, complete_at, find, after_wait, is_cancelled, is_completed,
}
use asyncxx.Future.Laws.{update_self}
use asyncxx.FutureState
use asyncxx.StackPool.{free}
use asyncxx.Task.{State, Task, Shared, Program}
use asyncxx.Loop.Types.{Config, EventLoop, Outcome}
use asyncxx.Loop.Cycle.{exec, after_slice, modify_at}
use asyncxx.Async.{deliver, with_heap}
use asyncxx.Async.Await.{woken}
use asyncxx.Async.Sequential.{solo, holding, drive}
use asyncxx.Async.Main.{completing}
use asyncxx.Async.Main.Pair.{turns, pair, drained, sleeper, roused, reaches, lets_go}
use asyncxx.Async.Main.Returns.{Block, body, call}

-- The future is pending, and one task waits for it.
pub record Awaited {ℓ} {V : Type ℓ} (r : Ref) (id : TaskId) (h : Heap V) : Type ℓ where
  pub future : Future V
  pub found : find r h ≡ some future
  pub pending : future.state.completed ≡ false
  pub alive : future.state.cancelled ≡ false
  pub waits : future.state.waiters ≡ id ∷ []
  pub none_to_wake : h.to_wake ≡ []

module _ {ℓ κ} {V : Type ℓ} {U : Type κ} where
  module _ (c : Config) (m : Task V U) (r : Ref) (k : Result V → Program V U) where
    abbrev pub asleep : Task V U
    asleep = sleeper c m (woken c r k)

    abbrev pub awake : Task V U
    awake = roused c m (woken c r k)

    pub complete_at-Awaited :
        (v : V) (h : Heap V) (a : Awaited r m.id h)
        → let h' = complete_at r v h in
          (f : Future V) × (find r h' ≡ some f)
          × (f.state.completed ≡ true)
          × (f.state.cancelled ≡ false)
          × (f.result ≡ v)
          × (h'.to_wake ≡ m.id ∷ [])
    unfolding find complete_at FutureState.complete notify_each
    complete_at-Awaited v h a =
        let (e, w) = update_self r (complete wakes v) h a.found in
        (
          (complete wakes v a.future h.to_wake).0,
          e,
          refl,
          a.alive,
          refl,
          w ∙ rw (a.waits, a.none_to_wake) refl,
        )

    -- What the outer task does when it runs again.
    pub exec-woken :
        (v : V) (l : EventLoop V U) (f : Future V)
        → find r l.shared.heap ≡ some f
        → f.state.completed ≡ true
        → f.state.cancelled ≡ false
        → f.result ≡ v
        → exec c m.id (woken c r k) l ≡ exec c m.id (k (ok v)) l
    unfolding exec after_wait is_cancelled is_completed
    exec-woken v l f e d n x =
        ap (λ o. exec c m.id (deliver k after_wait o) l) e
        ∙ rw (n, d) (ap (λ w. exec c m.id (k (ok w)) l) x)

    -- Two cycles: the inner task, which is done, is deleted, and the outer one goes on with `v`, alone.
    -- The future `q` of the inner task need not be the one that the outer task awaits.
    pub hands_over :
        (v : V) (fuel : ℕ) (t : Task V U) (h : Heap V) (u : U) (l : EventLoop V U) (q : Ref)
        (g f : Future V)
        → t.state ≡ State.done
        → t.result_future ≡ some q
        → l.main_task_id ≡ some m.id
        → m.id ≢ t.id
        → find q h ≡ some g
        → g.state.completed ≡ true
        → h.to_wake ≡ m.id ∷ []
        → find r h ≡ some f
        → f.state.completed ≡ true
        → f.state.cancelled ≡ false
        → f.result ≡ v
        → drive c
            (suc (suc fuel))
            (Outcome.ok (pair asleep t 1 (holding c (record { heap = h; user = u }) l)))
          ≡ drive c fuel (
              after_slice c (
                exec c m.id (k (ok v)) (
                  solo c awake 0
                    (holding c (drained h u) (record l { stacks = free t.stack.0 l.stacks })))))
    unfolding find
    hands_over v fuel t h u l q g f s rf mi ne e d w e' d' n x =
        let l' = holding c (drained h u) (record l { stacks = free t.stack.0 l.stacks }) in
        lets_go c m (woken c r k) fuel t h u l q g s rf mi ne e d w
        ∙ ap (λ o. drive c fuel (after_slice c o)) (exec-woken v (solo c awake 0 l') f e' d' n x)

    -- The inner task computes, yields and returns `v`; the outer one goes on with `v`, alone.
    pub nested :
        (b : Block V U) (fuel : ℕ) (t : Task V U) (h : Heap V) (u : U) (l : EventLoop V U)
        → t.state ≡ State.exec
        → t.result_future ≡ some r
        → l.main_task_id ≡ some m.id
        → m.id ≢ t.id
        → Awaited r m.id h
        → let (v, u') = call b u in
          let l' = record l { stacks = free t.stack.0 l.stacks } in
          let p : Shared V U = record { heap = h; user = u } in
          drive c
            (turns b u (suc (suc fuel)))
            (after_slice c (exec c t.id (completing r (body b)) (pair asleep t 1 (holding c p l))))
          ≡ drive c fuel (
              after_slice c (
                exec c m.id
                  (k (ok v))
                  (solo c awake 0 (holding c (drained (complete_at r v h) u') l'))))
    unfolding after_slice exec modify_at completing find
    nested b fuel t h u l s rf mi ne a =
        let (v, u') = call b u in
        let t' = record t { state = State.done; ctx = none } in
        let h' = complete_at r v h in
        let (f, e, d, n, x, w) = complete_at-Awaited v h a in
        (reaches c m (woken c r k) b
          (λ v. Program.act (λ _ s. with_heap (complete_at r v) s) (λ _ s. Program.finish))
          (suc (suc fuel)) t h u l s a.none_to_wake).1
        ∙ hands_over v fuel t' h' u' l r f f refl rf mi ne e d w e d n x
