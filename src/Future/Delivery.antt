-- ===== src/Future/Delivery.antt =====
-- include/async/future.h: what a task that waits for a future gets, and when it is woken.
use asyncxx.Base.{◌≡◌, ◌∙◌, refl, ap, false, List, [], ◌∷◌, ◌++◌, some}
use asyncxx.Api.{TaskId, ok, err, cancelled}
use asyncxx.Api.Laws.{woken-notify_each}
use asyncxx.FutureState
use asyncxx.Future.{
  Future, Ref, Heap, wakes, find, complete, cancel, complete_at, cancel_at, save_waiter_at,
  after_wait, update,
}
use asyncxx.Future.Laws.{update_self}

module _ {ℓ} {V : Type ℓ} where
  -- What a task finds in a future once it runs again.
  abbrev pub Finds : Ref → Heap V → (Future V → Type ℓ) → Type ℓ
  Finds r h P = (g : Future V) × (find r h ≡ some g) × P g

  -- A task saves itself as a waiter of a pending future, and then the future is completed with `v`:
  -- the future's waiters are woken in the order in which they were saved, that task last, and it gets
  -- `v`. If the future is cancelled instead, the same tasks are woken and it gets `CancelledException`;
  -- a cancellation that follows the completion turns the value into that exception, and wakes the
  -- same tasks once more.
  pub await_complete :
      (r : Ref) (id : TaskId) (v : V) (h : Heap V) (f : Future V)
      → find r h ≡ some f
      → f.state.cancelled ≡ false
      → let h' = save_waiter_at r id h in
        let ws = f.state.waiters ++ id ∷ [] in
        Finds r (complete_at r v h') (λ g. after_wait g ≡ ok v)
        × ((complete_at r v h').to_wake ≡ h.to_wake ++ ws)
        × Finds r (cancel_at r h') (λ g. after_wait g ≡ err cancelled)
        × ((cancel_at r h').to_wake ≡ h.to_wake ++ ws)
        × Finds r (cancel_at r (complete_at r v h')) (λ g. after_wait g ≡ err cancelled)
        × ((cancel_at r (complete_at r v h')).to_wake ≡ (h.to_wake ++ ws) ++ ws)
  unfolding find save_waiter_at complete_at cancel_at after_wait FutureState.complete
      FutureState.cancel FutureState.save_waiter
  await_complete r id v h f e n =
      let saved : Future V → List TaskId → Future V × List TaskId =
        λ g ws. (record g { state = FutureState.save_waiter id g.state }, ws) in
      let h' = update r saved h in
      let f' = (saved f h.to_wake).0 in
      let (e', w') = update_self r saved h e in
      let (done, woken) = update_self r (complete wakes v) h' e' in
      let g = (complete wakes v f' h'.to_wake).0 in
      let h'' = update r (complete wakes v) h' in
      let (gone, woken') = update_self r (cancel wakes) h' e' in
      let (gone'', woken'') = update_self r (cancel wakes) h'' done in
      let ws = f.state.waiters ++ id ∷ [] in
      let listed = woken-notify_each wakes ws h'.to_wake ∙ ap (λ us. us ++ ws) w' in
      (
        (g, done, rw n),
        woken ∙ listed,
        ((cancel wakes f' h'.to_wake).0, gone, refl),
        woken' ∙ listed,
        ((cancel wakes g h''.to_wake).0, gone'', refl),
        woken'' ∙ woken-notify_each wakes ws h''.to_wake ∙ ap (λ us. us ++ ws) (woken ∙ listed),
      )
