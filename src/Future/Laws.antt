-- ===== src/Future/Laws.antt =====
-- What the operations on shared futures change, and what they leave alone.
use asyncxx.Base.{
  ◌+◌, ◌<◌, ◌∙◌, inl, inr, ◌≡◌, ◌≢◌, refl, sym, true, false, List, [], ◌∷◌, some, arith, length,
  length-append, length-set, get_elem?, get_elem?-lt, get_elem?-set_ne, get_elem?-set_self,
  get_elem?-append, get_elem?-append_self, Option-cases, ℕ_discrete, subst,
}
use asyncxx.Api.{TaskId}
use asyncxx.FutureState
use asyncxx.FutureState.{FutureState}
use asyncxx.Future.{
  Future, Ref, Heap, wakes, new, find, create, complete, cancel, update, complete_at, cancel_at,
  save_waiter_at,
}

module _ {ℓ} {V : Type ℓ} where
  -- The future exists and nobody has completed or cancelled it.
  abbrev pub Pending : Heap V → Ref → Type ℓ
  Pending h r =
      (f : Future V) × (find r h ≡ some f)
      × (f.state.completed ≡ false)
      × (f.state.cancelled ≡ false)

  -- The future is completed with a value, and not cancelled.
  abbrev pub Settled : Heap V → Ref → V → Type ℓ
  Settled h r x =
      (f : Future V) × (find r h ≡ some f)
      × (f.state.completed ≡ true)
      × (f.state.cancelled ≡ false)
      × (f.result ≡ x)

  abbrev pub Cancelled : Heap V → Ref → Type ℓ
  Cancelled h r = (f : Future V) × (find r h ≡ some f) × (f.state.cancelled ≡ true)

  update_ne :
      (r s : Ref) (op : Future V → List TaskId → Future V × List TaskId) (h : Heap V)
      → s ≢ r
      → get_elem? (update s op h).futures r ≡ get_elem? h.futures r
  unfolding update
  update_ne r s op h d = elim (Option-cases (get_elem? h.futures s)) [
    | inl e ↦ rw (e, update)
    | inr (f, e) ↦ rw (e, update) (get_elem?-set_ne h.futures _ d)
  ]

  pub update_self :
      (r : Ref) (op : Future V → List TaskId → Future V × List TaskId) (h : Heap V) {f : Future V}
      → get_elem? h.futures r ≡ some f
      → (get_elem? (update r op h).futures r ≡ some (op f h.to_wake).0)
        × ((update r op h).to_wake ≡ (op f h.to_wake).1)
  unfolding update
  update_self r op h e =
      rw (e, update) (get_elem?-set_self h.futures r _ (get_elem?-lt h.futures r e), refl)

  pub find-complete_at_ne :
      (r s : Ref) (x : V) (h : Heap V) → s ≢ r → find r (complete_at s x h) ≡ find r h
  unfolding find complete_at
  find-complete_at_ne r s x h d = update_ne r s (complete wakes x) h d

  pub find-cancel_at_ne : (r s : Ref) (h : Heap V) → s ≢ r → find r (cancel_at s h) ≡ find r h
  unfolding find cancel_at
  find-cancel_at_ne r s h d = update_ne r s (cancel wakes) h d

  pub find-save_waiter_at_ne :
      (r s : Ref) (id : TaskId) (h : Heap V) → s ≢ r → find r (save_waiter_at s id h) ≡ find r h
  unfolding find save_waiter_at
  find-save_waiter_at_ne r s id h d =
      update_ne r s (λ f ws. (record f { state = FutureState.save_waiter id f.state }, ws)) h d

  -- Completing a pending future settles it and wakes its waiters, in order.
  pub complete_at-Settled :
      (r : Ref) (x : V) (h : Heap V) → Pending h r → Settled (complete_at r x h) r x
  unfolding find complete_at FutureState.complete
  complete_at-Settled r x h (f, e, c, d) =
      ((complete wakes x f h.to_wake).0, (update_self r (complete wakes x) h e).0, refl, d, refl)

  pub cancel_at-Cancelled :
      (r : Ref) (h : Heap V) {f : Future V} → find r h ≡ some f → Cancelled (cancel_at r h) r
  unfolding find cancel_at FutureState.cancel
  cancel_at-Cancelled r h {f} e =
      ((cancel wakes f h.to_wake).0, (update_self r (cancel wakes) h e).0, refl)

  pub find-create_ne :
      (r : Ref) (v : V) (h : Heap V) → r < length h.futures → find r (create v h).1 ≡ find r h
  unfolding find create
  find-create_ne r v h lt = get_elem?-append h.futures _ r lt

  pub create-Pending : (v : V) (h : Heap V) → Pending (create v h).1 (create v h).0
  unfolding find create
  create-Pending v h = (new v, get_elem?-append_self h.futures (new v), refl, refl)

  pub length-complete_at :
      (r : Ref) (x : V) (h : Heap V) → length (complete_at r x h).futures ≡ length h.futures
  unfolding complete_at
  length-complete_at r x h = elim (Option-cases (get_elem? h.futures r)) [
    | inl e ↦ rw (e, update)
    | inr (f, e) ↦ rw (e, update) (length-set h.futures r _)
  ]

  pub length-create :
      (v : V) (h : Heap V)
      → (length (create v h).1.futures ≡ length h.futures + 1) × ((create v h).0 ≡ length h.futures)
  unfolding create
  length-create v h = (omega (arith, length-append h.futures (new v ∷ [])), refl)

  pub Pending-lt : (h : Heap V) (r : Ref) → Pending h r → r < length h.futures
  unfolding find
  Pending-lt h r p = get_elem?-lt h.futures r p.1

  pub Settled-lt : (h : Heap V) (r : Ref) (x : V) → Settled h r x → r < length h.futures
  unfolding find
  Settled-lt h r x p = get_elem?-lt h.futures r p.1

  -- A future that looks the same in another heap is as pending or as settled there.
  pub Pending-find : (g h : Heap V) (r : Ref) → find r h ≡ find r g → Pending g r → Pending h r
  Pending-find g h r e (f, p, c, d) = (f, e ∙ p, c, d)

  pub Settled-find :
      (g h : Heap V) (r : Ref) (x : V) → find r h ≡ find r g → Settled g r x → Settled h r x
  Settled-find g h r x e (f, p, c, d, v) = (f, e ∙ p, c, d, v)

  -- A task that waits for a future changes nothing of any future but that list of waiters.
  pub save_waiter_at-find :
      (r s : Ref) (id : TaskId) (h : Heap V) {f : Future V}
      → find r h ≡ some f
      → (g : Future V) × (find r (save_waiter_at s id h) ≡ some g)
        × (g.state.completed ≡ f.state.completed)
        × (g.state.cancelled ≡ f.state.cancelled)
        × (g.result ≡ f.result)
  unfolding find save_waiter_at FutureState.save_waiter
  save_waiter_at-find r s id h {f} e = elim (ℕ_discrete s r) [
    | yes d ↦ (
      save id f,
      subst (λ t. get_elem? (update t (λ g ws. (save id g, ws)) h).futures r ≡ some (save id f))
          (sym d) (update_self r (λ g ws. (save id g, ws)) h e).0,
      refl,
      refl,
      refl,
    )
    | no d ↦ (f, update_ne r s (λ g ws. (save id g, ws)) h d ∙ e, refl, refl, refl)
  ]
    where
      save : TaskId → Future V → Future V
      save id f = record f { state = FutureState.save_waiter id f.state }

  pub save_waiter_at-Settled :
      (r s : Ref) (id : TaskId) (x : V) (h : Heap V)
      → Settled h r x
      → Settled (save_waiter_at s id h) r x
  save_waiter_at-Settled r s id x h (f, e, c, d, v) =
      let (g, e', c', d', v') = save_waiter_at-find r s id h e in (g, e', c' ∙ c, d' ∙ d, v' ∙ v)

  pub save_waiter_at-Pending :
      (r s : Ref) (id : TaskId) (h : Heap V) → Pending h r → Pending (save_waiter_at s id h) r
  save_waiter_at-Pending r s id h (f, e, c, d) =
      let (g, e', c', d', v') = save_waiter_at-find r s id h e in (g, e', c' ∙ c, d' ∙ d)

  pub length-save_waiter_at :
      (r : Ref) (id : TaskId) (h : Heap V)
      → length (save_waiter_at r id h).futures ≡ length h.futures
  unfolding save_waiter_at
  length-save_waiter_at r id h = elim (Option-cases (get_elem? h.futures r)) [
    | inl e ↦ rw (e, update)
    | inr (f, e) ↦ rw (e, update) (length-set h.futures r _)
  ]

  pub save_waiter_at-wakes :
      (r : Ref) (id : TaskId) (h : Heap V) → (save_waiter_at r id h).to_wake ≡ h.to_wake
  unfolding save_waiter_at
  save_waiter_at-wakes r id h = elim (Option-cases (get_elem? h.futures r)) [
    | inl e ↦ rw (e, update)
    | inr (f, e) ↦ rw (e, update)
  ]
