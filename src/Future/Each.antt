-- ===== src/Future/Each.antt =====
-- Completing several futures of include/async/future.h one after the other: what becomes of them, and
-- who is notified.
use asyncxx.Base.{
  get_elem?, ◌≡◌, refl, sym, ap, ◌∙◌, ◌==◌, true, inl, inr, List, [], ◌∷◌, ◌++◌, some, map, arith,
  Bool-cases, Option-cases, ℕ_discrete, subst,
}
use asyncxx.Api.{TaskId}
use asyncxx.Api.Laws.{woken-notify_each}
use asyncxx.FutureState
use asyncxx.Future.{Future, Ref, Heap, wakes, find, complete, update, complete_at, save_waiter_at}
use asyncxx.Future.Laws.{update_self, find-complete_at_ne}
use asyncxx.Loop.Wakeups.{has_id}

has_id-append_left :
    (id : TaskId) (is js : List TaskId) → has_id id is ≡ true → has_id id (is ++ js) ≡ true
has_id-append_left id [] js h = absurd (cc)
has_id-append_left id (i ∷ is) js h = elim (Bool-cases (i == id)) [
  | inl e ↦ rw (e) refl
  | inr n ↦ ground (arith, n, h, has_id-append_left id is js)
]

has_id-append_right :
    (id : TaskId) (is js : List TaskId) → has_id id js ≡ true → has_id id (is ++ js) ≡ true
has_id-append_right id [] js h = h
has_id-append_right id (i ∷ is) js h = ground (arith, has_id-append_right id is js h)

module _ {ℓ} {V : Type ℓ} where
  -- The task waits in line at the future.
  abbrev pub InLine : TaskId → Heap V → Ref → Type ℓ
  InLine self h r = (f : Future V) × (find r h ≡ some f) × (has_id self f.state.waiters ≡ true)

  -- What `complete` makes of any future: none is cancelled, or taken back, and no line is emptied.
  complete_at-find :
      (r s : Ref) (x : V) (h : Heap V) {f : Future V}
      → find r h ≡ some f
      → (g : Future V) × (find r (complete_at s x h) ≡ some g)
        × (g.state.cancelled ≡ f.state.cancelled)
        × (f.state.completed ≡ true → g.state.completed ≡ true)
        × (g.state.waiters ≡ f.state.waiters)
  unfolding find complete_at FutureState.complete
  complete_at-find r s x h {f} e = elim (ℕ_discrete s r) [
    | yes d ↦ (
      (complete wakes x f h.to_wake).0,
      subst
          (λ t.
            get_elem? (update t (complete wakes x) h).futures r
            ≡ some (complete wakes x f h.to_wake).0)
          (sym d) (update_self r (complete wakes x) h e).0,
      refl,
      (λ c. refl),
      refl,
    )
    | no d ↦ (f, find-complete_at_ne r s x h d ∙ e, refl, (λ c. c), refl)
  ]

  complete_at-completed :
      (r : Ref) (x : V) (h : Heap V) {f : Future V}
      → find r h ≡ some f
      → (g : Future V) × (find r (complete_at r x h) ≡ some g)
        × (g.state.cancelled ≡ f.state.cancelled)
        × (g.state.completed ≡ true)
  unfolding find complete_at FutureState.complete
  complete_at-completed r x h {f} e =
      ((complete wakes x f h.to_wake).0, (update_self r (complete wakes x) h e).0, refl, refl)

  -- The waiters of the future are put on record, behind those that are there.
  complete_at-wakes :
      (r : Ref) (x : V) (h : Heap V) {f : Future V}
      → find r h ≡ some f
      → (complete_at r x h).to_wake ≡ h.to_wake ++ f.state.waiters
  unfolding find complete_at FutureState.complete FutureState.notify_all
  complete_at-wakes r x h {f} e =
      (update_self r (complete wakes x) h e).1 ∙ woken-notify_each wakes f.state.waiters h.to_wake

  complete_at-keeps :
      (self : TaskId) (r : Ref) (x : V) (h : Heap V)
      → has_id self h.to_wake ≡ true
      → has_id self (complete_at r x h).to_wake ≡ true
  unfolding find complete_at
  complete_at-keeps self r x h y = elim (Option-cases (find r h)) [
    | inl e ↦ rw (e, update) y
    | inr (f, e) ↦
        ap (has_id self) (complete_at-wakes r x h e)
        ∙ has_id-append_left self h.to_wake f.state.waiters y
  ]

  pub save_waiter_at-InLine :
      (r : Ref) (self : TaskId) (h : Heap V) {f : Future V}
      → find r h ≡ some f
      → InLine self (save_waiter_at r self h) r
  unfolding find save_waiter_at FutureState.save_waiter
  save_waiter_at-InLine r self h {f} e = (
    record f { state = FutureState.save_waiter self f.state },
    (update_self r (λ g ws. (record g { state = FutureState.save_waiter self g.state }, ws)) h e).0,
    has_id-append_right self f.state.waiters (self ∷ []) (ground arith),
  )

  -- Some futures are completed, one after the other.
  abbrev pub complete_each : List (Ref × V) → Heap V → Heap V
  complete_each [] h = h
  complete_each (c ∷ cs) h = complete_each cs (complete_at c.0 c.1 h)

  abbrev pub refs : List (Ref × V) → List Ref
  refs = map λ c. c.0

  pub complete_each-find :
      (r : Ref) (cs : List (Ref × V)) (h : Heap V) {f : Future V}
      → find r h ≡ some f
      → (g : Future V) × (find r (complete_each cs h) ≡ some g)
        × (g.state.cancelled ≡ f.state.cancelled)
        × (f.state.completed ≡ true → g.state.completed ≡ true)
  complete_each-find r [] h {f} e = (f, e, refl, (λ c. c))
  complete_each-find r (c ∷ cs) h e =
      let (g, q, d, m, w) = complete_at-find r c.0 c.1 h e in
      let (g', q', d', m') = complete_each-find r cs (complete_at c.0 c.1 h) q in
      (g', q', d' ∙ d, (λ y. m' (m y)))

  -- A future among those that are completed is completed then, and not cancelled if it was not.
  pub complete_each-completed :
      (r : Ref) (cs : List (Ref × V)) (h : Heap V) {f : Future V}
      → find r h ≡ some f
      → has_id r (refs cs) ≡ true
      → (g : Future V) × (find r (complete_each cs h) ≡ some g)
        × (g.state.cancelled ≡ f.state.cancelled)
        × (g.state.completed ≡ true)
  complete_each-completed r [] h e y = absurd (cc)
  complete_each-completed r ((s, x) ∷ cs) h e y = elim (ℕ_discrete s r) [
    | yes d ↦
        let (g, q, n, c) = complete_at-completed r x h e in
        let q' = subst (λ t. find r (complete_at t x h) ≡ some g) (sym d) q in
        let (g', p, n', m) = complete_each-find r cs (complete_at s x h) q' in (g', p, n' ∙ n, m c)
    | no d ↦
        let (g, q, n, m, w) = complete_at-find r s x h e in
        let (g', p, n', c) =
          complete_each-completed r cs (complete_at s x h) q (ground (arith, d, y)) in
        (g', p, n' ∙ n, c)
  ]

  complete_each-keeps :
      (self : TaskId) (cs : List (Ref × V)) (h : Heap V)
      → has_id self h.to_wake ≡ true
      → has_id self (complete_each cs h).to_wake ≡ true
  complete_each-keeps self [] h y = y
  complete_each-keeps self (c ∷ cs) h y =
      complete_each-keeps self cs (complete_at c.0 c.1 h) (complete_at-keeps self c.0 c.1 h y)

  -- A task in line at one of the futures that are completed is on record then.
  pub complete_each-wakes :
      (self : TaskId) (r : Ref) (cs : List (Ref × V)) (h : Heap V)
      → InLine self h r
      → has_id r (refs cs) ≡ true
      → has_id self (complete_each cs h).to_wake ≡ true
  complete_each-wakes self r [] h l y = absurd (cc)
  complete_each-wakes self r ((s, x) ∷ cs) h (f, e, w) y = elim (ℕ_discrete s r) [
    | yes d ↦ complete_each-keeps self cs (complete_at s x h) (
        subst (λ t. has_id self (complete_at t x h).to_wake ≡ true) (sym d)
          (ap (has_id self) (complete_at-wakes r x h e)
            ∙ has_id-append_right self h.to_wake f.state.waiters w))
    | no d ↦
        let (g, q, n, m, v) = complete_at-find r s x h e in
        complete_each-wakes self r cs (complete_at s x h) (g, q, ap (has_id self) v ∙ w)
          (ground (arith, d, y))
  ]
