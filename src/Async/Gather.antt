-- ===== src/Async/Gather.antt =====
-- `gather` of include/async/async.h, whatever the other tasks do while it waits.
pub mod Ends
use asyncxx.Base.{
  ◌≡◌, refl, sym, ap, ◌∙◌, subst, Bool, true, false, inl, inr, ◌⊎◌, ◌≢◌, List, [], ◌∷◌, Option,
  none, some, All, Option-cases, Bool-cases, if◌then◌else◌,
}
use asyncxx.Api.{TaskId, Result, ok, err, Exception, cancelled, future_failed_to_complete}
use asyncxx.Future.{
  Ref, Heap, Future, find, save_waiter_at, get, after_wait, is_cancelled, is_completed,
}
use asyncxx.Future.Laws.{save_waiter_at-find}
use asyncxx.Task.{Shared, Program, finish, act, yields, waits}
use asyncxx.Async.{await, await_found, await_pending, deliver, rethrow, gather, with_heap}

none-ne-some {ℓ} : {A : Type ℓ} {a : A} → none ≢ some a
none-ne-some e = cc

module _ {ℓ} {V : Type ℓ} where
  abbrev pub Completed : Heap V → Ref → Type ℓ
  Completed h r = (f : Future V) × (find r h ≡ some f) × (f.state.completed ≡ true)

  -- A read gives a value of a completed future only.
  abbrev Reads : Result V → Future V → Type ℓ
  Reads o f = ((e : Exception) × (o ≡ err e)) ⊎ ((v : V) × (o ≡ ok v) × (f.state.completed ≡ true))

  get-Reads : (f : Future V) → f.state.completed ≡ true → Reads (get f) f
  unfolding get is_cancelled is_completed
  get-Reads f c = elim (Bool-cases f.state.cancelled) [
    | inl y ↦ inl (cancelled, rw y refl)
    | inr n ↦ inr (f.result, rw (n, c) refl, c)
  ]

  after_wait-Reads : (f : Future V) → Reads (after_wait f) f
  unfolding after_wait is_cancelled is_completed
  after_wait-Reads f = elim (Bool-cases f.state.cancelled) [
    | inl y ↦ inl (cancelled, rw y refl)
    | inr n ↦ elim (Bool-cases f.state.completed) [
      | inl c ↦ inr (f.result, rw (n, c) refl, c)
      | inr c ↦ inl (future_failed_to_complete, rw (n, c) refl)
    ]
  ]

module _ {ℓ κ} {V : Type ℓ} {U : Type κ} where
  -- What the other tasks do while the worker is suspended: no completed future is lost.
  abbrev pub Keeps : (Shared V U → Shared V U) → Type (ℓ ⊔ κ)
  Keeps e = (s : Shared V U) (r : Ref) → Completed s.heap r → Completed (e s).heap r

  -- The memory when the worker has returned, if it returns: at each suspension the next of the others'
  -- deeds comes in between. A worker that throws, or that sleeps on, does not return.
  abbrev pub after_worker :
      TaskId → List (Shared V U → Shared V U) → Program V U → Shared V U → Option (Shared V U)
  after_worker self es finish s = some s
  after_worker self es (act f k) s = after_worker self es (k self s) (f self s)
  after_worker self (e ∷ es) (waits k) s = after_worker self es k (e s)
  after_worker self (e ∷ es) (yields k) s = after_worker self es k (e s)
  after_worker self es p s = none

  -- The rest of the worker has begun, in a memory in which the futures are completed.
  abbrev Passed : TaskId → List Ref → Program V U → Shared V U → Option (Shared V U) → Type (ℓ ⊔ κ)
  Passed self rs k s t =
      (es : List (Shared V U → Shared V U)) × (s' : Shared V U) × All Keeps es
      × All (Completed s'.heap) rs
      × ((r : Ref) → Completed s.heap r → Completed s'.heap r)
      × (after_worker self es k s' ≡ t)

  save-Completed :
      (r : Ref) (self : TaskId) (s : Shared V U) (q : Ref)
      → Completed s.heap q
      → Completed (with_heap (save_waiter_at r self) s).heap q
  save-Completed r self s q (f, e, c) =
      let (g, p, d, _, _) = save_waiter_at-find q r self s.heap e in (g, p, d ∙ c)

  read-Passed :
      (self : TaskId) (r : Ref) (k : Program V U) (es : List (Shared V U → Shared V U))
      (s t : Shared V U) (f : Future V) (o : Result V)
      → find r s.heap ≡ some f
      → Reads o f
      → All Keeps es
      → after_worker self es (rethrow (λ _. k) o) s ≡ some t
      → Passed self (r ∷ []) k s (some t)
  unfolding rethrow
  read-Passed self r k es s t f o e (inl (x, q)) a h =
      absurd (none-ne-some (sym (ap (λ p. after_worker self es (rethrow (λ _. k) p) s) q) ∙ h))
  read-Passed self r k es s t f o e (inr (v, q, c)) a h = (
    es,
    s,
    a,
    ((f, e, c), tt),
    (λ p x. x),
    sym (ap (λ p. after_worker self es (rethrow (λ _. k) p) s) q) ∙ h,
  )

  deliver-Passed :
      (self : TaskId) (r : Ref) (k : Program V U) (es : List (Shared V U → Shared V U))
      (s t : Shared V U)
      → All Keeps es
      → after_worker self es (deliver (rethrow (λ _. k)) after_wait (find r s.heap)) s ≡ some t
      → Passed self (r ∷ []) k s (some t)
  deliver-Passed self r k es s t a h = elim (Option-cases (find r s.heap)) [
    | inl e ↦ absurd (
        none-ne-some
          (sym (ap (λ o. after_worker self es (deliver (rethrow (λ _. k)) after_wait o) s) e) ∙ h))
    | inr (f, e) ↦
        read-Passed self r k es s t f (after_wait f) e (after_wait-Reads f) a
          (sym (ap (λ o. after_worker self es (deliver (rethrow (λ _. k)) after_wait o) s) e) ∙ h)
  ]

  pending-Passed :
      (self : TaskId) (r : Ref) (k : Program V U) (es : List (Shared V U → Shared V U))
      (s t : Shared V U)
      → All Keeps es
      → after_worker self es (await_pending r (rethrow (λ _. k))) s ≡ some t
      → Passed self (r ∷ []) k s (some t)
  unfolding await_pending
  pending-Passed self r k [] s t a h = absurd (none-ne-some h)
  pending-Passed self r k (e ∷ es) s t a h =
      let s' = with_heap (save_waiter_at r self) s in
      let (fs, u, b, c, m, q) = deliver-Passed self r k es (e s') t a.1 h in
      (fs, u, b, c, (λ p x. m p (a.0 s' p (save-Completed r self s p x))), q)

  await-Passed :
      (self : TaskId) (r : Ref) (k : Program V U) (es : List (Shared V U → Shared V U))
      (s t : Shared V U)
      → All Keeps es
      → after_worker self es (await r (rethrow (λ _. k))) s ≡ some t
      → Passed self (r ∷ []) k s (some t)
  unfolding await
  await-Passed self r k es s t a h = elim (Option-cases (find r s.heap)) [
    | inl e ↦ absurd (
        none-ne-some
          (sym (ap (λ o. after_worker self es (await_found r (rethrow (λ _. k)) o) s) e) ∙ h))
    | inr (f, e) ↦
        let h' =
          sym (ap (λ o. after_worker self es (await_found r (rethrow (λ _. k)) o) s) e) ∙ h in
        let choice : Bool → Program V U =
          λ b. if b then rethrow (λ _. k) (get f) else await_pending r (rethrow (λ _. k)) in
        elim (Bool-cases f.state.completed) [
          | inl c ↦
              read-Passed self r k es s t f (get f) e (get-Reads f c) a
                (sym (ap (λ b. after_worker self es (choice b) s) c) ∙ h')
          | inr n ↦
              pending-Passed self r k es s t a
                (sym (ap (λ b. after_worker self es (choice b) s) n) ∙ h')
        ]
  ]

  gather-Passed :
      (self : TaskId) (rs : List Ref) (k : Program V U) (es : List (Shared V U → Shared V U))
      (s t : Shared V U)
      → All Keeps es
      → after_worker self es (gather rs k) s ≡ some t
      → Passed self rs k s (some t)
  unfolding gather
  gather-Passed self [] k es s t a h = (es, s, a, tt, (λ p x. x), h)
  gather-Passed self (r ∷ rs) k es s t a h =
      let (es', s', a', c, m, h') = await-Passed self r (gather rs k) es s t a h in
      let (fs, u, b, d, n, q) = gather-Passed self rs k es' s' t a' h' in
      (fs, u, b, (n r c.0, d), (λ p x. n p (m p x)), q)

  -- Whatever the other tasks do while it waits, if they lose no completed future: `gather` that returns
  -- does so with all its futures completed.
  pub gather_lem :
      (self : TaskId) (rs : List Ref) (es : List (Shared V U → Shared V U)) (s t : Shared V U)
      → All Keeps es
      → after_worker self es (gather rs finish) s ≡ some t
      → All (Completed t.heap) rs
  gather_lem self rs es s t a h =
      let (fs, u, b, c, m, q) = gather-Passed self rs finish es s t a h in
      let same : u ≡ t = cc in subst (λ (x : Shared V U). All (Completed x.heap) rs) same c
