-- ===== src/Async/Gather/Ends.antt =====
-- `gather` of include/async/async.h returns once the others have completed the futures.
use asyncxx.Base.{
  if◌then◌else◌, none, Option, ◌≡◌, refl, ap, ◌∙◌, true, false, inl, inr, ◌⊎◌, List, [], ◌∷◌, some,
  All, Bool-cases,
}
use asyncxx.Api.{TaskId}
use asyncxx.Future.{
  Ref, Heap, Future, find, save_waiter_at, get, after_wait, is_cancelled, is_completed,
}
use asyncxx.Future.Laws.{save_waiter_at-find}
use asyncxx.Future.Each.{
  complete_each, refs, complete_each-completed, complete_each-wakes, save_waiter_at-InLine,
}
use asyncxx.Loop.Wakeups.{has_id}
use asyncxx.Task.{Shared, Program, finish, act, waits, yields}
use asyncxx.Async.{await, await_found, await_pending, deliver, rethrow, gather, with_heap}

module _ {ℓ} {V : Type ℓ} where
  -- The future exists, and is not cancelled; and it is completed, too.
  abbrev pub Alive : Heap V → Ref → Type ℓ
  Alive h r = (f : Future V) × (find r h ≡ some f) × (f.state.cancelled ≡ false)

  abbrev pub Fine : Heap V → Ref → Type ℓ
  Fine h r =
      (f : Future V) × (find r h ≡ some f)
      × (f.state.cancelled ≡ false)
      × (f.state.completed ≡ true)

module _ {ℓ κ} {V : Type ℓ} {U : Type κ} where
  -- While the worker sleeps, the others complete some futures; `processSync` then empties the list of
  -- ids to wake.
  abbrev others : List (Ref × V) → Shared V U → Shared V U
  others d s = with_heap (complete_each d) s

  abbrev cleared : Shared V U → Shared V U
  cleared s = with_heap (λ h. record h { to_wake = [] }) s

  abbrev pub deed : List (Ref × V) → Shared V U → Shared V U
  deed d s = cleared (others d s)

  -- The memory when the worker of the task `self` has returned, if it returns: at each suspension the
  -- next of the others' deeds comes in between. A worker that waits runs on only if its task's id is to
  -- be woken after that deed; one that yields runs on in any case.
  abbrev pub after_woken :
      TaskId → List (List (Ref × V)) → Program V U → Shared V U → Option (Shared V U)
  after_woken self ds finish s = some s
  after_woken self ds (act f k) s = after_woken self ds (k self s) (f self s)
  after_woken self (d ∷ ds) (waits k) s =
      let rest = after_woken self ds k (deed d s) in
      if has_id self (others d s).heap.to_wake then rest else none
  after_woken self (d ∷ ds) (yields k) s = after_woken self ds k (deed d s)
  after_woken self ds p s = none

  save-Alive :
      (r : Ref) (self : TaskId) (s : Shared V U) (q : Ref)
      → Alive s.heap q
      → Alive (with_heap (save_waiter_at r self) s).heap q
  save-Alive r self s q (f, e, c) =
      let (g, p, _, d, _) = save_waiter_at-find q r self s.heap e in (g, p, d ∙ c)

  save-AllAlive :
      (r : Ref) (self : TaskId) (s : Shared V U) (qs : List Ref)
      → All (Alive s.heap) qs
      → All (Alive (with_heap (save_waiter_at r self) s).heap) qs
  save-AllAlive r self s [] a = tt
  save-AllAlive r self s (q ∷ qs) a = (save-Alive r self s q a.0, save-AllAlive r self s qs a.1)

  -- The deed makes fine what it completes and was not cancelled.
  deed-Fine :
      (d : List (Ref × V)) (s : Shared V U) (rs : List Ref)
      → All (Alive s.heap) rs
      → All (λ r. has_id r (refs d) ≡ true) rs
      → All (Fine (deed d s).heap) rs
  deed-Fine d s [] a h = tt
  deed-Fine d s (r ∷ rs) ((f, e, n), a) (y, h) =
      let (g, q, m, c) = complete_each-completed r d s.heap e y in
      ((g, unfold find in q, m ∙ n, c), deed-Fine d s rs a h)

  -- A future that is fine is passed at once, by either read.
  await-Fine :
      (self : TaskId) (r : Ref) (k : Program V U) (ds : List (List (Ref × V))) (s : Shared V U)
      → Fine s.heap r
      → (after_woken self ds (await r (rethrow (λ _. k))) s ≡ after_woken self ds k s)
        × (after_woken self ds (deliver (rethrow (λ _. k)) after_wait (find r s.heap)) s
            ≡ after_woken self ds k s)
  unfolding await rethrow get after_wait is_cancelled is_completed
  await-Fine self r k ds s (f, e, n, c) = (
    ap (λ o. after_woken self ds (await_found r (rethrow (λ _. k)) o) s) e ∙ rw (c, n) refl,
    ap (λ o. after_woken self ds (deliver (rethrow (λ _. k)) after_wait o) s) e ∙ rw (n, c) refl,
  )

  -- One that is not completed yet puts the task in line, and its completion wakes the task.
  await-Alive :
      (self : TaskId) (r : Ref) (k : Program V U) (d : List (Ref × V)) (ds : List (List (Ref × V)))
      (s : Shared V U)
      → Alive s.heap r
      → has_id r (refs d) ≡ true
      → Fine s.heap r
        ⊎ (after_woken self (d ∷ ds) (await r (rethrow (λ _. k))) s
            ≡ after_woken self ds k (deed d (with_heap (save_waiter_at r self) s)))
  unfolding await await_pending
  await-Alive self r k d ds s (f, q, n) y = elim (Bool-cases f.state.completed) [
    | inl c ↦ inl (f, q, n, c)
    | inr c ↦
        let saved = with_heap (save_waiter_at r self) s in
        let s' = deed d saved in
        let fine = (deed-Fine d saved (r ∷ []) (save-Alive r self s r (f, q, n), tt) (y, tt)).0 in
        let woken =
          complete_each-wakes self r d saved.heap (save_waiter_at-InLine r self s.heap q) y in
        let rest =
          after_woken self ds (deliver (rethrow (λ _. k)) after_wait (find r s'.heap)) s' in
        inr (
          ap (λ o. after_woken self (d ∷ ds) (await_found r (rethrow (λ _. k)) o) s) q
          ∙ ap
              (λ b.
                after_woken self (d ∷ ds)
                  (if b then rethrow (λ _. k) (get f) else await_pending r (rethrow (λ _. k))) s)
              c
          ∙ ap (λ b. if b then rest else none) woken
          ∙ (await-Fine self r k ds s' fine).1)
  ]

  gather-Fine :
      (self : TaskId) (rs : List Ref) (ds : List (List (Ref × V))) (s : Shared V U)
      → All (Fine s.heap) rs
      → after_woken self ds (gather rs finish) s ≡ some s
  unfolding gather
  gather-Fine self [] ds s h = refl
  gather-Fine self (r ∷ rs) ds s h =
      (await-Fine self r (gather rs finish) ds s h.0).0 ∙ gather-Fine self rs ds s h.1

  gather-Alive :
      (self : TaskId) (all rs : List Ref) (d : List (Ref × V)) (ds : List (List (Ref × V)))
      (s : Shared V U)
      → All (Alive s.heap) all
      → All (Alive s.heap) rs
      → All (λ r. has_id r (refs d) ≡ true) rs
      → (All (Fine s.heap) rs × (after_woken self (d ∷ ds) (gather rs finish) s ≡ some s))
        ⊎ ((s' : Shared V U) × All (Alive s'.heap) all
            × (after_woken self (d ∷ ds) (gather rs finish) s ≡ some (deed d s')))
  unfolding gather
  gather-Alive self all [] d ds s a b h = inl (tt, refl)
  gather-Alive self all (r ∷ rs) d ds s a b h =
      let s' = with_heap (save_waiter_at r self) s in
      elim (await-Alive self r (gather rs finish) d ds s b.0 h.0) [
        | inl f ↦
            let q = (await-Fine self r (gather rs finish) (d ∷ ds) s f).0 in
            elim (gather-Alive self all rs d ds s a b.1 h.1) [
              | inl (fs, p) ↦ inl ((f, fs), q ∙ p)
              | inr (t, c, p) ↦ inr (t, c, q ∙ p)
            ]
        | inr q ↦ inr (
          s',
          save-AllAlive r self s all a,
          q
              ∙ gather-Fine self rs ds (deed d s')
                  (deed-Fine d s' rs (save-AllAlive r self s rs b.1) h.1),
        )
      ]

  -- Where none of the futures is cancelled when `gather` is called, and the others complete each of them
  -- while its task sleeps, `gather` returns, after one suspension at most: the completion of the future
  -- at which the task waits wakes the task. All the futures are then completed and not cancelled.
  pub gather_ends :
      (self : TaskId) (rs : List Ref) (d : List (Ref × V)) (ds : List (List (Ref × V)))
      (s : Shared V U)
      → All (Alive s.heap) rs
      → All (λ r. has_id r (refs d) ≡ true) rs
      → (t : Shared V U) × (after_woken self (d ∷ ds) (gather rs finish) s ≡ some t)
        × All (Fine t.heap) rs
  gather_ends self rs d ds s a h = elim (gather-Alive self rs rs d ds s a a h) [
    | inl (f, q) ↦ (s, q, f)
    | inr (s', b, q) ↦ (deed d s', q, deed-Fine d s' rs b h)
  ]
