-- ===== src/Queue/Clear.antt =====
-- `Queue::clear` in include/async/queue.h: what becomes of the gets that still wait.
use asyncxx.Base.{◌≡◌, ◌≢◌, ◌∙◌, refl, sym, List, [], ◌∷◌, All, subst}
use asyncxx.Future.{Ref, Heap, find, cancel_at}
use asyncxx.Future.Laws.{
  Pending, Pending-find, Settled, Cancelled, find-cancel_at_ne, cancel_at-Cancelled, Settled-find,
}
use asyncxx.Queue.{Waiter, Queue, new, clear, cancel_each}
use asyncxx.Queue.Fifo.{Served, Distinct, awaited}
use asyncxx.Queue.History.{Call, values, run, get-put_fifo, run-Distinct}

module _ {ℓ} {V : Type ℓ} where
  -- The gets answered so far keep their values, and the others are cancelled.
  abbrev pub Cleared : List Ref → List V → Heap V → Type ℓ
  Cleared [] xs h = Unit
  Cleared (r ∷ rs) [] h = All (Cancelled h) (r ∷ rs)
  Cleared (r ∷ rs) (x ∷ xs) h = Settled h r x × Cleared rs xs h

  cancel_each-find :
      (r : Ref) (ws : List Waiter) (h : Heap V)
      → All (λ s. s ≢ r) (awaited ws)
      → find r (cancel_each ws h) ≡ find r h
  unfolding cancel_each
  cancel_each-find r [] h a = refl
  cancel_each-find r (w ∷ ws) h a =
      cancel_each-find r ws (cancel_at w.future h) a.1 ∙ find-cancel_at_ne r w.future h a.0

  keep-Cancelled : (g h : Heap V) (r : Ref) → find r h ≡ find r g → Cancelled g r → Cancelled h r
  keep-Cancelled g h r e (f, p, c) = (f, e ∙ p, c)

  others :
      (t : Ref) (h : Heap V) (rs : List Ref)
      → All (λ s. s ≢ t) rs
      → All (Pending h) rs
      → All (Pending (cancel_at t h)) rs
  others t h [] d p = tt
  others t h (r ∷ rs) d p = (
    Pending-find h (cancel_at t h) r (find-cancel_at_ne r t h (λ e. d.0 (sym e))) p.0,
    others t h rs d.1 p.1,
  )

  cancel_each-Cancelled :
      (ws : List Waiter) (h : Heap V)
      → Distinct (awaited ws)
      → All (Pending h) (awaited ws)
      → All (Cancelled (cancel_each ws h)) (awaited ws)
  unfolding cancel_each
  cancel_each-Cancelled [] h d p = tt
  cancel_each-Cancelled (w ∷ ws) h d p =
      let g = cancel_at w.future h in
      (
        keep-Cancelled g (cancel_each ws g) w.future (cancel_each-find w.future ws g d.0)
            (cancel_at-Cancelled w.future h p.0.1),
        cancel_each-Cancelled ws g d.1 (others w.future h (awaited ws) d.0 p.1),
      )

  cancelled_gets :
      (q : Queue V) (h : Heap V) (rs : List Ref) (xs : List V)
      → Distinct rs
      → Served rs xs q h
      → Cleared rs xs (cancel_each q.waiters h)
        × ((r : Ref) → All (λ s. s ≢ r) rs → find r (cancel_each q.waiters h) ≡ find r h)
  cancelled_gets q h [] xs d s = (tt, λ r a. rw s.1 (unfold cancel_each in refl))
  cancelled_gets q h (r ∷ rs) [] d s = (
    subst (All (Cancelled (cancel_each q.waiters h))) s.1 (
        cancel_each-Cancelled q.waiters h (subst Distinct (sym s.1) d)
          (subst (All (Pending h)) (sym s.1) s.2)),
    λ t a. cancel_each-find t q.waiters h (subst (All (λ u. u ≢ t)) (sym s.1) a),
  )
  cancelled_gets q h (r ∷ rs) (x ∷ xs) d s =
      let (c, f) = cancelled_gets q h rs xs d.1 s.1 in
      ((Settled-find h (cancel_each q.waiters h) r x (f r d.0) s.0, c), λ t a. f t a.1)

  -- `clear` after any history of puts, gets and awaits on a new queue: nothing is left in the queue,
  -- the gets that were answered keep their values, in order, and every other get is cancelled.
  pub clear-run :
      (init : V) (cs : List (Call V)) (h : Heap V)
      → let (fs, q', h') = run init cs new h in
        let (q'', h'') = clear q' h' in
        (q''.queue ≡ []) × (q''.waiters ≡ []) × Cleared fs (values cs) h''
  unfolding clear
  clear-run init cs h =
      let (fs, q', h') = run init cs new h in
      (
        refl,
        refl,
        (cancelled_gets q' h' fs (values cs) (run-Distinct init cs new h [] tt tt)
            (get-put_fifo init cs h)).0,
      )
