-- ===== src/Queue/History.antt =====
-- include/async/queue.h over a whole history of calls, with consumers that await what they got.
use asyncxx.Base.{
  ◌<◌, ◌≤◌, ◌≡◌, ◌≢◌, refl, ◌⊎◌, inl, inr, subst, List, [], ◌∷◌, ◌++◌, arith, length, All,
  All-append, append-nil, append_assoc,
}
use asyncxx.Api.{TaskId}
use asyncxx.Future.{Ref, Heap, save_waiter_at}
use asyncxx.Future.Laws.{
  Pending, save_waiter_at-Settled, save_waiter_at-Pending, length-save_waiter_at,
}
use asyncxx.Queue.{Queue, new, put, get}
use asyncxx.Queue.Fifo.{Served, Distinct, Older, put-Served, get-Served, length-put, length-get}

-- `puts x` is `put(x)`, `gets t` is `get()` called by task `t`, and `awaits r t` is task `t` saving
-- itself as a waiter of a future in `await()`.
pub data Call {ℓ} (V : Type ℓ) : Type ℓ where
  puts : V → Call V
  gets : TaskId → Call V
  awaits : Ref → TaskId → Call V

module _ {ℓ} {V : Type ℓ} where
  abbrev pub values : List (Call V) → List V
  values [] = []
  values (puts x ∷ cs) = x ∷ values cs
  values (gets t ∷ cs) = values cs
  values (awaits r t ∷ cs) = values cs

  -- The calls in order; the futures that the gets returned come first.
  pub run : V → List (Call V) → Queue V → Heap V → List Ref × Queue V × Heap V
  run init [] q h = ([], q, h)
  run init (puts x ∷ cs) q h = let (q', h') = put x q h in run init cs q' h'
  run init (gets t ∷ cs) q h =
      let (f, q', h') = get t init q h in
      let (fs, q'', h'') = run init cs q' h' in (f ∷ fs, q'', h'')
  run init (awaits r t ∷ cs) q h = run init cs q (save_waiter_at r t h)

  waits-Pending :
      (rs : List Ref) (s : Ref) (t : TaskId) (h : Heap V)
      → All (Pending h) rs
      → All (Pending (save_waiter_at s t h)) rs
  waits-Pending [] s t h p = tt
  waits-Pending (r ∷ rs) s t h p = (save_waiter_at-Pending r s t h p.0, waits-Pending rs s t h p.1)

  awaits-Served :
      (s : Ref) (t : TaskId) (q : Queue V) (h : Heap V) (rs : List Ref) (xs : List V)
      → Served rs xs q h
      → Served rs xs q (save_waiter_at s t h)
  awaits-Served s t q h [] xs v = v
  awaits-Served s t q h (r ∷ rs) [] v = (v.0, v.1, waits-Pending (r ∷ rs) s t h v.2)
  awaits-Served s t q h (r ∷ rs) (x ∷ xs) v =
      (save_waiter_at-Settled r s t x h v.0, awaits-Served s t q h rs xs v.1)

  Older-grow :
      (g h : Heap V) (rs : List Ref) → length g.futures ≤ length h.futures → Older g rs → Older h rs
  Older-grow g h [] l o = tt
  Older-grow g h (r ∷ rs) l o = (omega arith, Older-grow g h rs l o.1)

  Distinct-append :
      (h : Heap V) (rs : List Ref) (f : Ref)
      → f ≡ length h.futures
      → Older h rs
      → Distinct rs
      → Distinct (rs ++ f ∷ [])
  Distinct-append h [] f e o d = (tt, tt)
  Distinct-append h (r ∷ rs) f e o d =
      (All-append (λ s. s ≢ r) rs (f ∷ []) d.0 (omega arith, tt), Distinct-append h rs f e o.1 d.1)

  pub run-Distinct :
      (init : V) (cs : List (Call V)) (q : Queue V) (h : Heap V) (rs : List Ref)
      → Older h rs
      → Distinct rs
      → Distinct (rs ++ (run init cs q h).0)
  unfolding run
  run-Distinct init [] q h rs o d = rw (append-nil rs) d
  run-Distinct init (puts x ∷ cs) q h rs o d =
      let (q', h') = put x q h in
      run-Distinct init cs q' h' rs (Older-grow h h' rs (omega (arith, length-put x q h)) o) d
  run-Distinct init (gets t ∷ cs) q h rs o d =
      let (f, q', h') = get t init q h in
      let (fs, q'', h'') = run init cs q' h' in
      let (grown, fresh) = length-get t init q h in
      subst Distinct (append_assoc rs (f ∷ []) fs) (
        run-Distinct init cs q' h' (rs ++ f ∷ [])
          (All-append (λ r. r < length h'.futures) rs (f ∷ []) (Older-grow h h' rs (omega arith) o)
            (omega arith, tt))
          (Distinct-append h rs f fresh o d))
  run-Distinct init (awaits r t ∷ cs) q h rs o d =
      run-Distinct init cs q (save_waiter_at r t h) rs
        (Older-grow h (save_waiter_at r t h) rs (omega (arith, length-save_waiter_at r t h)) o) d

  run-Served :
      (init : V) (cs : List (Call V)) (q : Queue V) (h : Heap V) (rs : List Ref) (xs : List V)
      → Older h rs
      → Distinct rs
      → Served rs xs q h
      → let (fs, q', h') = run init cs q h in Served (rs ++ fs) (xs ++ values cs) q' h'
  unfolding run
  run-Served init [] q h rs xs o d s = rw (append-nil rs, append-nil xs) s
  run-Served init (puts x ∷ cs) q h rs xs o d s =
      let (q', h') = put x q h in
      let (fs, q'', h'') = run init cs q' h' in
      subst (λ ys. Served (rs ++ fs) ys q'' h'') (append_assoc xs (x ∷ []) (values cs))
        (run-Served init cs q' h' rs (xs ++ x ∷ [])
          (Older-grow h h' rs (omega (arith, length-put x q h)) o) d (put-Served x q h rs xs d s))
  run-Served init (gets t ∷ cs) q h rs xs o d s =
      let (f, q', h') = get t init q h in
      let (fs, q'', h'') = run init cs q' h' in
      let (grown, fresh) = length-get t init q h in
      subst (λ gs. Served gs (xs ++ values cs) q'' h'') (append_assoc rs (f ∷ []) fs)
        (run-Served init cs q' h' (rs ++ f ∷ []) xs
          (All-append (λ r. r < length h'.futures) rs (f ∷ []) (Older-grow h h' rs (omega arith) o)
            (omega arith, tt))
          (Distinct-append h rs f fresh o d) (get-Served t init q h rs xs o s))
  run-Served init (awaits r t ∷ cs) q h rs xs o d s =
      run-Served init cs q (save_waiter_at r t h) rs xs
        (Older-grow h (save_waiter_at r t h) rs (omega (arith, length-save_waiter_at r t h)) o) d
        (awaits-Served r t q h rs xs s)

  -- In every history of puts, gets and awaits on a new queue, whatever futures exist beforehand: the
  -- i-th get's future is completed with the i-th value put, and not cancelled; with more gets than
  -- puts the others are pending and wait in the order of the calls, and with more puts than gets no
  -- task waits and the other values lie in the queue in the order in which they were put.
  pub get-put_fifo :
      (init : V) (cs : List (Call V)) (h : Heap V)
      → let (fs, q', h') = run init cs new h in Served fs (values cs) q' h'
  unfolding new
  get-put_fifo init cs h = run-Served init cs new h [] [] tt tt (refl, refl)

  Served-IsIdle :
      (rs : List Ref) (xs : List V) (q : Queue V) (h : Heap V)
      → Served rs xs q h
      → (q.queue ≡ []) ⊎ (q.waiters ≡ [])
  Served-IsIdle [] xs q h s = inr s.1
  Served-IsIdle (r ∷ rs) [] q h s = inl s.0
  Served-IsIdle (r ∷ rs) (x ∷ xs) q h s = Served-IsIdle rs xs q h s.1

  -- In every history of puts, gets and awaits on a new queue, values and waiting gets are never both
  -- left: no value is stuck while a task waits for one.
  pub never_stuck :
      (init : V) (cs : List (Call V)) (h : Heap V)
      → let (fs, q', h') = run init cs new h in (q'.queue ≡ []) ⊎ (q'.waiters ≡ [])
  never_stuck init cs h = Served-IsIdle _ _ _ _ (get-put_fifo init cs h)
