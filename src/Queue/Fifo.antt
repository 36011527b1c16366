-- ===== src/Queue/Fifo.antt =====
-- include/async/queue.h as a FIFO channel: over any history of `put` and `get`, the i-th `get` is
-- answered by the i-th `put`.
use asyncxx.Base.{
  ◌+◌, ◌<◌, ◌≡◌, ◌≢◌, refl, sym, ap, ◌∙◌, List, [], ◌∷◌, ◌++◌, map, arith, length, All, All-append,
  map-append,
}
use asyncxx.Api.{TaskId}
use asyncxx.Future.{Ref, Heap, find, create, complete_at}
use asyncxx.Future.Laws.{
  Pending, Settled, find-complete_at_ne, complete_at-Settled, find-create_ne, create-Pending,
  length-complete_at, length-create, Pending-find, Settled-find,
}
use asyncxx.Queue.{Waiter, Queue, put, get, complete_front}

abbrev pub awaited : List Waiter → List Ref
awaited = map λ w. w.future

-- No future was given to two gets.
abbrev pub Distinct : List Ref → Type 0
Distinct [] = Unit
Distinct (r ∷ rs) = All (λ s. s ≢ r) rs × Distinct rs

module _ {ℓ} {V : Type ℓ} where
  -- The gets so far, by the future each was given, against the values put so far: the first are
  -- settled with the first, what is left of the gets waits in the queue's list of waiters, in order,
  -- and what is left of the values lies in the queue, in order.
  abbrev pub Served : List Ref → List V → Queue V → Heap V → Type ℓ
  Served [] xs q h = (q.queue ≡ xs) × (q.waiters ≡ [])
  Served (r ∷ rs) [] q h = (q.queue ≡ []) × (awaited q.waiters ≡ r ∷ rs) × All (Pending h) (r ∷ rs)
  Served (r ∷ rs) (x ∷ xs) q h = Settled h r x × Served rs xs q h

  put_none :
      (x : V) (q : Queue V) (h : Heap V)
      → q.waiters ≡ []
      → put x q h ≡ (record q { queue = q.queue ++ x ∷ [] }, h)
  unfolding put
  put_none x q h e = ground arith

  put_serve :
      (x : V) (q : Queue V) (h : Heap V) (r : Ref) (rs : List Ref)
      → q.queue ≡ []
      → awaited q.waiters ≡ r ∷ rs
      → (ws : List Waiter) × (put x q h ≡ (record { queue = []; waiters = ws }, complete_at r x h))
        × (awaited ws ≡ rs)
  unfolding put
  put_serve x q h r rs e a = go q.waiters refl
    where
      go :
          (ws : List Waiter)
          → q.waiters ≡ ws
          → (ws' : List Waiter) × (put x q h
              ≡ (record { queue = []; waiters = ws' }, complete_at r x h))
            × (awaited ws' ≡ rs)
      go [] f = absurd (ground (arith, ap awaited f))
      go (w ∷ ws) f = (ws, ground (arith, ap awaited f), ground (arith, ap awaited f))

  put-find :
      (x : V) (q : Queue V) (h : Heap V) (r : Ref) (rs : List Ref) (xs : List V)
      → All (λ s. s ≢ r) rs
      → Served rs xs q h
      → find r (put x q h).1 ≡ find r h
  put-find x q h r [] xs a s = rw (put_none x q h s.1)
  put-find x q h r (t ∷ rs) [] a s =
      let (ws, e, f) = put_serve x q h t rs s.0 s.1 in rw e (find-complete_at_ne r t x h a.0)
  put-find x q h r (t ∷ rs) (y ∷ xs) a s = put-find x q h r rs xs a.1 s.1

  All-Pending :
      (g h : Heap V) (rs : List Ref)
      → All (λ r. find r h ≡ find r g) rs
      → All (Pending g) rs
      → All (Pending h) rs
  All-Pending g h [] e p = tt
  All-Pending g h (r ∷ rs) e p = (Pending-find g h r e.0 p.0, All-Pending g h rs e.1 p.1)

  others :
      (t : Ref) (x : V) (h : Heap V) (rs : List Ref)
      → All (λ s. s ≢ t) rs
      → All (λ r. find r (complete_at t x h) ≡ find r h) rs
  others t x h [] d = tt
  others t x h (r ∷ rs) d = (find-complete_at_ne r t x h (λ e. d.0 (sym e)), others t x h rs d.1)

  rest-Served :
      (rs : List Ref) (ws : List Waiter) (h : Heap V)
      → awaited ws ≡ rs
      → All (Pending h) rs
      → Served rs [] (record { queue = []; waiters = ws }) h
  rest-Served [] [] h e p = (refl, refl)
  rest-Served [] (w ∷ ws) h e p = absurd (cc)
  rest-Served (r ∷ rs) ws h e p = (refl, e, p)

  -- A value that is put settles the first get that still waits, or lies behind the others.
  pub put-Served :
      (x : V) (q : Queue V) (h : Heap V) (rs : List Ref) (xs : List V)
      → Distinct rs
      → Served rs xs q h
      → let (q', h') = put x q h in Served rs (xs ++ x ∷ []) q' h'
  put-Served x q h [] xs d s = rw (put_none x q h s.1) (ap (λ ys. ys ++ x ∷ []) s.0, s.1)
  put-Served x q h (r ∷ rs) [] d s =
      let (ws, e, f) = put_serve x q h r rs s.0 s.1 in
      rw e (
        complete_at-Settled r x h s.2.0,
        rest-Served rs ws _ f (All-Pending h _ rs (others r x h rs d.0) s.2.1),
      )
  put-Served x q h (r ∷ rs) (y ∷ xs) d s =
      (Settled-find h _ r y (put-find x q h r rs xs d.0 s.1) s.0, put-Served x q h rs xs d.1 s.1)

  -- Futures that exist are all older than a fresh one.
  abbrev pub Older : Heap V → List Ref → Type 0
  Older h = All (λ r. r < length h.futures)

  created :
      (v : V) (h : Heap V) (rs : List Ref)
      → Older h rs
      → All (λ r. find r (create v h).1 ≡ find r h) rs
  created v h [] o = tt
  created v h (r ∷ rs) o = (find-create_ne r v h o.0, created v h rs o.1)

  complete_front-find :
      (r s : Ref) (q : Queue V) (h : Heap V) → s ≢ r → find r (complete_front s q h).1 ≡ find r h
  unfolding complete_front
  complete_front-find r s q h d = go q.queue refl
    where
      go : (xs : List V) → q.queue ≡ xs → find r (complete_front s q h).1 ≡ find r h
      go [] e = ground arith
      go (x ∷ xs) e = ground (arith, find-complete_at_ne r s x h d)

  find-get :
      (self : TaskId) (v : V) (q : Queue V) (h : Heap V) (r : Ref)
      → r < length h.futures
      → find r (get self v q h).2 ≡ find r h
  unfolding get
  find-get self v q h r lt =
      let fresh : (create v h).0 ≢ r = omega (arith, length-create v h) in
      ground (
        arith,
        find-create_ne r v h lt,
        complete_front-find r (create v h).0 q (create v h).1 fresh,
      )

  get_parks :
      (self : TaskId) (v : V) (q : Queue V) (h : Heap V)
      → q.queue ≡ []
      → get self v q h ≡ (
        (create v h).0,
        record {
          queue = [];
          waiters = q.waiters ++ record { task = self; future = (create v h).0 } ∷ [];
        },
        (create v h).1,
      )
  unfolding get
  get_parks self v q h e = ground arith

  get_waits :
      (self : TaskId) (v : V) (q : Queue V) (h : Heap V) (rs : List Ref)
      → q.queue ≡ []
      → awaited q.waiters ≡ rs
      → All (Pending h) rs
      → Older h rs
      → let (f, q', h') = get self v q h in Served (rs ++ f ∷ []) [] q' h'
  get_waits self v q h rs e a p o = rw (get_parks self v q h e) (
      rest-Served (rs ++ (create v h).0 ∷ []) _ (create v h).1
        (map-append _ q.waiters _ ∙ ap (λ l. l ++ (create v h).0 ∷ []) a)
        (All-append (Pending (create v h).1) rs _ (All-Pending h _ rs (created v h rs o) p)
          (create-Pending v h, tt)))

  get_takes :
      (self : TaskId) (v x : V) (xs : List V) (q : Queue V) (h : Heap V)
      → q.queue ≡ x ∷ xs
      → q.waiters ≡ []
      → get self v q h ≡ (
        (create v h).0,
        record { queue = xs; waiters = [] },
        complete_at (create v h).0 x (create v h).1,
      )
  unfolding get
  get_takes self v x xs q h e a = ground arith

  -- A get takes the first value that no get has taken, or waits behind the others.
  pub get-Served :
      (self : TaskId) (v : V) (q : Queue V) (h : Heap V) (rs : List Ref) (xs : List V)
      → Older h rs
      → Served rs xs q h
      → let (f, q', h') = get self v q h in Served (rs ++ f ∷ []) xs q' h'
  get-Served self v q h [] [] o s = get_waits self v q h [] s.0 (rw s.1) tt o
  get-Served self v q h [] (x ∷ xs) o s =
      rw (get_takes self v x xs q h s.0 s.1)
        (complete_at-Settled _ x _ (create-Pending v h), (refl, refl))
  get-Served self v q h (r ∷ rs) [] o s = get_waits self v q h (r ∷ rs) s.0 s.1 s.2 o
  get-Served self v q h (r ∷ rs) (y ∷ xs) o s =
      (Settled-find h _ r y (find-get self v q h r o.0) s.0, get-Served self v q h rs xs o.1 s.1)

  pub length-put :
      (x : V) (q : Queue V) (h : Heap V) → length (put x q h).1.futures ≡ length h.futures
  unfolding put
  length-put x q h = go q.waiters refl (q.queue ++ x ∷ []) refl
    where
      go :
          (ws : List Waiter)
          → q.waiters ≡ ws
          → (ys : List V) → q.queue ++ x ∷ [] ≡ ys
          → length (put x q h).1.futures ≡ length h.futures
      go [] e ys f = ground arith
      go (w ∷ ws) e [] f = ground arith
      go (w ∷ ws) e (y ∷ ys) f = ground (arith, length-complete_at w.future y h)

  pub length-get :
      (self : TaskId) (v : V) (q : Queue V) (h : Heap V)
      → (length (get self v q h).2.futures ≡ length h.futures + 1)
        × ((get self v q h).0 ≡ length h.futures)
  unfolding get
  length-get self v q h = go q.queue refl
    where
      go :
          (xs : List V)
          → q.queue ≡ xs
          → (length (get self v q h).2.futures ≡ length h.futures + 1)
            × ((get self v q h).0 ≡ length h.futures)
      go [] e = ground (arith, length-create v h)
      go (x ∷ xs) e =
          ground (arith, length-create v h, length-complete_at (create v h).0 x (create v h).1)
