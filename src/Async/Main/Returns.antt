-- ===== src/Async/Main/Returns.antt =====
-- `async_main` of include/async/macros.h on a block that computes on the program's own data, yields
-- and returns: what `main` returns.
use asyncxx.Base.{ℕ, suc, ◌+◌, ◌≤◌, ◌≡◌, refl, ap, ◌∙◌, some, [], get_elem?-append_self}
use asyncxx.Api.{TaskId, notify_each}
use asyncxx.Future.{
  Ref, Heap, Future, wakes, new, create, complete, get, is_cancelled, is_completed, complete_at,
  find,
}
use asyncxx.Future.Laws.{Settled, Settled-find, create-Pending, complete_at-Settled, update_self}
use asyncxx.FutureState
use asyncxx.Task.{Shared, Program, act, yields}
use asyncxx.Loop.Types.{Config, EventLoop}
use asyncxx.Async.{with_heap}
use asyncxx.Async.Sequential.{
  StraightFrom, stops, computes, rests, eval, pause_count, IsIdle, run-StraightFrom,
}
use asyncxx.Async.Main.{completing, main_returned, after_main, read_result, async_main}

-- A block of `async_main`. `acts` goes on by what it read before its write.
pub data Block {ℓ κ} (V : Type ℓ) (U : Type κ) : Type (ℓ ⊔ κ) where
  returns : V → Block V U
  acts : (U → U) → (U → Block V U) → Block V U
  pauses : Block V U → Block V U

module _ {ℓ} {V : Type ℓ} where
  -- Nobody waits for the future.
  abbrev pub Unawaited : Ref → Heap V → Type ℓ
  Unawaited r h = (f : Future V) × (find r h ≡ some f) × (f.state.waiters ≡ [])

  pub complete_at-wakes :
      (r : Ref) (v : V) (h : Heap V) → Unawaited r h → (complete_at r v h).to_wake ≡ h.to_wake
  unfolding find complete_at FutureState.complete notify_each
  complete_at-wakes r v h (f, e, w) = (update_self r (complete wakes v) h e).1 ∙ rw (w) refl

  pub create-wakes : (init : V) (h : Heap V) → (create init h).1.to_wake ≡ h.to_wake
  unfolding create
  create-wakes init h = refl

  create-Unawaited : (init : V) (h : Heap V) → let (r, h') = create init h in Unawaited r h'
  unfolding create find new
  create-Unawaited init h = (new init, get_elem?-append_self h.futures (new init), refl)

module _ {ℓ κ} {V : Type ℓ} {U : Type κ} where
  abbrev with_user : (U → U) → Shared V U → Shared V U
  with_user f s = record { heap = s.heap; user = f s.user }

  abbrev pub body : Block V U → (V → Program V U) → Program V U
  body (returns v) k = k v
  body (acts f b) k = act (λ _ s. with_user f s) (λ _ s. body (b s.user) k)
  body (pauses b) k = yields (body b k)

  -- The same block as a function without a loop: what it returns, and the data that it leaves.
  abbrev pub call : Block V U → U → V × U
  call (returns v) u = (v, u)
  call (acts f b) u = call (b u) (f u)
  call (pauses b) u = call b u

  abbrev pub rest_count : Block V U → U → ℕ
  rest_count (returns v) u = 0
  rest_count (acts f b) u = rest_count (b u) (f u)
  rest_count (pauses b) u = suc (rest_count b u)

module _ {ℓ κ ξ} {V : Type ℓ} {U : Type κ} {X : Type ξ} where
  -- The block where the program has data in front of its own that the block leaves alone.
  abbrev pub lift : Block V U → Block V (X × U)
  lift (returns v) = returns v
  lift (acts f b) = acts (λ u. (u.0, f u.1)) (λ u. lift (b u.1))
  lift (pauses b) = pauses (lift b)

  pub call-lift :
      (b : Block V U) (x : X) (u : U)
      → (call (lift b) (x, u) ≡ ((call b u).0, (x, (call b u).1)))
        × (rest_count (lift b) (x, u) ≡ rest_count b u)
  call-lift (returns v) x u = (refl, refl)
  call-lift (acts f b) x u = call-lift (b u) x (f u)
  call-lift (pauses b) x u = let (e, n) = call-lift b x u in (e, ap suc n)

module _ {ℓ κ} {V : Type ℓ} {U : Type κ} where
  pub completing-StraightFrom :
      (id : TaskId) (r : Ref) (b : Block V U) (s : Shared V U)
      → Unawaited r s.heap
      → StraightFrom id s (completing r (body b))
  unfolding completing
  completing-StraightFrom id r (returns v) s w = computes (complete_at-wakes r v s.heap w) stops
  completing-StraightFrom id r (acts f b) s w =
      computes refl (completing-StraightFrom id r (b s.user) (with_user f s) w)
  completing-StraightFrom id r (pauses b) s w = rests (completing-StraightFrom id r b s w)

  pub eval-completing :
      (id : TaskId) (r : Ref) (b : Block V U) (s : Shared V U)
      → let (v, u) = call b s.user in
        (eval id (completing r (body b)) s ≡ record { heap = complete_at r v s.heap; user = u })
        × (pause_count id (completing r (body b)) s ≡ rest_count b s.user)
  unfolding completing
  eval-completing id r (returns v) s = (refl, refl)
  eval-completing id r (acts f b) s = eval-completing id r (b s.user) (with_user f s)
  eval-completing id r (pauses b) s = let (e, n) = eval-completing id r b s in (e, ap suc n)

  -- A loop stays idle when a future is created.
  pub create-IsIdle :
      (init : V) (l : EventLoop V U)
      → IsIdle l
      → IsIdle (record l { shared = with_heap (λ _. (create init l.shared.heap).1) l.shared })
  create-IsIdle init l i = record {
    running = i.running;
    no_task = i.no_task;
    at_front = i.at_front;
    none_to_start = i.none_to_start;
    none_to_wake = create-wakes init l.shared.heap ∙ i.none_to_wake;
  }

  pub read_result-Settled :
      (m : EventLoop V U) (r : Ref) (v : V)
      → Settled m.shared.heap r v
      → read_result m (find r m.shared.heap) ≡ main_returned v m
  unfolding get is_cancelled is_completed
  read_result-Settled m r v (f, e, c, d, x) = rw (e, d, c) (ap (λ t. main_returned t m) x)

  -- On an idle loop `async_main` ends, within three cycles more than its block yields, and on any
  -- larger fuel alike. `main` returns what the block returns when it is called as a plain function on
  -- the program's data, the data is as that call leaves it, and the loop is idle again.
  pub async_main_lem :
      (c : Config) (b : Block V U) (fuel : ℕ) (init : V) (l : EventLoop V U)
      → IsIdle l
      → rest_count b l.shared.user + 3 ≤ fuel
      → (m : EventLoop V U) × (async_main c fuel init (body b) l
          ≡ some (main_returned (call b l.shared.user).0 m))
        × (m.shared.user ≡ (call b l.shared.user).1)
        × IsIdle m
  unfolding async_main
  async_main_lem c b fuel init l i h =
      let (r, g) = create init l.shared.heap in
      let l' = record l { shared = with_heap (λ _. g) l.shared } in
      let id = l.task_id_counter in
      let (e, n) = eval-completing id r b l'.shared in
      let (m, q, s, j, _) =
        run-StraightFrom c (completing r (body b)) fuel l'
          (completing-StraightFrom id r b l'.shared (create-Unawaited init l.shared.heap))
          (create-IsIdle init l i) (rw (n) h) in
      let held =
        Settled-find (complete_at r (call b l.shared.user).0 g) m.shared.heap r
          (call b l.shared.user).0 (ap (λ t. find r t.heap) (s ∙ e))
          (complete_at-Settled r (call b l.shared.user).0 g (create-Pending init l.shared.heap)) in
      (
        m,
        ap (after_main r) q ∙ ap some (read_result-Settled m r _ held),
        ap (λ t. t.user) (s ∙ e),
        j,
      )
