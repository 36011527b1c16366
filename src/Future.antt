-- ===== src/Future.antt =====
-- include/async/future.h: futures, and the memory that the shared pointers to them point into.
-- A `SharedFuture<T>` is a reference into `Heap.futures`, so that a queue's waiter and its caller
-- share one future. `V` stands for every result type; `Future<void>` ignores its result.

pub mod Laws
pub mod Delivery
pub mod Each
use asyncxx.Base.{
  ℕ, refl, Bool, if◌then◌else◌, List, [], ◌∷◌, ◌++◌, Option, none, some, length, get_elem?, set,
}
use asyncxx.Api.{
  TaskId, Result, ok, err, Notifier, cancelled, future_not_ready, future_failed_to_complete,
}
use asyncxx.FutureState.{FutureState}
use asyncxx.FutureState

pub record Future {ℓ} (V : Type ℓ) : Type ℓ where
  pub state : FutureState
  pub result : V

abbrev pub Ref : Type 0
Ref = ℕ

-- The loop's list of tasks to wake, `sync.to_wake`, is the loop state that notifications reach.
instance abbrev pub wakes : Notifier (List TaskId)
wakes = record { notify = λ t l. l ++ t ∷ []; woken = λ l. l; woken-notify = λ t l. refl }

pub record Heap {ℓ} (V : Type ℓ) : Type ℓ where
  pub futures : List (Future V)
  pub to_wake : List TaskId

module _ {ℓ} {V : Type ℓ} where
  -- `Future()`: the result is value-initialized, to `init`.
  unfoldable pub new : V → Future V
  new init = record { state = FutureState.create; result = init }

  unfoldable pub is_completed : Future V → Bool
  is_completed f = f.state.completed

  unfoldable pub is_cancelled : Future V → Bool
  is_cancelled f = f.state.cancelled

  unfoldable pub get : Future V → Result V
  unfolding is_cancelled is_completed
  get f =
      if is_cancelled f
      then err cancelled
      else if is_completed f
      then ok f.result
      else err future_not_ready

  -- What `await()` returns or throws once its task runs again after `wait()`.
  unfoldable pub after_wait : Future V → Result V
  unfolding is_cancelled is_completed
  after_wait f =
      if is_cancelled f
      then err cancelled
      else if is_completed f
      then ok f.result
      else err future_failed_to_complete

  module _ {κ} {L : Type κ} (n : Notifier L) where
    unfoldable pub complete : V → Future V → L → Future V × L
    complete val f l =
        let (s, l') = FutureState.complete n f.state l in (record { state = s; result = val }, l')

    unfoldable pub cancel : Future V → L → Future V × L
    cancel f l = let (s, l') = FutureState.cancel n f.state l in (record f { state = s }, l')

-- The operations through a shared pointer.
module _ {ℓ} {V : Type ℓ} where
  unfoldable pub find : Ref → Heap V → Option (Future V)
  find r h = get_elem? h.futures r

  -- `Future<T>::create()`, `std::make_shared<Future<T>>()`.
  unfoldable pub create : V → Heap V → Ref × Heap V
  unfolding new
  create init h = (length h.futures, record h { futures = h.futures ++ new init ∷ [] })

  -- A call of a method that changes the future and may notify. References do not dangle: the
  -- pointers are counted, so the missing case is never met (`Queue.Fifo`).
  abbrev pub put_back : Ref → Heap V → Future V × List TaskId → Heap V
  put_back r h (f, ws) = record { futures = set h.futures r f; to_wake = ws }

  unfoldable pub update : Ref → (Future V → List TaskId → Future V × List TaskId) → Heap V → Heap V
  update r op h = elim (get_elem? h.futures r) [ none ↦ h | some f ↦ put_back r h (op f h.to_wake) ]

  unfoldable pub complete_at : Ref → V → Heap V → Heap V
  unfolding complete update
  complete_at r val h = update r (complete wakes val) h

  unfoldable pub cancel_at : Ref → Heap V → Heap V
  unfolding cancel update
  cancel_at r h = update r (cancel wakes) h

  unfoldable pub save_waiter_at : Ref → TaskId → Heap V → Heap V
  unfolding update
  save_waiter_at r id h =
      update r (λ f ws. (record f { state = FutureState.save_waiter id f.state }, ws)) h
