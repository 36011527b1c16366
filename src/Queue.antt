-- ===== src/Queue.antt =====
-- include/async/queue.h: a FIFO queue whose `get` hands out a future. `std::queue<T>` and
-- `std::vector<Waiter>` are lists, the front first. Each method holds the mutex throughout, so a
-- method is one step.
pub mod Fifo
pub mod Clear
pub mod History
use asyncxx.Base.{
  Bool, true, false, ◌&&◌, not, if◌then◌else◌, List, [], ◌∷◌, ◌++◌, Option, none, some,
}
use asyncxx.Api.{TaskId}
use asyncxx.Future.{Ref, Heap, create, complete_at, cancel_at}

pub record Waiter : Type 0 where
  pub task : TaskId
  pub future : Ref

pub record Queue {ℓ} (V : Type ℓ) : Type ℓ where
  pub queue : List V
  pub waiters : List Waiter

abbrev pub is_empty {ℓ} : {A : Type ℓ} → List A → Bool
is_empty [] = true
is_empty (x ∷ xs) = false

module _ {ℓ} {V : Type ℓ} where
  unfoldable pub new : Queue V
  new = record { queue = []; waiters = [] }

  unfoldable pub empty : Queue V → Bool
  empty q = is_empty q.queue

  -- `popFront`; `none` is the undefined `front()` of an empty `std::queue`.
  unfoldable pub pop_front : Queue V → Option (V × Queue V)
  pop_front q = elim q.queue [ [] ↦ none | val ∷ rest ↦ some (val, record q { queue = rest }) ]

  -- `future->complete(popFront())`.
  unfoldable pub complete_front : Ref → Queue V → Heap V → Queue V × Heap V
  unfolding pop_front
  complete_front r q h = elim (pop_front q) [
    | none ↦ (q, h)
    | some (val, q') ↦ (q', complete_at r val h)
  ]

  unfoldable pub put : V → Queue V → Heap V → Queue V × Heap V
  unfolding complete_front
  put value q h =
      let pushed = record q { queue = q.queue ++ value ∷ [] } in
      elim q.waiters [
        | [] ↦ (pushed, h)
        | waiter ∷ rest ↦ complete_front waiter.future (record pushed { waiters = rest }) h
      ]

  -- `self` is the id of the calling task, and `init` the value of a fresh future's result.
  unfoldable pub get : TaskId → V → Queue V → Heap V → Ref × Queue V × Heap V
  unfolding complete_front
  get self init q h =
      let (f, h') = create init h in
      if not (is_empty q.queue) && is_empty q.waiters
      then (let (q', h'') = complete_front f q h' in (f, q', h''))
      else (f, record q { waiters = q.waiters ++ record { task = self; future = f } ∷ [] }, h')

  unfoldable pub cancel_each : List Waiter → Heap V → Heap V
  cancel_each [] h = h
  cancel_each (w ∷ ws) h = cancel_each ws (cancel_at w.future h)

  unfoldable pub clear : Queue V → Heap V → Queue V × Heap V
  unfolding cancel_each
  clear q h = (record { queue = []; waiters = [] }, cancel_each q.waiters h)
