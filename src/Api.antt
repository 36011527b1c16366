-- ===== src/Api.antt =====
-- include/async/defs.h, exc.h and api.h: task ids, the exceptions that the library throws, and
-- what the synchronization primitives need of the event loop.
pub mod Laws
use asyncxx.Base.{ℕ, ◌≡◌, List, [], ◌∷◌, ◌++◌}

-- `int64_t`; the loop hands ids out by counting up from 0, and `INVALID_TASK_ID` is `none` where
-- the source stores it.
abbrev pub TaskId : Type 0
TaskId = ℕ

pub data Exception : Type 0 where
  cancelled future_not_ready future_failed_to_complete main_task_exited : Exception
  -- An exception of the user's code, by a code of its own.
  user : ℕ → Exception

-- The value of a call, or what it throws.
pub data Result {ℓ} (A : Type ℓ) : Type ℓ where
  ok : A → Result A
  err : Exception → Result A

-- `async::notify` on a loop state `L`. A notified task is only put on record here: the loop wakes
-- it at its next cycle.
pub record Notifier {ℓ} (L : Type ℓ) : Type ℓ where
  pub notify : TaskId → L → L
  pub woken : L → List TaskId
  pub woken-notify : (t : TaskId) (l : L) → woken (notify t l) ≡ woken l ++ t ∷ []

module _ {ℓ} {L : Type ℓ} (n : Notifier L) where
  -- `for (const auto& task : list) notify(task);`
  unfoldable pub notify_each : List TaskId → L → L
  notify_each [] l = l
  notify_each (t ∷ ts) l = notify_each ts (n.notify t l)
