-- ===== src/FutureState.antt =====
-- include/async/internal/future_state.h: the flags of a future and the tasks that wait for it. The
-- mutex and the atomics need no model: each call below is one step of the loop's thread.
use asyncxx.Base.{Bool, true, false, List, [], ◌∷◌, ◌++◌}
use asyncxx.Api.{TaskId, Notifier, notify_each}

pub record FutureState : Type 0 where
  pub completed : Bool
  pub cancelled : Bool
  pub waiters : List TaskId

abbrev pub create : FutureState
create = record { completed = false; cancelled = false; waiters = [] }

unfoldable pub save_waiter : TaskId → FutureState → FutureState
save_waiter id f = record f { waiters = f.waiters ++ id ∷ [] }

module _ {ℓ} {L : Type ℓ} (n : Notifier L) where
  -- The list is not emptied: a second call notifies the same tasks again.
  unfoldable pub notify_all : FutureState → L → L
  notify_all f l = notify_each n f.waiters l

  unfoldable pub complete : FutureState → L → FutureState × L
  unfolding notify_all
  complete f l = let f' = record f { completed = true } in (f', notify_all f' l)

  unfoldable pub cancel : FutureState → L → FutureState × L
  unfolding notify_all
  cancel f l = let f' = record f { cancelled = true } in (f', notify_all f' l)
