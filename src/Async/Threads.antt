-- ===== src/Async/Threads.antt =====
-- `to_thread` of include/async/async.h: a task awaits a future that a thread of the pool completes. An
-- action is what one of the two threads does between two points at which the other may come in.
pub mod Races
pub mod Ends
pub mod Saved
pub mod Order
use asyncxx.Base.{ℕ, Bool, true, false, if◌then◌else◌, List, [], ◌∷◌, Option, none, some}
use asyncxx.Api.{TaskId, Result}
use asyncxx.Future.{Future, wakes, new, is_completed, get, after_wait}
use asyncxx.FutureState
use asyncxx.Loop.Wakeups.{has_id}

-- Where the task is in `await()`.
pub data Awaiter {ℓ} (V : Type ℓ) : Type ℓ where
  to_check : Awaiter V
  to_save : Awaiter V
  to_suspend : Awaiter V
  asleep : Awaiter V
  got : Result V → Awaiter V

-- Where the thread is: in `fn`, or in `complete` before `notifyAll`, or behind it.
pub data Job : Type 0 where
  computing stored over : Job

pub record Race {ℓ} (V : Type ℓ) : Type ℓ where
  pub future : Future V
  pub to_wake : List TaskId
  pub awaiter : Awaiter V
  pub job : Job

pub data Action : Type 0 where
  look save suspend resume store notify : Action

module _ {ℓ} {V : Type ℓ} where
  -- `if (is_completed()) return get();`
  unfoldable pub look_from : Awaiter V → Race V → Option (Race V)
  unfolding is_completed get
  look_from to_check s =
      some (record s { awaiter = if is_completed s.future then got (get s.future) else to_save })
  look_from _ s = none

  -- `state->saveWaiter(self()->getId());`
  unfoldable pub save_from : TaskId → Awaiter V → Race V → Option (Race V)
  unfolding FutureState.save_waiter
  save_from id to_save s = some (record s {
    future = record s.future { state = FutureState.save_waiter id s.future.state };
    awaiter = to_suspend;
  })
  save_from id _ s = none

  -- `wait();`, after which the loop goes on without the task.
  unfoldable pub suspend_from : Awaiter V → Race V → Option (Race V)
  suspend_from to_suspend s = some (record s { awaiter = asleep })
  suspend_from _ s = none

  -- A cycle that finds the task's id on record wakes it, and it ends `await()`.
  unfoldable pub resume_from : TaskId → Awaiter V → Race V → Option (Race V)
  unfolding after_wait
  resume_from id asleep s =
      if has_id id s.to_wake
      then some (record s { to_wake = []; awaiter = got (after_wait s.future) })
      else none
  resume_from id _ s = none

  -- `result = val;` and `completed.store(true);`
  unfoldable pub store_from : V → Job → Race V → Option (Race V)
  store_from v computing s = some (record s {
    future = record { state = record s.future.state { completed = true }; result = v };
    job = stored;
  })
  store_from v _ s = none

  -- `notifyAll();`
  unfoldable pub notify_from : Job → Race V → Option (Race V)
  unfolding FutureState.notify_all
  notify_from stored s =
      some
        (record s { to_wake = FutureState.notify_all wakes s.future.state s.to_wake; job = over })
  notify_from _ s = none

  module _ (id : TaskId) (v : V) where
    -- `none` is an action that cannot happen now.
    unfoldable pub step : Action → Race V → Option (Race V)
    unfolding look_from save_from suspend_from resume_from store_from notify_from
    step look s = look_from s.awaiter s
    step save s = save_from id s.awaiter s
    step suspend s = suspend_from s.awaiter s
    step resume s = resume_from id s.awaiter s
    step store s = store_from v s.job s
    step notify s = notify_from s.job s

    abbrev pub steps_from : (Race V → Option (Race V)) → Option (Race V) → Option (Race V)
    steps_from go none = none
    steps_from go (some s) = go s

    unfoldable pub steps : List Action → Race V → Option (Race V)
    unfolding step
    steps [] s = some s
    steps (a ∷ acts) s = steps_from (steps acts) (step a s)

  -- `to_thread(fn)`, awaited at once.
  unfoldable pub begin : V → Race V
  unfolding new
  begin init = record { future = new init; to_wake = []; awaiter = to_check; job = computing }
