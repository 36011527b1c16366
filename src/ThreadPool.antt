-- ===== src/ThreadPool.antt =====
-- include/async/pool.h. A step is an action of one thread between two points at which another may
-- come in. The mutex is held by a worker that has found the predicate of `wait` false and does not
-- sleep yet, and else only within a step; `setFlag` and `notify_all` do not take it. A task is a
-- value; a task that throws ends the program, which is not modelled.
pub mod Rules
pub mod Steps
pub mod Fifo
pub mod Draining
pub mod Stuck
use asyncxx.Base.{
  ℕ, zero, suc, ◌+◌, Bool, true, false, ◌&&◌, ◌||◌, not, if◌then◌else◌, List, [], ◌∷◌, ◌++◌, Option,
  none, some, map, get_elem?, set,
}
use asyncxx.Flags.{get_flag, set_flag}

abbrev pub flag_stopped : ℕ
flag_stopped = 1

abbrev pub flag_finish : ℕ
flag_finish = 2

abbrev pub flag_terminate : ℕ
flag_terminate = 4

-- Where a worker is: before the lock, about to sleep with the mutex held, asleep on the condition
-- variable, in a task, or gone.
pub data Phase {ℓ} (T : Type ℓ) : Type ℓ where
  at_top : Phase T
  to_sleep : Phase T
  asleep : Phase T
  in_task : T → Phase T
  gone : Phase T

-- Where the caller of `waitAll` or `terminateAll` is.
pub data Stage : Type 0 where
  not_called : Stage
  flag_set : Stage
  joining : Stage
  returned : Stage

-- `started` is the tasks that the workers took, in order, and `to_notify` the number of calls of
-- `scheduleTask` between the push and `notify_one`.
pub record Pool {ℓ} (T : Type ℓ) : Type ℓ where
  pub flags : ℕ
  pub queue : List T
  pub threads : List (Phase T)
  pub caller : Stage
  pub to_notify : ℕ
  pub started : List T

-- `wake_up` is a sleep that ends with no notification, which condition variables are free to do.
pub data Action {ℓ} (T : Type ℓ) : Type ℓ where
  push : T → Action T
  notify_worker : ℕ → Action T
  check : ℕ → Action T
  sleep : ℕ → Action T
  wake_up : ℕ → Action T
  end_task : ℕ → Action T
  clear_queue : Action T
  set_finish : Action T
  set_terminate : Action T
  notify_workers : Action T
  join : Action T

module _ {ℓ} {T : Type ℓ} where
  abbrev pub is_to_sleep : Phase T → Bool
  is_to_sleep to_sleep = true
  is_to_sleep _ = false

  unfoldable pub mutex_free : List (Phase T) → Bool
  mutex_free [] = true
  mutex_free (p ∷ ps) = not (is_to_sleep p) && mutex_free ps

  abbrev pub is_gone : Phase T → Bool
  is_gone gone = true
  is_gone _ = false

  unfoldable pub all_gone : List (Phase T) → Bool
  all_gone [] = true
  all_gone (p ∷ ps) = is_gone p && all_gone ps

  -- A sleeping worker goes on before the test of the predicate.
  abbrev pub wake : Phase T → Phase T
  wake asleep = at_top
  wake p = p

  abbrev pub move : ℕ → Phase T → Pool T → Pool T
  move i p s = record s { threads = set s.threads i p }

  -- From the lock to the unlock, or to the moment before the sleep. The flags only rise, so that
  -- reading them once stands for the three reads; `||` is the mask of both flags.
  unfoldable pub checked : List T → ℕ → Pool T → Pool T
  checked [] i s =
      if get_flag flag_terminate s.flags || get_flag flag_finish s.flags
      then move i gone s
      else move i to_sleep s
  checked (task ∷ rest) i s = if get_flag flag_terminate s.flags then move i gone s else record s {
    threads = set s.threads i (in_task task);
    queue = rest;
    started = s.started ++ task ∷ [];
  }

  unfoldable pub check_at : ℕ → Option (Phase T) → Pool T → Option (Pool T)
  unfolding mutex_free checked
  check_at i (some at_top) s = if mutex_free s.threads then some (checked s.queue i s) else none
  check_at i _ s = none

  unfoldable pub sleep_at : ℕ → Option (Phase T) → Pool T → Option (Pool T)
  sleep_at i (some to_sleep) s = some (move i asleep s)
  sleep_at i _ s = none

  unfoldable pub wake_at : ℕ → Option (Phase T) → Pool T → Option (Pool T)
  wake_at i (some asleep) s = some (move i at_top s)
  wake_at i _ s = none

  unfoldable pub end_at : ℕ → Option (Phase T) → Pool T → Option (Pool T)
  end_at i (some (in_task task)) s = some (move i at_top s)
  end_at i _ s = none

  -- `notify_one` wakes one sleeping worker; with none asleep it is lost.
  unfoldable pub notify_at : ℕ → Option (Phase T) → ℕ → Pool T → Option (Pool T)
  notify_at i p zero s = none
  notify_at i (some asleep) (suc n) s =
      some (record s { threads = set s.threads i at_top; to_notify = n })
  notify_at i _ (suc n) s = some (record s { to_notify = n })

  -- `setFlag(mask, true)` at the start of `waitAll` and `terminateAll`.
  unfoldable pub begin_stop : ℕ → Stage → Pool T → Option (Pool T)
  begin_stop mask not_called s =
      some (record s { flags = set_flag mask true s.flags; caller = flag_set })
  begin_stop mask _ s = none

  -- `~ThreadPool`, up to `terminate`.
  unfoldable pub begin_destroy : Pool T → Option (Pool T)
  unfolding begin_stop
  begin_destroy s =
      if get_flag flag_stopped s.flags then some s else begin_stop flag_finish s.caller s

  unfoldable pub notify_from : Stage → Pool T → Option (Pool T)
  notify_from flag_set s = some (record s { threads = map wake s.threads; caller = joining })
  notify_from _ s = none

  -- The joins of `terminate` are over when every worker is gone.
  unfoldable pub join_from : Stage → Pool T → Option (Pool T)
  unfolding all_gone
  join_from joining s =
      if all_gone s.threads
      then some
          (record s { threads = []; flags = set_flag flag_stopped true s.flags; caller = returned })
      else none
  join_from _ s = none

  -- `none` is an action that cannot happen now.
  unfoldable pub step : Action T → Pool T → Option (Pool T)
  unfolding check_at sleep_at wake_at end_at notify_at begin_stop notify_from join_from
  step (push task) s =
      if mutex_free s.threads
      then some (record s { queue = s.queue ++ task ∷ []; to_notify = s.to_notify + 1 })
      else none
  step (notify_worker i) s = notify_at i (get_elem? s.threads i) s.to_notify s
  step (check i) s = check_at i (get_elem? s.threads i) s
  step (sleep i) s = sleep_at i (get_elem? s.threads i) s
  step (wake_up i) s = wake_at i (get_elem? s.threads i) s
  step (end_task i) s = end_at i (get_elem? s.threads i) s
  step clear_queue s = if mutex_free s.threads then some (record s { queue = [] }) else none
  step set_finish s = begin_stop flag_finish s.caller s
  step set_terminate s = begin_stop flag_terminate s.caller s
  step notify_workers s = notify_from s.caller s
  step join s = join_from s.caller s

  abbrev pub steps_from : (Pool T → Option (Pool T)) → Option (Pool T) → Option (Pool T)
  steps_from go none = none
  steps_from go (some s) = go s

  unfoldable pub steps : List (Action T) → Pool T → Option (Pool T)
  unfolding step
  steps [] s = some s
  steps (a ∷ rest) s = steps_from (steps rest) (step a s)

  unfoldable pub idle_workers : ℕ → List (Phase T)
  idle_workers zero = []
  idle_workers (suc n) = at_top ∷ idle_workers n

  -- `ThreadPool(thread_count)`
  unfoldable pub start : ℕ → Pool T
  unfolding idle_workers
  start thread_count = record {
    flags = 0;
    queue = [];
    threads = idle_workers thread_count;
    caller = not_called;
    to_notify = 0;
    started = [];
  }
