-- ===== src/Async.antt =====
-- include/async/async.h, and the suspending halves of include/async/future.h and event.h: what a
-- worker does when it calls the library. Each function takes the rest of the worker as its last
-- argument. `find` does not miss here, as the pointers to futures are counted; the case is `crash`.
pub mod Await
pub mod Main
pub mod Called
pub mod Exchange
pub mod Gather
pub mod Handshake
pub mod Sequential
pub mod Threads
use asyncxx.Base.{ℕ, zero, suc, Bool, true, false, if◌then◌else◌, List, [], ◌∷◌, Option, none, some}
use asyncxx.Api.{TaskId, Exception, Result, ok, err}
use asyncxx.Event.{Event}
use asyncxx.Event
use asyncxx.Future.{Ref, Future, Heap, wakes, find, create, complete_at, save_waiter_at}
use asyncxx.Future
use asyncxx.Task.{
  Name, Shared, Program, finish, throw, crash, act, spawn, manage, yields, waits, exits,
}
use asyncxx.Loop.Types.{Config, EventLoop, Outcome}
use asyncxx.Loop.Types
use asyncxx.Loop.Sync.{set_main_task}
use asyncxx.Loop.Cleanup.{clear}
use asyncxx.Loop.Cycle.{add_task, run_until_completed}

-- "<run>"
abbrev pub run_name : Name
run_name = b'<' ∷ b'r' ∷ b'u' ∷ b'n' ∷ b'>' ∷ []

module _ {ℓ κ} {V : Type ℓ} {U : Type κ} where
  abbrev pub with_heap : (Heap V → Heap V) → Shared V U → Shared V U
  with_heap f s = record { heap = f s.heap; user = s.user }

  -- `notify(id)`
  unfoldable pub notify : TaskId → Program V U → Program V U
  notify id k =
      act
        (λ self s.
          with_heap (λ h. record { futures = h.futures; to_wake = wakes.notify id h.to_wake }) s)
        (λ self s. k)

  -- The end of `await()`: what it returns or throws goes to `k`, in which the caller catches or
  -- passes on the exception.
  abbrev pub deliver :
      (Result V → Program V U) → (Future V → Result V) → Option (Future V) → Program V U
  deliver k read none = crash
  deliver k read (some f) = k (read f)

  -- `state->saveWaiter(self()->getId()); wait();` and what follows once the task is woken.
  unfoldable pub await_pending : Ref → (Result V → Program V U) → Program V U
  await_pending r k =
      act (λ self s. with_heap (save_waiter_at r self) s)
        (λ self s. waits (act (λ _ t. t) (λ _ t. deliver k Future.after_wait (find r t.heap))))

  abbrev pub await_found : Ref → (Result V → Program V U) → Option (Future V) → Program V U
  await_found r k none = crash
  await_found r k (some f) = if f.state.completed then k (Future.get f) else await_pending r k

  -- `future->await()`
  unfoldable pub await : Ref → (Result V → Program V U) → Program V U
  unfolding await_pending
  await r k = act (λ self s. s) (λ self s. await_found r k (find r s.heap))

  -- A caller that catches nothing.
  unfoldable pub rethrow : (V → Program V U) → Result V → Program V U
  rethrow k (ok v) = k v
  rethrow k (err e) = throw e

  -- `gather(futures...)`: in order; an exception ends the row.
  unfoldable pub gather : List Ref → Program V U → Program V U
  unfolding await rethrow
  gather [] k = k
  gather (r ∷ rs) k = await r (rethrow (λ _. gather rs k))

  -- `task(fn)`: the worker calls `fn` and completes the future with what it returns. `fn` is given
  -- what follows it.
  unfoldable pub task : V → ((V → Program V U) → Program V U) → (Ref → Program V U) → Program V U
  task init fn k =
      act (λ self s. with_heap (λ h. (create init h).1) s)
        (λ self s.
          let f = (create init s.heap).0 in
          spawn [] (some f) (fn (λ v. act (λ _ t. with_heap (complete_at f v) t) (λ _ t. finish)))
            (λ id. k f))

  -- `event->wait()`, of an event that lies in the program's data at `get` and `put`.
  unfoldable pub event_wait : (U → Event) → (Event → U → U) → Program V U → Program V U
  event_wait get put k =
      act
        (λ self s. record {
          heap = s.heap;
          user = put (Event.save_waiter self (get s.user)) s.user;
        })
        (λ self s. waits k)

  module _ (c : Config) where
    -- `loop->clear()` is skipped when an exception leaves the loop.
    abbrev pub after_run : Option (Outcome (EventLoop V U)) → Option (Outcome (EventLoop V U))
    after_run none = none
    after_run (some (Outcome.ok m)) = some (Outcome.ok (clear m))
    after_run (some (Outcome.raised e m)) = some (Outcome.raised e m)
    after_run (some (Outcome.fault x)) = some (Outcome.fault x)

    -- `run(fn)`; `none` stands for a loop that has not ended after `fuel` cycles.
    unfoldable pub run : ℕ → Program V U → EventLoop V U → Option (Outcome (EventLoop V U))
    run fuel fn l =
        let (id, l') = add_task c fn run_name none l in
        after_run (run_until_completed c fuel (set_main_task id l'))
