-- ===== src/Event.antt =====
-- include/async/event.h: tasks wait on an event in line and are notified from the front. `wait`
-- saves the task and then suspends it: its second half is in `Async`. Each method holds the mutex.
pub mod Laws
pub mod Ensure
use asyncxx.Base.{ℕ, zero, suc, Bool, true, false, List, [], ◌∷◌, ◌++◌, Option, none, some}
use asyncxx.Api.{TaskId, Notifier, notify_each}

pub record Event : Type 0 where
  pub list : List TaskId

unfoldable pub new : Event
new = record { list = [] }

unfoldable pub save_waiter : TaskId → Event → Event
save_waiter self ev = record { list = ev.list ++ self ∷ [] }

module _ {ℓ} {L : Type ℓ} (n : Notifier L) where
  unfoldable pub notify_one : Event → L → Bool × Event × L
  notify_one ev l = elim ev.list [
    | [] ↦ (false, ev, l)
    | task ∷ rest ↦ (true, record { list = rest }, n.notify task l)
  ]

  unfoldable pub notify_all : Event → L → Event × L
  notify_all ev l = (record { list = [] }, notify_each n ev.list l)

  -- `while (!notifyOne()) yield();`. What the other tasks do to the event and the loop during the
  -- i-th yield is `others i`; `none` means that the fuel ran out, which stands for a loop that has
  -- not ended yet.
  unfoldable pub ensure_notify_one :
      (ℕ → Event × L → Event × L) → ℕ → ℕ → Event × L → Option (Event × L)
  unfolding notify_one
  ensure_notify_one others zero i s = none
  ensure_notify_one others (suc fuel) i s =
      let (done, ev, l) = notify_one s.0 s.1 in
      let rest = ensure_notify_one others fuel (suc i) (others i (ev, l)) in
      elim done [ true ↦ some (ev, l) | false ↦ rest ]
