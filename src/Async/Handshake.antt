-- ===== src/Async/Handshake.antt =====
-- Two tasks with an event between them: include/async/event.h at work in the loop of loop.h.
pub mod Signalled
use asyncxx.Base.{◌+◌, Bool, true, false, if◌then◌else◌, [], ◌∷◌, some}
use asyncxx.Api.{TaskId}
use asyncxx.Event.{Event, notify_one, notify_all}
use asyncxx.Event
use asyncxx.Future.{Heap, wakes, create, complete_at}
use asyncxx.StackPool.{alloc}
use asyncxx.Task.{Task, Program, Shared, act, finish, default_stack_size}
use asyncxx.Loop.Names.{task_name}
use asyncxx.Loop.Types.{Config, EventLoop}
use asyncxx.Loop.Cycle.{new_task}
use asyncxx.Async.{task, event_wait}
use asyncxx.Async.Main.{completing}
use asyncxx.Async.Main.Returns.{Block, body, lift}

-- The event lies in front of the program's own data.
abbrev pub Evented {κ} : Type κ → Type κ
Evented U = Event × U

module _ {ℓ κ} {V : Type ℓ} {U : Type κ} where
  -- `auto event = Event::create();`
  abbrev pub create_event : Program V (Evented U) → Program V (Evented U)
  create_event k = act (λ _ s. record { heap = s.heap; user = (Event.new, s.user.1) }) (λ _ _. k)

  -- `event->notifyAll();` or `event->notifyOne();` on the loop's list of tasks to wake.
  unfoldable pub signalled : Bool → Shared V (Evented U) → Shared V (Evented U)
  unfolding notify_one notify_all
  signalled true s =
      let (ev, l) = notify_all wakes s.user.0 s.heap.to_wake in
      record { heap = record { futures = s.heap.futures; to_wake = l }; user = (ev, s.user.1) }
  signalled false s =
      let (_, ev, l) = notify_one wakes s.user.0 s.heap.to_wake in
      record { heap = record { futures = s.heap.futures; to_wake = l }; user = (ev, s.user.1) }

  -- The notifier computes, yields and notifies, and returns what its block returns.
  abbrev pub notifier : Bool → Block V U → (V → Program V (Evented U)) → Program V (Evented U)
  notifier all b ret = body (lift b) (λ v. act (λ _ s. signalled all s) (λ _ _. ret v))

  -- What the main task does once the event has come.
  abbrev pub reacts : (U → U) → Program V (Evented U)
  reacts react =
      act (λ _ s. record { heap = s.heap; user = (s.user.0, react s.user.1) }) (λ _ _. finish)

  -- The main task starts the notifier, and waits for the event.
  unfoldable pub handshake : Bool → V → Block V U → (U → U) → Program V (Evented U)
  unfolding event_wait
  handshake all init b react =
      create_event
        (task init (notifier all b) (λ _. event_wait (λ u. u.0) (λ ev u. (ev, u.1)) (reacts react)))

  module _ (c : Config) where
    -- The notifier as `task` makes it.
    abbrev pub made : Bool → V → Block V U → EventLoop V (Evented U) → Task V (Evented U)
    made all init b l =
        let id = l.task_id_counter in
        let (p, q) = alloc c.allocator default_stack_size l.stacks in
        let r = (create init l.shared.heap).0 in
        new_task id (completing r (notifier all b)) (task_name [] id) (some r) p

    -- The loop when the main task sleeps, on record in the event.
    abbrev pub waited : V → TaskId → EventLoop V (Evented U) → EventLoop V (Evented U)
    waited init id l = record l {
      task_id_counter = l.task_id_counter + 1;
      stacks = (alloc c.allocator default_stack_size l.stacks).1;
      shared = record {
        heap = (create init l.shared.heap).1;
        user = (record { list = id ∷ [] }, l.shared.user.1);
      };
    }
