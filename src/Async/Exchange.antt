-- ===== src/Async/Exchange.antt =====
-- Two tasks with a queue between them: include/async/queue.h at work in the loop of loop.h.
pub mod Slices
pub mod Stored
use asyncxx.Base.{◌+◌, [], ◌∷◌, some}
use asyncxx.Api.{TaskId, Result}
use asyncxx.Future.{Ref, Heap, create, complete_at, save_waiter_at}
use asyncxx.Queue.{Queue, put, get}
use asyncxx.Queue
use asyncxx.StackPool.{alloc}
use asyncxx.Task.{Task, Program, Shared, act, finish, default_stack_size}
use asyncxx.Loop.Names.{task_name}
use asyncxx.Loop.Types.{Config, EventLoop}
use asyncxx.Loop.Cycle.{new_task}
use asyncxx.Async.{task, await, rethrow}
use asyncxx.Async.Main.{completing}
use asyncxx.Async.Main.Returns.{Block, body, lift}

-- The queue lies in front of the program's own data.
abbrev pub Queued {ℓ κ} : Type ℓ → Type κ → Type (ℓ ⊔ κ)
Queued V U = Queue V × U

module _ {ℓ} {V : Type ℓ} where
  -- The memory when the producer has put `v` and returned it.
  abbrev pub answered : V → V → TaskId → Heap V → Heap V
  answered init v id h =
      let (p, g) = create init h in
      let (r, g') = create init g in complete_at p v (complete_at r v (save_waiter_at r id g'))

module _ {ℓ κ} {V : Type ℓ} {U : Type κ} where
  abbrev pub with_queue : Queue V × Heap V → Shared V (Queued V U) → Shared V (Queued V U)
  with_queue (q, h) s = record { heap = h; user = (q, s.user.1) }

  -- `auto queue = Queue<T>::create();`
  abbrev pub create_queue : Program V (Queued V U) → Program V (Queued V U)
  create_queue k = act (λ _ s. with_queue (Queue.new, s.heap) s) (λ _ _. k)

  -- `queue->put(v);`
  unfoldable pub put_in : V → Program V (Queued V U) → Program V (Queued V U)
  put_in v k = act (λ _ s. with_queue (put v s.user.0 s.heap) s) (λ _ _. k)

  -- `queue->get()`
  unfoldable pub get_from : V → (Ref → Program V (Queued V U)) → Program V (Queued V U)
  get_from init k =
      act (λ self s. let (r, q, h) = get self init s.user.0 s.heap in with_queue (q, h) s)
        (λ self s. k (get self init s.user.0 s.heap).0)

  -- The producer computes, yields, puts what its block returns into the queue and returns it.
  abbrev pub producer : Block V U → (V → Program V (Queued V U)) → Program V (Queued V U)
  producer b ret = body (lift b) (λ v. put_in v (ret v))

  -- What the main task does with what it gets.
  abbrev pub stores : (V → U → U) → Result V → Program V (Queued V U)
  stores store = rethrow (λ v.
      act (λ _ s. record { heap = s.heap; user = (s.user.0, store v s.user.1) }) (λ _ _. finish))

  -- The memory when the main task sleeps: it is on record in the queue and in the future that `get`
  -- gave it.
  abbrev pub sleeping : V → TaskId → Shared V (Queued V U) → Shared V (Queued V U)
  sleeping init id s =
      let (r, g) = create init (create init s.heap).1 in
      record {
        heap = save_waiter_at r id g;
        user = (record { queue = []; waiters = record { task = id; future = r } ∷ [] }, s.user.1);
      }

  -- The main task starts the producer, takes from the queue and stores what it gets.
  unfoldable pub exchange : V → Block V U → (V → U → U) → Program V (Queued V U)
  unfolding get_from put_in await rethrow
  exchange init b store =
      create_queue (task init (producer b) (λ _. get_from init (λ r. await r (stores store))))

  module _ (c : Config) where
    -- The producer as `task` makes it.
    abbrev pub made : V → Block V U → EventLoop V (Queued V U) → Task V (Queued V U)
    made init b l =
        let id = l.task_id_counter in
        let (p, q) = alloc c.allocator default_stack_size l.stacks in
        let r = (create init l.shared.heap).0 in
        new_task id (completing r (producer b)) (task_name [] id) (some r) p

    abbrev pub waited : V → TaskId → EventLoop V (Queued V U) → EventLoop V (Queued V U)
    waited init id l = record l {
      task_id_counter = l.task_id_counter + 1;
      stacks = (alloc c.allocator default_stack_size l.stacks).1;
      shared = sleeping init id l.shared;
    }
