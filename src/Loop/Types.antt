-- ===== src/Loop/Types.antt =====
-- The state of the event loop of include/async/loop.h, and what its functions can leave behind.
use asyncxx.Base.{◌+◌, ℕ, Bool, true, false, List, [], ◌∷◌, Option, some}
use asyncxx.Api.{TaskId, Exception}
use asyncxx.StackPool.{Allocator, StackPool}
use asyncxx.StackPool.{new as no_stacks}
use asyncxx.Task.{Shared, Program, Task}

-- What is not the library's own: the system's allocator, and the setting
-- `ASYNC_CONTINUE_ON_TASK_EXC` of the build.
pub record Config : Type 0 where
  pub allocator : Allocator
  pub continue_on_task_exc : Bool

-- `sync.to_wake` is `shared.heap.to_wake`; `main_task_id` is `none` for `INVALID_TASK_ID`.
pub record EventLoop {ℓ κ} (V : Type ℓ) (U : Type κ) : Type (ℓ ⊔ κ) where
  pub running : Bool
  pub tasks : List (Task V U)
  pub current : ℕ
  pub task_id_counter : TaskId
  pub main_task_id : Option TaskId
  pub to_start : List (Task V U)
  pub shared : Shared V U
  pub stacks : StackPool

-- A pointer that is dereferenced though it is null, `tasks[current]` past the end, and a `longjmp` to
-- where there is nothing to resume.
pub data Fault : Type 0 where
  null_task no_current_task stale_jump dangling : Fault

-- What a call leaves behind: a state, a state and an exception that it throws, or undefined behaviour.
pub data Outcome {ℓ} (A : Type ℓ) : Type ℓ where
  ok : A → Outcome A
  raised : Exception → A → Outcome A
  fault : Fault → Outcome A

infixl 5 ◌>>=◌
abbrev pub ◌>>=◌ {ℓ} : {A : Type ℓ} → Outcome A → (A → Outcome A) → Outcome A
ok a >>= f = f a
raised e a >>= f = raised e a
fault x >>= f = fault x

-- How a slice of a worker ends.
pub data Stop {ℓ κ} (V : Type ℓ) (U : Type κ) : Type (ℓ ⊔ κ) where
  returned : Stop V U
  threw : Exception → Stop V U
  crashed : Stop V U
  suspended : Program V U → Stop V U

abbrev pub is_empty {ℓ} : {A : Type ℓ} → List A → Bool
is_empty [] = true
is_empty (x ∷ xs) = false

module _ {ℓ κ} {V : Type ℓ} {U : Type κ} where
  -- `EventLoop()`; the member initializer makes 0 the main task's id.
  unfoldable pub new : V → U → EventLoop V U
  new v u = record {
    running = true;
    tasks = [];
    current = 0;
    task_id_counter = 0;
    main_task_id = some 0;
    to_start = [];
    shared = record { heap = record { futures = []; to_wake = [] }; user = u };
    stacks = no_stacks;
  }

  -- `getNextTaskId()`
  unfoldable pub get_next_task_id : EventLoop V U → TaskId × EventLoop V U
  get_next_task_id l = (l.task_id_counter, record l { task_id_counter = l.task_id_counter + 1 })
