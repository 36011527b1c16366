-- ===== src/Task.antt =====
-- include/async/task.h: the control block of a task. A worker is the tree of what it does between two
-- calls of the library; `setjmp` and `longjmp` save and resume the rest of that tree.
use asyncxx.Base.{ℕ, List, Option}
use asyncxx.Api.{TaskId, Exception}
use asyncxx.Future.{Ref, Heap}
use asyncxx.StackPool.Blocks.{Block}

-- The memory that tasks share: the futures and the loop's list of tasks to wake, and the program's
-- own data (events, queues, variables) of a type `U`.
pub record Shared {ℓ κ} (V : Type ℓ) (U : Type κ) : Type (ℓ ⊔ κ) where
  pub heap : Heap V
  pub user : U

-- Bytes.
abbrev pub Name : Type 0
Name = List ℕ

pub data State : Type 0 where
  uninit init exec wait done : State

-- What a worker does: `act` reads and writes the shared memory (`self()->getId()` is its first
-- argument) and goes on by what it read, `spawn` is `addTask`, `manage` is
-- `self()->result_future = …`, and `crash` is undefined behaviour of the worker itself.
pub data Program {ℓ κ} (V : Type ℓ) (U : Type κ) : Type (ℓ ⊔ κ) where
  finish : Program V U
  throw : Exception → Program V U
  crash : Program V U
  act : (TaskId → Shared V U → Shared V U) → (TaskId → Shared V U → Program V U) → Program V U
  spawn : Name → Option Ref → Program V U → (TaskId → Program V U) → Program V U
  manage : Ref → Program V U → Program V U
  yields : Program V U → Program V U
  waits : Program V U → Program V U
  exits : Program V U → Program V U

-- `ctx` is where `longjmp(task->ctx)` resumes: nowhere before the first `yield` of the worker, and
-- nowhere once the worker has returned.
pub record Task {ℓ κ} (V : Type ℓ) (U : Type κ) : Type (ℓ ⊔ κ) where
  pub state : State
  pub id : TaskId
  pub name : Name
  pub worker : Program V U
  pub ctx : Option (Program V U)
  pub stack : Block
  pub result_future : Option Ref

-- `ASYNC_TASK_DEFAULT_STACK_SIZE`
abbrev pub default_stack_size : ℕ
default_stack_size = 65536
