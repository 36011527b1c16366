-- ===== src/Async/Main.antt =====
-- include/async/macros.h: the functions that the macros expand to. `body` is the block after the macro
-- with its arguments applied, and is given what follows it.
pub mod Returns
pub mod Pair
pub mod Nested
pub mod Calling
pub mod Awaits
pub mod Tasks
pub mod Failing
pub mod Catches
use asyncxx.Base.{List, [], Option, none, some, ℕ, ◌≡◌, refl}
use asyncxx.Api.{Exception, Result, ok, err}
use asyncxx.Future.{Ref, Heap, Future, create, complete_at, find}
use asyncxx.Future
use asyncxx.Task.{Name, Shared, Program, finish, act, spawn}
use asyncxx.Loop.Types.{Config, EventLoop, Outcome, Fault, dangling}
use asyncxx.Loop.Types
use asyncxx.Async.{with_heap, run, task}

-- What `main` leaves: the value it returns, an exception that nobody catches, or undefined behaviour.
pub data Ending {ℓ κ} (V : Type ℓ) (U : Type κ) : Type (ℓ ⊔ κ) where
  main_returned : V → EventLoop V U → Ending V U
  uncaught : Exception → EventLoop V U → Ending V U
  broken : Fault → Ending V U

module _ {ℓ κ} {V : Type ℓ} {U : Type κ} where
  -- `f->complete(__fn_worker(args...))`, the lambda that the macros hand to the loop.
  unfoldable pub completing : Ref → ((V → Program V U) → Program V U) → Program V U
  completing f body = body (λ v. act (λ _ s. with_heap (complete_at f v) s) (λ _ s. finish))

  -- `async_task_n_r(fn, name, ret)`
  unfoldable pub async_task_n_r :
      Name → V → ((V → Program V U) → Program V U) → (Ref → Program V U) → Program V U
  unfolding completing
  async_task_n_r name init body k =
      act (λ _ s. with_heap (λ h. (create init h).1) s)
        (λ _ s.
          let f = (create init s.heap).0 in spawn name (some f) (completing f body) (λ id. k f))

  -- `async_task_r(fn, ret)`
  unfoldable pub async_task_r :
      V → ((V → Program V U) → Program V U) → (Ref → Program V U) → Program V U
  unfolding async_task_n_r
  async_task_r init body k = async_task_n_r [] init body k

  -- `async_task_n(fn, name)`: the block's result is of type `void`, which `unit` stands for.
  unfoldable pub async_task_n :
      Name → V → (Program V U → Program V U) → (Ref → Program V U) → Program V U
  unfolding async_task_n_r
  async_task_n name unit body k = async_task_n_r name unit (λ rest. body (rest unit)) k

  -- `async_task(fn)`
  unfoldable pub async_task : V → (Program V U → Program V U) → (Ref → Program V U) → Program V U
  unfolding async_task_n
  async_task unit body k = async_task_n [] unit body k

  -- The macros do what `task` does.
  async_task_r-task :
      (init : V) (body : (V → Program V U) → Program V U) (k : Ref → Program V U)
      → async_task_r init body k ≡ task init body k
  unfolding async_task_r task
  async_task_r-task init body k = refl

  -- `return f->get();`
  abbrev pub read_result : EventLoop V U → Option (Future V) → Ending V U
  read_result m none = broken dangling
  read_result m (some f) = read (Future.get f)
    where
      read : Result V → Ending V U
      read (ok v) = main_returned v m
      read (err e) = uncaught e m

  abbrev pub after_main : Ref → Option (Outcome (EventLoop V U)) → Option (Ending V U)
  after_main f none = none
  after_main f (some (Outcome.ok m)) = some (read_result m (find f m.shared.heap))
  after_main f (some (Outcome.raised e m)) = some (uncaught e m)
  after_main f (some (Outcome.fault x)) = some (broken x)

  module _ (c : Config) where
    -- `async_main()`; `none` as for `run`.
    unfoldable pub async_main :
        ℕ → V → ((V → Program V U) → Program V U) → EventLoop V U → Option (Ending V U)
    unfolding completing run
    async_main fuel init body l =
        let (f, h) = create init l.shared.heap in
        let l' = record l { shared = with_heap (λ _. h) l.shared } in
        after_main f (run c fuel (completing f body) l')
