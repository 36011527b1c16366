-- ===== src/Tests/Tops.antt =====
-- Two tasks of a loop: where their stacks begin, and when they have their turns.
use asyncxx.Base.{ℕ, ◌+◌, ◌%◌, ◌≤◌, ◌≡◌, ◌⊎◌, refl, inl, inr, true, [], ◌∷◌, none, arith}
use asyncxx.Loop.Stacks.{stack_top, stack_top_lem}
use asyncxx.Loop.Turns.{HasTurn, cycles, turn_comes}
use asyncxx.Loop.Types.{EventLoop}
use asyncxx.Loop.Valid.{IsValid}
use asyncxx.Tests.Fixtures.{config}
use asyncxx.Task.{State, Task, finish}

abbrev task_at : ℕ → ℕ → Task ℕ ℕ
task_at id data_ = record {
  state = State.init;
  id = id;
  name = [];
  worker = finish;
  ctx = none;
  stack = (data_, 65536);
  result_future = none;
}

abbrev two_tasks : EventLoop ℕ ℕ
two_tasks = record {
  running = true;
  tasks = task_at 0 1000 ∷ task_at 1 70000 ∷ [];
  current = 0;
  task_id_counter = 2;
  main_task_id = none;
  to_start = [];
  shared = record { heap = record { futures = []; to_wake = [] }; user = 0 };
  stacks = record { free = []; used = (1000, 65536) ∷ (70000, 65536) ∷ [] };
}

two_tasks-IsValid : IsValid two_tasks
two_tasks-IsValid = record {
  tagged = record {
    pool = omega arith;
    below = omega arith;
    owned = (inl refl, (inr (inl refl), tt));
    unlike = omega arith;
  };
  in_range = omega arith;
  alive = λ e. omega arith;
}

tops : (stack_top (1000, 65536) ≡ 66272) × (stack_top (70000, 65536) ≡ 135280)
unfolding stack_top
tops = (refl, refl)

stack_top_lem_example :
    (stack_top (1000, 65536) % 16 ≡ 0)
    × (stack_top (70000, 65536) % 16 ≡ 0)
    × (66536 ≤ stack_top (1000, 65536) + 271)
    × (135536 ≤ stack_top (70000, 65536) + 271)
    × ((stack_top (1000, 65536) + 256 ≤ 70000) ⊎ (stack_top (70000, 65536) + 256 ≤ 1000))
stack_top_lem_example =
    stack_top_lem two_tasks 0 1 (task_at 0 1000) (task_at 1 70000) two_tasks-IsValid (omega arith)
      refl refl (omega arith) (omega arith)

-- The second task has its turn once the first one has run and was erased.
turn_comes_example : (n : ℕ) × (n ≤ 3) × HasTurn config 1 (cycles config n two_tasks)
turn_comes_example =
    turn_comes config 1 1 two_tasks (record { not_passed = omega arith; there = refl })
