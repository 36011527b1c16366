-- ===== src/Tests/Crowds.antt =====
-- A loop with several tasks that compute and yield, with a number as the program's own data.
use asyncxx.Base.{ℕ, ◌+◌, ◌≡◌, ◌⊎◌, refl, inl, [], ◌∷◌, none, some, arith}
use asyncxx.Api.{TaskId, main_task_exited}
use asyncxx.Task.{State, Task, Program, Shared, finish, act, yields}
use asyncxx.Loop.Types.{EventLoop, Outcome, new}
use asyncxx.Loop.Cycle.{run_until_completed}
use asyncxx.Loop.Busy.{Rounds, stops, works, rests, over, fresh, amid, nobody, also}
use asyncxx.Loop.Busy.Turn.{Working}
use asyncxx.Loop.Busy.Done.{run_until-Working}
use asyncxx.Tests.Fixtures.{config}

abbrev count_up : TaskId → Shared ℕ ℕ → Shared ℕ ℕ
count_up id s = record { heap = s.heap; user = s.user + 1 }

-- Counts on both sides of a `yield`.
abbrev twice : Program ℕ ℕ
twice = act count_up (λ id s. yields (act count_up (λ id s. finish)))

twice-Rounds : Rounds 1 twice
twice-Rounds = works (λ id s. refl) (λ id s. rests (works (λ id s. refl) (λ id s. stops)))

abbrev unstarted : Task ℕ ℕ
unstarted = record {
  state = State.init;
  id = 1;
  name = [];
  worker = twice;
  ctx = none;
  stack = (1, 65536);
  result_future = none;
}

abbrev started : Task ℕ ℕ
started = record unstarted { state = State.exec; id = 2; ctx = some twice; stack = (65537, 65536) }

abbrev over_already : Task ℕ ℕ
over_already = record unstarted { state = State.done; id = 3; stack = (131073, 65536) }

abbrev crowd : EventLoop ℕ ℕ
crowd = record (new 0 0) { tasks = unstarted ∷ over_already ∷ started ∷ [] }

crowd-Working : Working 7 crowd
unfolding new
crowd-Working = record {
  busy =
      also (fresh refl refl twice-Rounds)
        (also (over refl refl) (also (amid refl refl twice refl twice-Rounds) nobody));
  in_range = omega arith;
  none_to_wake = refl;
  none_to_start = refl;
  running = inl (refl, omega arith);
}

run_until-Working_example :
    ((m : EventLoop ℕ ℕ) × (run_until_completed config 8 crowd ≡ some (Outcome.ok m))
      × (m.tasks ≡ []))
    ⊎ ((m : EventLoop ℕ ℕ) × (run_until_completed config 8 crowd
          ≡ some (Outcome.raised main_task_exited m)))
run_until-Working_example = run_until-Working config 8 7 crowd crowd-Working (omega arith)
