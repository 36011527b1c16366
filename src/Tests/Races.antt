-- ===== src/Tests/Races.antt =====
-- A task and a thread, in two orders.
use asyncxx.Base.{ℕ, ◌≡◌, ◌⊎◌, refl, true, false, List, [], ◌∷◌, none, some}
use asyncxx.Api.{ok, notify_each}
use asyncxx.Async.Threads.{
  Race, Action, look, save, suspend, resume, store, notify, asleep, got, over, to_suspend,
  computing, steps, step, begin,
}
use asyncxx.Async.Threads.Races.{Saved}
use asyncxx.Async.Threads.Ends.{Lost}
use asyncxx.Async.Threads.Order.{notify_first, to_thread_lem}
use asyncxx.Async.Threads.Saved.{rest-Saved}

abbrev in_time : List Action
in_time = look ∷ save ∷ store ∷ suspend ∷ notify ∷ resume ∷ []

abbrev woken_race : Race ℕ
woken_race = record {
  future = record {
    state = record { completed = true; cancelled = false; waiters = 7 ∷ [] };
    result = 42;
  };
  to_wake = [];
  awaiter = got (ok 42);
  job = over;
}

in_time_run : steps 7 42 in_time (begin 0) ≡ some woken_race
unfolding steps begin notify_each
in_time_run = refl

woken-AtRest : (a : Action) → step 7 42 a woken_race ≡ none
unfolding step
woken-AtRest look = refl
woken-AtRest save = refl
woken-AtRest suspend = refl
woken-AtRest resume = refl
woken-AtRest store = refl
woken-AtRest notify = refl

-- The thread stores and notifies between the task's look and its save.
abbrev too_late : List Action
too_late = look ∷ store ∷ notify ∷ save ∷ suspend ∷ []

abbrev lost_race : Race ℕ
lost_race = record woken_race { awaiter = asleep }

too_late_run : steps 7 42 too_late (begin 0) ≡ some lost_race
unfolding steps begin notify_each
too_late_run = refl

lost-AtRest : (a : Action) → step 7 42 a lost_race ≡ none
unfolding step
lost-AtRest look = refl
lost-AtRest save = refl
lost-AtRest suspend = refl
lost-AtRest resume = refl
lost-AtRest store = refl
lost-AtRest notify = refl

to_thread_lem_example :
    (lost_race.awaiter ≡ got (ok 42)) ⊎ (Lost 7 42 lost_race × (notify_first too_late ≡ true))
to_thread_lem_example = to_thread_lem 7 42 0 too_late lost_race too_late_run lost-AtRest

-- The task has saved itself, and the thread computes.
abbrev saved_race : Race ℕ
saved_race = record {
  future = record {
    state = record { completed = false; cancelled = false; waiters = 7 ∷ [] };
    result = 0;
  };
  to_wake = [];
  awaiter = to_suspend;
  job = computing;
}

saved_race-Saved : Saved 7 42 saved_race
saved_race-Saved = record {
  sound = record { kept = refl; stored_as = (refl, refl, tt); lined = (refl, tt) };
  on_record = tt;
}

rest_run : steps 7 42 (store ∷ suspend ∷ notify ∷ resume ∷ []) saved_race ≡ some woken_race
unfolding steps notify_each
rest_run = refl

rest-Saved_example : woken_race.awaiter ≡ got (ok 42)
rest-Saved_example =
    rest-Saved 7 42 (store ∷ suspend ∷ notify ∷ resume ∷ []) saved_race woken_race saved_race-Saved
      rest_run woken-AtRest
