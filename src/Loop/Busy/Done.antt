-- ===== src/Loop/Busy/Done.antt =====
-- `runUntilCompleted` of include/async/loop.h on any number of tasks that compute and yield.
use asyncxx.Base.{
  ℕ, zero, suc, ◌<◌, ◌≡◌, refl, sym, ap, ◌∙◌, subst, true, ◌==◌, if◌then◌else◌, [], some, arith,
  length, lt-get_elem?, ◌⊎◌, inl, inr,
}
use asyncxx.Api.{main_task_exited}
use asyncxx.Loop.Types.{Config, EventLoop, Outcome, ◌>>=◌}
use asyncxx.Loop.Cycle.{run_task, run_found, schedule, cycle, run_until_completed}
use asyncxx.Async.Sequential.{run_until-cycle, drive}
use asyncxx.Async.Await.{process_sync_quiet}
use asyncxx.Loop.Busy.{share}
use asyncxx.Loop.Busy.Turn.{Working, Less, Less-suc, turn-Less}

module _ {ℓ κ} {V : Type ℓ} {U : Type κ} (c : Config) where
  cycle-Less :
      (n : ℕ) (l : EventLoop V U)
      → Working n l
      → l.running ≡ true
      → 0 < length l.tasks
      → Less n (cycle c l)
  unfolding cycle schedule run_found
  cycle-Less n l a run some_task =
      let i = if l.current == length l.tasks then 0 else l.current in
      let k = a.in_range in
      let lt : i < length l.tasks = ground (arith, k, some_task) in
      let (t, e) = lt-get_elem? l.tasks i lt in
      let (w, m, f, q, change, gone) = share l.tasks i t a.busy e in
      let l' = record l { current = i } in
      Less-suc
        (ap (λ o. o >>= schedule c) (process_sync_quiet c l a.none_to_wake a.none_to_start)
          ∙ ap (λ o. run_found c o l') e)
        (subst (λ x. Less x (run_task c t.state t l')) (sym q)
          (turn-Less c t m l' f change gone e lt a.none_to_wake a.none_to_start run))

  -- A loop with any number of tasks, new, running or done, none of which has a future of its own, and
  -- which only compute, yield and return, each with a bounded number of yields, whatever the others
  -- write in between; nothing is to start or to be woken, the loop is running exactly if it has tasks,
  -- and `current` is in range. `runUntilCompleted` ends, within two cycles for each task that is not
  -- done, one for each that is, one for each yield, and one. Then no task is left, or it has thrown
  -- `MainTaskExitedException`.
  pub run_until-Working :
      (fuel n : ℕ) (l : EventLoop V U)
      → Working n l
      → n < fuel
      → ((m : EventLoop V U) × (run_until_completed c fuel l ≡ some (Outcome.ok m))
          × (m.tasks ≡ []))
        ⊎ ((m : EventLoop V U) × (run_until_completed c fuel l
              ≡ some (Outcome.raised main_task_exited m)))
  run_until-Working zero n l a h = absurd (omega arith)
  run_until-Working (suc fuel) n l a h = elim a.running [
    | inr (stopped, empty) ↦ inl (l, unfold run_until_completed in rw stopped refl, empty)
    | inl (run, some_task) ↦
        let first = run_until-cycle c fuel l run in
        elim (cycle-Less n l a run some_task) [
          | inr (m, e) ↦ inr (m, first ∙ ap (drive c fuel) e)
          | inl (m, k, e, less, b) ↦ elim (run_until-Working fuel k m b (omega arith)) [
            | inl (d, q, empty) ↦ inl (d, first ∙ ap (drive c fuel) e ∙ q, empty)
            | inr (d, q) ↦ inr (d, first ∙ ap (drive c fuel) e ∙ q)
          ]
        ]
  ]
