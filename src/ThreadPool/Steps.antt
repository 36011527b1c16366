-- ===== src/ThreadPool/Steps.antt =====
-- Every action that can happen follows a rule, and what the rules keep, a sequence of steps keeps.
use asyncxx.Base.{
  After, ℕ, zero, suc, ◌≡◌, refl, subst, List, [], ◌∷◌, Option, none, some, Bool, true, false, All,
  get_elem?, ◌||◌, if◌then◌else◌,
}
use asyncxx.ThreadPool.{
  Pool, Phase, Stage, Action, push, notify_worker, check, sleep, wake_up, end_task, clear_queue,
  set_finish, set_terminate, notify_workers, join, step, steps, steps_from, checked, check_at,
  sleep_at, wake_at, end_at, notify_at, begin_stop, notify_from, join_from, mutex_free, all_gone,
  at_top, to_sleep, asleep, in_task, gone, not_called, flag_set, joining, returned, move,
  flag_finish, flag_terminate,
}
use asyncxx.Flags.{get_flag}
use asyncxx.ThreadPool.Rules.{
  At, Step, pushes, notifies, notifies_nobody, takes, terminates, finishes, tires, sleeps, wakes_up,
  ends, clears, raises_finish, raises_terminate, notifies_all, joins,
}

-- The two branches of a guard.
After-if {ℓ κ} :
    {A : Type ℓ} (P : A → Type κ) (b : Bool) (x : A)
    → (b ≡ true → P x)
    → After P (if b then some x else none)
After-if P true x h = h refl
After-if P false x h = tt

either {ℓ κ} :
    {A : Type ℓ} (P : A → Type κ) (b : Bool) (x y : A)
    → (b ≡ true → P x)
    → P y
    → P (if b then x else y)
either P true x y h k = h refl
either P false x y h k = k

module _ {ℓ} {T : Type ℓ} where
  checked-Step :
      (ts : List T) (i : ℕ) (s : Pool T)
      → s.queue ≡ ts
      → At s i at_top
      → Step s (check i) (checked ts i s)
  unfolding checked
  checked-Step [] i s e h =
      either (Step s (check i)) (get_flag flag_terminate s.flags || get_flag flag_finish s.flags)
        (move i gone s) (move i to_sleep s) (λ _. finishes h e) (tires h)
  checked-Step (t ∷ ts) i s e h =
      either (Step s (check i)) (get_flag flag_terminate s.flags) _ _ (λ y. terminates h y)
        (takes h e)

  check_at-Step :
      (i : ℕ) (o : Option (Phase T)) (s : Pool T)
      → get_elem? s.threads i ≡ o
      → After (Step s (check i)) (check_at i o s)
  unfolding check_at
  check_at-Step i none s h = tt
  check_at-Step i (some at_top) s h =
      After-if (Step s (check i)) (mutex_free s.threads) (checked s.queue i s)
        (λ _. checked-Step s.queue i s refl h)
  check_at-Step i (some to_sleep) s h = tt
  check_at-Step i (some asleep) s h = tt
  check_at-Step i (some (in_task t)) s h = tt
  check_at-Step i (some gone) s h = tt

  sleep_at-Step :
      (i : ℕ) (o : Option (Phase T)) (s : Pool T)
      → get_elem? s.threads i ≡ o
      → After (Step s (sleep i)) (sleep_at i o s)
  unfolding sleep_at
  sleep_at-Step i none s h = tt
  sleep_at-Step i (some at_top) s h = tt
  sleep_at-Step i (some to_sleep) s h = sleeps h
  sleep_at-Step i (some asleep) s h = tt
  sleep_at-Step i (some (in_task t)) s h = tt
  sleep_at-Step i (some gone) s h = tt

  wake_at-Step :
      (i : ℕ) (o : Option (Phase T)) (s : Pool T)
      → get_elem? s.threads i ≡ o
      → After (Step s (wake_up i)) (wake_at i o s)
  unfolding wake_at
  wake_at-Step i none s h = tt
  wake_at-Step i (some at_top) s h = tt
  wake_at-Step i (some to_sleep) s h = tt
  wake_at-Step i (some asleep) s h = wakes_up h
  wake_at-Step i (some (in_task t)) s h = tt
  wake_at-Step i (some gone) s h = tt

  end_at-Step :
      (i : ℕ) (o : Option (Phase T)) (s : Pool T)
      → get_elem? s.threads i ≡ o
      → After (Step s (end_task i)) (end_at i o s)
  unfolding end_at
  end_at-Step i none s h = tt
  end_at-Step i (some at_top) s h = tt
  end_at-Step i (some to_sleep) s h = tt
  end_at-Step i (some asleep) s h = tt
  end_at-Step i (some (in_task t)) s h = ends h
  end_at-Step i (some gone) s h = tt

  notify_at-Step :
      (i : ℕ) (o : Option (Phase T)) (n : ℕ) (s : Pool T)
      → get_elem? s.threads i ≡ o
      → s.to_notify ≡ n
      → After (Step s (notify_worker i)) (notify_at i o n s)
  unfolding notify_at
  notify_at-Step i o zero s h e = tt
  notify_at-Step i none (suc n) s h e = notifies_nobody e
  notify_at-Step i (some at_top) (suc n) s h e = notifies_nobody e
  notify_at-Step i (some to_sleep) (suc n) s h e = notifies_nobody e
  notify_at-Step i (some asleep) (suc n) s h e = notifies e h
  notify_at-Step i (some (in_task t)) (suc n) s h e = notifies_nobody e
  notify_at-Step i (some gone) (suc n) s h e = notifies_nobody e

  begin_finish-Step :
      (c : Stage) (s : Pool T) → After (Step s set_finish) (begin_stop flag_finish c s)
  unfolding begin_stop
  begin_finish-Step not_called s = raises_finish
  begin_finish-Step flag_set s = tt
  begin_finish-Step joining s = tt
  begin_finish-Step returned s = tt

  begin_terminate-Step :
      (c : Stage) (s : Pool T) → After (Step s set_terminate) (begin_stop flag_terminate c s)
  unfolding begin_stop
  begin_terminate-Step not_called s = raises_terminate
  begin_terminate-Step flag_set s = tt
  begin_terminate-Step joining s = tt
  begin_terminate-Step returned s = tt

  notify_from-Step :
      (c : Stage) (s : Pool T) → s.caller ≡ c → After (Step s notify_workers) (notify_from c s)
  unfolding notify_from
  notify_from-Step not_called s e = tt
  notify_from-Step flag_set s e = notifies_all e
  notify_from-Step joining s e = tt
  notify_from-Step returned s e = tt

  join_from-Step : (c : Stage) (s : Pool T) → After (Step s join) (join_from c s)
  unfolding join_from
  join_from-Step not_called s = tt
  join_from-Step flag_set s = tt
  join_from-Step joining s = After-if (Step s join) (all_gone s.threads) _ (λ h. joins h)
  join_from-Step returned s = tt

  step-Step : (a : Action T) (s : Pool T) → After (Step s a) (step a s)
  unfolding step
  step-Step (push task) s = After-if (Step s (push task)) (mutex_free s.threads) _ (λ _. pushes)
  step-Step (notify_worker i) s = notify_at-Step i (get_elem? s.threads i) s.to_notify s refl refl
  step-Step (check i) s = check_at-Step i (get_elem? s.threads i) s refl
  step-Step (sleep i) s = sleep_at-Step i (get_elem? s.threads i) s refl
  step-Step (wake_up i) s = wake_at-Step i (get_elem? s.threads i) s refl
  step-Step (end_task i) s = end_at-Step i (get_elem? s.threads i) s refl
  step-Step clear_queue s = After-if (Step s clear_queue) (mutex_free s.threads) _ (λ _. clears)
  step-Step set_finish s = begin_finish-Step s.caller s
  step-Step set_terminate s = begin_terminate-Step s.caller s
  step-Step notify_workers s = notify_from-Step s.caller s refl
  step-Step join s = join_from-Step s.caller s

  -- Every action that can happen follows a rule.
  pub Step-step : (a : Action T) (s : Pool T) {q : Pool T} → step a s ≡ some q → Step s a q
  Step-step a s e = subst (After (Step s a)) e (step-Step a s)

module _ {ℓ κ} {T : Type ℓ} (allowed : Action T → Bool) (P : Pool T → Type κ) where
  -- What every allowed step keeps, any sequence of such steps keeps.
  pub steps-keep :
      ((a : Action T) (s q : Pool T) → Step s a q → allowed a ≡ true → P s → P q)
      → (acts : List (Action T)) (s q : Pool T) → All (λ a. allowed a ≡ true) acts
      → P s
      → steps acts s ≡ some q
      → P q
  unfolding steps
  steps-keep each [] s q h p e = subst (At_state s) e p
    where
      At_state : Pool T → Option (Pool T) → Type κ
      At_state s none = P s
      At_state s (some m) = P m
  steps-keep each (a ∷ acts) s q h p e =
      go (step a s) refl e (λ m k. steps-keep each acts m q h.1 k)
    where
      go :
          (o : Option (Pool T))
          → step a s ≡ o
          → steps_from (steps acts) o ≡ some q
          → ((m : Pool T) → P m → steps acts m ≡ some q → P q)
          → P q
      go none d e ih = absurd (cc)
      go (some m) d e ih = ih m (each a s m (Step-step a s d) h.0 p) e
