-- ===== src/ThreadPool/Stuck.antt =====
-- The wake-up that `terminate` of include/async/pool.h can lose: `setFlag` and `notify_all` do not
-- take the mutex, so both may come between a worker's test of the predicate and its sleep.
use asyncxx.Base.{
  ℕ, zero, suc, ◌≡◌, ◌≢◌, refl, sym, ap, ◌∙◌, List, [], ◌∷◌, some, Bool, true, false, All, arith,
  get_elem?, set,
}
use asyncxx.ThreadPool.{
  Pool, Phase, Action, push, wake_up, set_finish, set_terminate, steps, all_gone, at_top, to_sleep,
  asleep, in_task, gone, flag_set, joining,
}
use asyncxx.ThreadPool.Rules.{
  At, Step, pushes, notifies, notifies_nobody, takes, terminates, finishes, tires, sleeps, wakes_up,
  ends, clears, raises_finish, raises_terminate, notifies_all, joins,
}
use asyncxx.ThreadPool.Steps.{steps-keep}

not-joining : flag_set ≢ joining
not-joining e = absurd (cc)

module _ {ℓ} {T : Type ℓ} where
  abbrev is_asleep : Phase T → Bool
  is_asleep asleep = true
  is_asleep _ = false

  -- No task is scheduled, no sleep ends by itself, and `waitAll` is not called again.
  abbrev pub no_rescue : Action T → Bool
  no_rescue (push task) = false
  no_rescue (wake_up i) = false
  no_rescue set_finish = false
  no_rescue set_terminate = false
  no_rescue _ = true

  set_other :
      (ps : List (Phase T)) (i j : ℕ) (p p' : Phase T)
      → get_elem? ps i ≡ some asleep
      → get_elem? ps j ≡ some p
      → is_asleep p ≡ false
      → get_elem? (set ps j p') i ≡ some asleep
  set_other [] i j p p' hi hj h = absurd (cc)
  set_other (x ∷ ps) zero zero p p' hi hj h = ground (arith, hi, hj, h)
  set_other (x ∷ ps) zero (suc j) p p' hi hj h = hi
  set_other (x ∷ ps) (suc i) zero p p' hi hj h = hi
  set_other (x ∷ ps) (suc i) (suc j) p p' hi hj h = set_other ps i j p p' hi hj h

  not-all_gone : (ps : List (Phase T)) (i : ℕ) → get_elem? ps i ≡ some asleep → all_gone ps ≡ false
  unfolding all_gone
  not-all_gone [] i h = absurd (cc)
  not-all_gone (x ∷ ps) zero h = ground (arith, h)
  not-all_gone (x ∷ ps) (suc i) h = ground (arith, not-all_gone ps i h)

  -- Worker `i` sleeps, `terminate` has notified and joins, and no `notify_one` is on its way.
  pub record IsStuck (i : ℕ) (s : Pool T) : Type ℓ where
    pub sleeper : At s i asleep
    pub joins_now : s.caller ≡ joining
    pub no_notify : s.to_notify ≡ 0

  -- A move of a worker that does not sleep.
  moved :
      (i j : ℕ) (p p' : Phase T) (s q : Pool T)
      → IsStuck i s
      → At s j p
      → is_asleep p ≡ false
      → q.threads ≡ set s.threads j p'
      → q.caller ≡ s.caller
      → q.to_notify ≡ s.to_notify
      → IsStuck i q
  moved i j p p' s q k hj h t c n = record {
    sleeper = ap (λ ps. get_elem? ps i) t ∙ set_other s.threads i j p p' k.sleeper hj h;
    joins_now = c ∙ k.joins_now;
    no_notify = n ∙ k.no_notify;
  }

  Step-IsStuck :
      (i : ℕ) {a : Action T} {s q : Pool T}
      → Step s a q
      → no_rescue a ≡ true
      → IsStuck i s
      → IsStuck i q
  Step-IsStuck i pushes h k = absurd (cc)
  Step-IsStuck i (notifies e p) h k = absurd (omega (arith, k.no_notify, e))
  Step-IsStuck i (notifies_nobody e) h k = absurd (omega (arith, k.no_notify, e))
  Step-IsStuck i {s} {q} (takes {i = j} {task} p e) h k =
      moved i j at_top (in_task task) s q k p refl refl refl refl
  Step-IsStuck i {s} {q} (terminates {i = j} p e) h k =
      moved i j at_top gone s q k p refl refl refl refl
  Step-IsStuck i {s} {q} (finishes {i = j} p e) h k =
      moved i j at_top gone s q k p refl refl refl refl
  Step-IsStuck i {s} {q} (tires {i = j} p) h k =
      moved i j at_top to_sleep s q k p refl refl refl refl
  Step-IsStuck i {s} {q} (sleeps {i = j} p) h k =
      moved i j to_sleep asleep s q k p refl refl refl refl
  Step-IsStuck i (wakes_up p) h k = absurd (cc)
  Step-IsStuck i {s} {q} (ends {i = j} {task} p) h k =
      moved i j (in_task task) at_top s q k p refl refl refl refl
  Step-IsStuck i clears h k = record {
    sleeper = k.sleeper;
    joins_now = k.joins_now;
    no_notify = k.no_notify;
  }
  Step-IsStuck i raises_finish h k = absurd (cc)
  Step-IsStuck i raises_terminate h k = absurd (cc)
  Step-IsStuck i (notifies_all e) h k = absurd (not-joining (sym e ∙ k.joins_now))
  Step-IsStuck i {s} (joins e) h k = absurd (cc (not-all_gone s.threads i k.sleeper, e))

  -- Once a worker sleeps while `terminate` joins, with no `notify_one` on its way, the worker stays
  -- asleep and `terminate` does not return, whatever the other workers do, unless a task is
  -- scheduled, a sleep ends by itself or a stop is begun again.
  pub steps-IsStuck :
      (i : ℕ) (acts : List (Action T)) (s q : Pool T)
      → All (λ a. no_rescue a ≡ true) acts
      → IsStuck i s
      → steps acts s ≡ some q
      → IsStuck i q
  steps-IsStuck i acts s q h k e =
      steps-keep no_rescue (IsStuck i) (λ a m n st ok kk. Step-IsStuck i st ok kk) acts s q h k e
