-- ===== src/Async/Threads/Ends.antt =====
-- Where an awaited `to_thread` of include/async/async.h can come to rest.
use asyncxx.Base.{◌≡◌, ◌⊎◌, inl, inr, refl, ap, ◌∙◌, subst, false, none, arith, Bool-cases}
use asyncxx.Api.{TaskId, ok}
use asyncxx.Future.{wakes, new}
use asyncxx.Loop.Wakeups.{has_id}
use asyncxx.Async.Threads.{
  Awaiter, to_check, to_save, to_suspend, asleep, got, Job, computing, stored, over, Race, Action,
  look, save, suspend, resume, store, notify, look_from, save_from, suspend_from, resume_from,
  store_from, notify_from, step, begin,
}
use asyncxx.Async.Threads.Races.{Lined, Sound}

module _ {ℓ} {V : Type ℓ} (id : TaskId) (v : V) where
  pub begin-Sound : (init : V) → Sound id v (begin init)
  unfolding begin new
  begin-Sound init = record { kept = refl; stored_as = (refl, refl, tt); lined = (refl, tt) }

  -- Neither thread can do anything more.
  abbrev pub AtRest : Race V → Type ℓ
  AtRest s = (a : Action) → step id v a s ≡ none

  -- The task sleeps, with no notification on its way.
  abbrev pub Lost : Race V → Type ℓ
  Lost s = (s.awaiter ≡ asleep) × (s.job ≡ over) × (has_id id s.to_wake ≡ false)

  pub rest_lem : (s : Race V) → Sound id v s → AtRest s → (s.awaiter ≡ got (ok v)) ⊎ Lost s
  unfolding step look_from save_from suspend_from resume_from store_from notify_from
  rest_lem s k r =
      go s.awaiter s.job refl refl (r look) (r save) (r suspend) (r resume) (r store) (r notify)
    where
      go :
          (w : Awaiter V) (j : Job)
          → s.awaiter ≡ w
          → s.job ≡ j
          → look_from w s ≡ none
          → save_from id w s ≡ none
          → suspend_from w s ≡ none
          → resume_from id w s ≡ none
          → store_from v j s ≡ none
          → notify_from j s ≡ none
          → (s.awaiter ≡ got (ok v)) ⊎ Lost s
      go w computing ew ej l sa su re st nt = absurd (cc)
      go w stored ew ej l sa su re st nt = absurd (cc)
      go to_check over ew ej l sa su re st nt = absurd (cc)
      go to_save over ew ej l sa su re st nt = absurd (cc)
      go to_suspend over ew ej l sa su re st nt = absurd (cc)
      go asleep over ew ej l sa su re st nt = elim (Bool-cases (has_id id s.to_wake)) [
        | inl y ↦ absurd (ground (arith, re, y))
        | inr n ↦ inr (ew, ej, n)
      ]
      go (got x) over ew ej l sa su re st nt =
          inl (ew ∙ ap got (subst (λ w. Lined id v w s.future.state.waiters) ew k.lined))
