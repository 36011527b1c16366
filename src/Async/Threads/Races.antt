-- ===== src/Async/Threads/Races.antt =====
-- What the interleavings of `await` with the thread that completes the future can come to.
use asyncxx.Base.{
  ◌≡◌, inl, inr, refl, ap, subst, Bool, true, false, if◌then◌else◌, List, [], ◌∷◌, ◌++◌, Option,
  none, some, arith, After, Bool-cases,
}
use asyncxx.Api.{TaskId, ok}
use asyncxx.Future.{Future, wakes, is_completed, is_cancelled, get, after_wait}
use asyncxx.FutureState
use asyncxx.Loop.Wakeups.{has_id}
use asyncxx.Async.Threads.{
  Awaiter, to_check, to_save, to_suspend, asleep, got, Job, computing, stored, over, Race, Action,
  look, save, suspend, resume, store, notify, look_from, save_from, suspend_from, resume_from,
  store_from, notify_from, step, steps, steps_from,
}

module _ {ℓ} {V : Type ℓ} (id : TaskId) (v : V) where
  -- What the future holds and who is to be woken, by where the thread is.
  abbrev pub Stored : Job → Bool → V → List TaskId → Type ℓ
  Stored computing completed result ws = (completed ≡ false) × (ws ≡ []) × Unit {ℓ}
  Stored stored completed result ws = (completed ≡ true) × (ws ≡ []) × (result ≡ v)
  Stored over completed result ws = (completed ≡ true) × (result ≡ v)

  -- Who waits, by where the task is.
  abbrev pub Lined : Awaiter V → List TaskId → Type ℓ
  Lined to_check waiters = (waiters ≡ []) × Unit {ℓ}
  Lined to_save waiters = (waiters ≡ []) × Unit {ℓ}
  Lined to_suspend waiters = (waiters ≡ id ∷ []) × Unit {ℓ}
  Lined asleep waiters = (waiters ≡ id ∷ []) × Unit {ℓ}
  Lined (got r) waiters = r ≡ ok v

  -- The future is not cancelled, the thread stores `v`, and what the task got is `v`.
  pub record Sound (s : Race V) : Type ℓ where
    pub kept : s.future.state.cancelled ≡ false
    pub stored_as : Stored s.job s.future.state.completed s.future.result s.to_wake
    pub lined : Lined s.awaiter s.future.state.waiters

  -- A saved task is on record once the thread has notified.
  abbrev pub OnRecord : Awaiter V → Job → List TaskId → Type 0
  OnRecord to_suspend over ws = ws ≡ id ∷ []
  OnRecord asleep over ws = ws ≡ id ∷ []
  OnRecord to_suspend j ws = Unit
  OnRecord asleep j ws = Unit
  OnRecord to_check j ws = ⊥
  OnRecord to_save j ws = ⊥
  OnRecord (got r) j ws = Unit

  -- The task was saved before the thread notified.
  pub record Saved (s : Race V) : Type ℓ where
    pub sound : Sound s
    pub on_record : OnRecord s.awaiter s.job s.to_wake

  value_of :
      (j : Job) (completed : Bool) (result : V) (ws : List TaskId)
      → Stored j completed result ws
      → completed ≡ true
      → result ≡ v
  value_of computing completed result ws h e = absurd (cc (h.0, e))
  value_of stored completed result ws h e = h.2
  value_of over completed result ws h e = h.1

  completed_get :
      (f : Future V)
      → f.state.cancelled ≡ false
      → f.state.completed ≡ true
      → f.result ≡ v
      → get f ≡ ok v
  unfolding get is_completed is_cancelled
  completed_get f c d e = ground (arith, c, d, e)

  completed_after_wait :
      (f : Future V)
      → f.state.cancelled ≡ false
      → f.state.completed ≡ true
      → f.result ≡ v
      → after_wait f ≡ ok v
  unfolding after_wait is_completed is_cancelled
  completed_after_wait f c d e = ground (arith, c, d, e)

  look-Sound : (w : Awaiter V) (s : Race V) → s.awaiter ≡ w → Sound s → After Sound (look_from w s)
  unfolding look_from
  look-Sound to_check s e k = record {
    kept = k.kept;
    stored_as = k.stored_as;
    lined = looked s.future.state.completed refl;
  }
    where
      looked :
          (b : Bool)
          → s.future.state.completed ≡ b
          → Lined (if b then got (get s.future) else to_save) s.future.state.waiters
      looked true d =
          completed_get s.future k.kept d
            (value_of s.job s.future.state.completed s.future.result s.to_wake k.stored_as d)
      looked false d = subst (λ w. Lined w s.future.state.waiters) e k.lined
  look-Sound to_save s e k = tt
  look-Sound to_suspend s e k = tt
  look-Sound asleep s e k = tt
  look-Sound (got r) s e k = tt

  save-Sound :
      (w : Awaiter V) (s : Race V) → s.awaiter ≡ w → Sound s → After Sound (save_from id w s)
  unfolding save_from FutureState.save_waiter
  save-Sound to_save s e k = record {
    kept = k.kept;
    stored_as = k.stored_as;
    lined =
        (ap (λ ws. ws ++ id ∷ []) (subst (λ w. Lined w s.future.state.waiters) e k.lined).0, tt);
  }
  save-Sound to_check s e k = tt
  save-Sound to_suspend s e k = tt
  save-Sound asleep s e k = tt
  save-Sound (got r) s e k = tt

  suspend-Sound :
      (w : Awaiter V) (s : Race V) → s.awaiter ≡ w → Sound s → After Sound (suspend_from w s)
  unfolding suspend_from
  suspend-Sound to_suspend s e k = record {
    kept = k.kept;
    stored_as = k.stored_as;
    lined = subst (λ w. Lined w s.future.state.waiters) e k.lined;
  }
  suspend-Sound to_check s e k = tt
  suspend-Sound to_save s e k = tt
  suspend-Sound asleep s e k = tt
  suspend-Sound (got r) s e k = tt

  -- A task is on record only once the thread has notified.
  notified :
      (j : Job) (completed : Bool) (result : V) (ws : List TaskId)
      → Stored j completed result ws
      → has_id id ws ≡ true
      → Stored j completed result [] × (completed ≡ true) × (result ≡ v)
  notified computing completed result ws h y = absurd (cc (ap (has_id id) h.1, y))
  notified stored completed result ws h y = absurd (cc (ap (has_id id) h.1, y))
  notified over completed result ws h y = (h, h.0, h.1)

  resume-Sound :
      (w : Awaiter V) (s : Race V) → s.awaiter ≡ w → Sound s → After Sound (resume_from id w s)
  unfolding resume_from
  resume-Sound asleep s e k = elim (Bool-cases (has_id id s.to_wake)) [
    | inl y ↦
        let (after, d, r) =
          notified s.job s.future.state.completed s.future.result s.to_wake k.stored_as y in
        rw (resume_from, y)
          (record {
            kept = k.kept;
            stored_as = after;
            lined = completed_after_wait s.future k.kept d r;
          })
    | inr n ↦ rw (resume_from, n) tt
  ]
  resume-Sound to_check s e k = tt
  resume-Sound to_save s e k = tt
  resume-Sound to_suspend s e k = tt
  resume-Sound (got r) s e k = tt

  store-Sound : (j : Job) (s : Race V) → s.job ≡ j → Sound s → After Sound (store_from v j s)
  unfolding store_from
  store-Sound computing s e k = record {
    kept = k.kept;
    stored_as = (
      refl,
      (subst (λ j. Stored j s.future.state.completed s.future.result s.to_wake) e k.stored_as).1,
      refl,
    );
    lined = k.lined;
  }
  store-Sound stored s e k = tt
  store-Sound over s e k = tt

  notify-Sound : (j : Job) (s : Race V) → s.job ≡ j → Sound s → After Sound (notify_from j s)
  unfolding notify_from
  notify-Sound stored s e k =
      let now =
        subst (λ j. Stored j s.future.state.completed s.future.result s.to_wake) e k.stored_as in
      record { kept = k.kept; stored_as = (now.0, now.2); lined = k.lined }
  notify-Sound computing s e k = tt
  notify-Sound over s e k = tt

  pub step-Sound : (a : Action) (s : Race V) → Sound s → After Sound (step id v a s)
  unfolding step
  step-Sound look s k = look-Sound s.awaiter s refl k
  step-Sound save s k = save-Sound s.awaiter s refl k
  step-Sound suspend s k = suspend-Sound s.awaiter s refl k
  step-Sound resume s k = resume-Sound s.awaiter s refl k
  step-Sound store s k = store-Sound s.job s refl k
  step-Sound notify s k = notify-Sound s.job s refl k

  pub steps-keep :
      (P : Race V → Type ℓ)
      → ((a : Action) (s : Race V) → P s → After P (step id v a s))
      → (acts : List Action) (s : Race V) → P s
      → After P (steps id v acts s)
  unfolding steps
  steps-keep P each [] s p = p
  steps-keep P each (a ∷ acts) s p =
      go (step id v a s) (each a s p) (λ m q. steps-keep P each acts m q)
    where
      go :
          (o : Option (Race V))
          → After P o
          → ((m : Race V) → P m → After P (steps id v acts m))
          → After P (steps_from id v (steps id v acts) o)
      go none q ih = tt
      go (some m) q ih = ih m q
