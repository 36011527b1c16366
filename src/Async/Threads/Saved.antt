-- ===== src/Async/Threads/Saved.antt =====
-- An awaited `to_thread` of include/async/async.h, once the task has saved itself in time.
use asyncxx.Base.{
  ◌≡◌, inl, inr, refl, sym, ap, ◌∙◌, subst, List, [], ◌∷◌, Option, none, some, arith, After,
  Bool-cases,
}
use asyncxx.Api.{TaskId, ok, notify_each}
use asyncxx.Future.{wakes}
use asyncxx.FutureState
use asyncxx.Loop.Wakeups.{has_id}
use asyncxx.Async.Threads.{
  Awaiter, to_check, to_save, to_suspend, asleep, got, Job, computing, stored, over, Race, Action,
  look, save, suspend, resume, store, notify, look_from, save_from, suspend_from, resume_from,
  store_from, notify_from, step, steps,
}
use asyncxx.Async.Threads.Races.{Stored, Lined, Sound, Saved, OnRecord, step-Sound, steps-keep}
use asyncxx.Async.Threads.Ends.{AtRest, rest_lem}

module _ {ℓ} {V : Type ℓ} (id : TaskId) (v : V) where
  -- What a step leaves of the record, by where the task and the thread are.
  abbrev Recorded : Race V → Type 0
  Recorded s = OnRecord id v s.awaiter s.job s.to_wake

  look-Recorded :
      (w : Awaiter V) (s : Race V)
      → OnRecord id v w s.job s.to_wake
      → After Recorded (look_from w s)
  unfolding look_from
  look-Recorded to_check s k = absurd k
  look-Recorded to_save s k = tt
  look-Recorded to_suspend s k = tt
  look-Recorded asleep s k = tt
  look-Recorded (got r) s k = tt

  save-Recorded :
      (w : Awaiter V) (s : Race V)
      → OnRecord id v w s.job s.to_wake
      → After Recorded (save_from id w s)
  unfolding save_from
  save-Recorded to_check s k = tt
  save-Recorded to_save s k = absurd k
  save-Recorded to_suspend s k = tt
  save-Recorded asleep s k = tt
  save-Recorded (got r) s k = tt

  suspended :
      (j : Job) (ws : List TaskId) → OnRecord id v to_suspend j ws → OnRecord id v asleep j ws
  suspended computing ws k = tt
  suspended stored ws k = tt
  suspended over ws k = k

  suspend-Recorded :
      (w : Awaiter V) (s : Race V)
      → OnRecord id v w s.job s.to_wake
      → After Recorded (suspend_from w s)
  unfolding suspend_from
  suspend-Recorded to_check s k = tt
  suspend-Recorded to_save s k = tt
  suspend-Recorded to_suspend s k = suspended s.job s.to_wake k
  suspend-Recorded asleep s k = tt
  suspend-Recorded (got r) s k = tt

  resume-Recorded :
      (w : Awaiter V) (s : Race V)
      → OnRecord id v w s.job s.to_wake
      → After Recorded (resume_from id w s)
  unfolding resume_from
  resume-Recorded asleep s k = elim (Bool-cases (has_id id s.to_wake)) [
    | inl y ↦ rw (resume_from, y) tt
    | inr n ↦ rw (resume_from, n) tt
  ]
  resume-Recorded to_check s k = tt
  resume-Recorded to_save s k = tt
  resume-Recorded to_suspend s k = tt
  resume-Recorded (got r) s k = tt

  store-Recorded :
      (w : Awaiter V) (j : Job) (s : Race V)
      → s.awaiter ≡ w
      → OnRecord id v w j s.to_wake
      → After Recorded (store_from v j s)
  unfolding store_from
  store-Recorded w computing s e k =
      subst (λ x. OnRecord id v x stored s.to_wake) (sym e) (pending w k)
    where
      pending :
          (x : Awaiter V) → OnRecord id v x computing s.to_wake → OnRecord id v x stored s.to_wake
      pending to_check h = h
      pending to_save h = h
      pending to_suspend h = tt
      pending asleep h = tt
      pending (got r) h = tt
  store-Recorded w stored s e k = tt
  store-Recorded w over s e k = tt

  notify-Recorded :
      (w : Awaiter V) (j : Job) (s : Race V)
      → s.awaiter ≡ w
      → s.job ≡ j
      → Sound id v s
      → OnRecord id v w j s.to_wake
      → After Recorded (notify_from j s)
  unfolding notify_from FutureState.notify_all notify_each
  notify-Recorded w stored s e d q k =
      subst (λ x. OnRecord id v x over woken) (sym e)
        (listed w (subst (λ x. Lined id v x s.future.state.waiters) e q.lined) k)
    where
      woken : List TaskId
      woken = FutureState.notify_all wakes s.future.state s.to_wake

      none_yet : s.to_wake ≡ []
      none_yet =
          (subst (λ x. Stored id v x s.future.state.completed s.future.result s.to_wake) d
            q.stored_as).1

      one : s.future.state.waiters ≡ id ∷ [] → woken ≡ id ∷ []
      one l =
          ap (λ ws. notify_each wakes ws s.to_wake) l ∙ ap (notify_each wakes (id ∷ [])) none_yet

      listed :
          (x : Awaiter V)
          → Lined id v x s.future.state.waiters
          → OnRecord id v x stored s.to_wake
          → OnRecord id v x over woken
      listed to_check l h = h
      listed to_save l h = h
      listed to_suspend l h = one l.0
      listed asleep l h = one l.0
      listed (got r) l h = tt
  notify-Recorded w computing s e d q k = tt
  notify-Recorded w over s e d q k = tt

  step-Recorded : (a : Action) (s : Race V) → Saved id v s → After Recorded (step id v a s)
  unfolding step
  step-Recorded look s k = look-Recorded s.awaiter s k.on_record
  step-Recorded save s k = save-Recorded s.awaiter s k.on_record
  step-Recorded suspend s k = suspend-Recorded s.awaiter s k.on_record
  step-Recorded resume s k = resume-Recorded s.awaiter s k.on_record
  step-Recorded store s k = store-Recorded s.awaiter s.job s refl k.on_record
  step-Recorded notify s k = notify-Recorded s.awaiter s.job s refl refl k.sound k.on_record

  step-Saved : (a : Action) (s : Race V) → Saved id v s → After (Saved id v) (step id v a s)
  step-Saved a s k = both (step id v a s) (step-Sound id v a s k.sound) (step-Recorded a s k)
    where
      both : (o : Option (Race V)) → After (Sound id v) o → After Recorded o → After (Saved id v) o
      both none p q = tt
      both (some m) p q = record { sound = p; on_record = q }

  -- A task that has saved itself before the thread has notified gets the value, in any interleaving
  -- that has come to rest.
  pub rest-Saved :
      (acts : List Action) (s q : Race V)
      → Saved id v s
      → steps id v acts s ≡ some q
      → AtRest id v q
      → q.awaiter ≡ got (ok v)
  rest-Saved acts s q k e r =
      let last = subst (After (Saved id v)) e (steps-keep id v (Saved id v) step-Saved acts s k) in
      elim (rest_lem id v q last.sound r) [
        | inl y ↦ y
        | inr (w, j, n) ↦
            let listed =
              subst (λ x. OnRecord id v x over q.to_wake) w
                (subst (λ x. OnRecord id v q.awaiter x q.to_wake) j last.on_record) in
            absurd (ground (arith, ap (has_id id) listed, n))
      ]
