-- ===== src/Async/Threads/Order.antt =====
-- An awaited `to_thread` of include/async/async.h: which order of the threads' steps loses the
-- notification.
use asyncxx.Base.{
  ◌≡◌, ◌⊎◌, inl, inr, ap, ◌∙◌, subst, Bool, true, false, List, [], ◌∷◌, Option, none, some, After,
  Bool-cases,
}
use asyncxx.Api.{TaskId, ok}
use asyncxx.Future.{is_completed}
use asyncxx.Async.Threads.{
  Awaiter, to_check, to_save, to_suspend, asleep, got, Job, computing, stored, over, Race, Action,
  look, save, suspend, resume, store, notify, look_from, save_from, suspend_from, resume_from,
  store_from, step, steps, steps_from, begin,
}
use asyncxx.Async.Threads.Races.{OnRecord, Sound, step-Sound, steps-keep}
use asyncxx.Async.Threads.Ends.{AtRest, Lost, rest_lem, begin-Sound}
use asyncxx.Async.Threads.Saved.{rest-Saved}

-- The thread notifies before the task saves itself.
abbrev pub notify_first : List Action → Bool
notify_first [] = false
notify_first (notify ∷ acts) = true
notify_first (save ∷ acts) = false
notify_first (_ ∷ acts) = notify_first acts

module _ {ℓ} {V : Type ℓ} (id : TaskId) (v : V) where
  -- The task is not saved yet.
  abbrev Early : Awaiter V → Type 0
  Early to_check = Unit
  Early to_save = Unit
  Early _ = ⊥

  -- The thread has not notified yet.
  abbrev Unheard : Job → Type 0
  Unheard over = ⊥
  Unheard _ = Unit

  abbrev Recorded : Race V → Type 0
  Recorded s = OnRecord id v s.awaiter s.job s.to_wake

  abbrev Next : Race V → Type 0
  Next s = Recorded s ⊎ (Early s.awaiter × Unheard s.job)

  look-Next : (w : Awaiter V) (s : Race V) → Early w → Unheard s.job → After Next (look_from w s)
  unfolding look_from
  look-Next to_check s e u = elim (Bool-cases (is_completed s.future)) [
    | inl y ↦ rw y (inl tt)
    | inr n ↦ rw n (inr (tt, u))
  ]
  look-Next to_save s e u = tt
  look-Next to_suspend s e u = absurd e
  look-Next asleep s e u = absurd e
  look-Next (got r) s e u = absurd e

  unheard : (j : Job) (ws : List TaskId) → Unheard j → OnRecord id v to_suspend j ws
  unheard computing ws u = tt
  unheard stored ws u = tt
  unheard over ws u = absurd u

  save-Next :
      (w : Awaiter V) (s : Race V) → Early w → Unheard s.job → After Recorded (save_from id w s)
  unfolding save_from
  save-Next to_check s e u = tt
  save-Next to_save s e u = unheard s.job s.to_wake u
  save-Next to_suspend s e u = absurd e
  save-Next asleep s e u = absurd e
  save-Next (got r) s e u = absurd e

  suspend-Next : (w : Awaiter V) (s : Race V) → Early w → After Recorded (suspend_from w s)
  unfolding suspend_from
  suspend-Next to_check s e = tt
  suspend-Next to_save s e = tt
  suspend-Next to_suspend s e = absurd e
  suspend-Next asleep s e = absurd e
  suspend-Next (got r) s e = absurd e

  resume-Next : (w : Awaiter V) (s : Race V) → Early w → After Recorded (resume_from id w s)
  unfolding resume_from
  resume-Next to_check s e = tt
  resume-Next to_save s e = tt
  resume-Next to_suspend s e = absurd e
  resume-Next asleep s e = absurd e
  resume-Next (got r) s e = absurd e

  store-Next : (j : Job) (s : Race V) → Early s.awaiter → Unheard j → After Next (store_from v j s)
  unfolding store_from
  store-Next computing s e u = inr (e, tt)
  store-Next stored s e u = tt
  store-Next over s e u = absurd u

  abbrev Delivered : Race V → Type ℓ
  Delivered q = q.awaiter ≡ got (ok v)

  -- What follows a step, where the task is saved behind it.
  past_save :
      (acts : List Action) (o : Option (Race V)) (q : Race V)
      → After (Sound id v) o
      → After Recorded o
      → steps_from id v (steps id v acts) o ≡ some q
      → AtRest id v q
      → Delivered q
  past_save acts none q k x h r = absurd (cc)
  past_save acts (some m) q k x h r =
      rest-Saved id v acts m q (record { sound = k; on_record = x }) h r

  onward :
      (acts : List Action) (o : Option (Race V)) (q : Race V)
      → After (Sound id v) o
      → After Next o
      → ((m : Race V)
          → Sound id v m
          → Early m.awaiter
          → Unheard m.job
          → steps id v acts m ≡ some q
          → Delivered q)
      → steps_from id v (steps id v acts) o ≡ some q
      → AtRest id v q
      → Delivered q
  onward acts none q k x go h r = absurd (cc)
  onward acts (some m) q k (inl x) go h r =
      rest-Saved id v acts m q (record { sound = k; on_record = x }) h r
  onward acts (some m) q k (inr (e, u)) go h r = go m k e u h

  -- Where the notification does not come before the save, the task gets the value.
  order :
      (acts : List Action) (s q : Race V)
      → notify_first acts ≡ false
      → Sound id v s
      → Early s.awaiter
      → Unheard s.job
      → steps id v acts s ≡ some q
      → AtRest id v q
      → Delivered q
  unfolding steps step
  order [] s q n k e u h r =
      let same : s ≡ q = cc in
      elim (rest_lem id v q (subst (Sound id v) same k) r) [
        | inl y ↦ y
        | inr (w, j, l) ↦ absurd (subst Unheard (ap (λ x. x.job) same ∙ j) u)
      ]
  order (look ∷ acts) s q n k e u h r =
      onward acts (step id v look s) q (step-Sound id v look s k) (look-Next s.awaiter s e u)
        (λ m k' e' u' h'. order acts m q n k' e' u' h' r) h r
  order (save ∷ acts) s q n k e u h r =
      past_save acts (step id v save s) q (step-Sound id v save s k) (save-Next s.awaiter s e u) h r
  order (suspend ∷ acts) s q n k e u h r =
      past_save acts (step id v suspend s) q (step-Sound id v suspend s k)
        (suspend-Next s.awaiter s e) h r
  order (resume ∷ acts) s q n k e u h r =
      past_save acts (step id v resume s) q (step-Sound id v resume s k) (resume-Next s.awaiter s e)
        h r
  order (store ∷ acts) s q n k e u h r =
      onward acts (step id v store s) q (step-Sound id v store s k) (store-Next s.job s e u)
        (λ m k' e' u' h'. order acts m q n k' e' u' h' r) h r
  order (notify ∷ acts) s q n k e u h r = absurd (cc)

  -- Awaiting what `to_thread` gives, in any interleaving of the two threads that has come to rest: the
  -- task has got the value that the thread computed, or the thread notified before the task saved itself,
  -- and the task sleeps with no notification on its way.
  pub to_thread_lem :
      (init : V) (acts : List Action) (s : Race V)
      → steps id v acts (begin init) ≡ some s
      → AtRest id v s
      → (s.awaiter ≡ got (ok v)) ⊎ (Lost id v s × (notify_first acts ≡ true))
  unfolding begin
  to_thread_lem init acts s h r = elim (Bool-cases (notify_first acts)) [
    | inr n ↦ inl (order acts (begin init) s n (begin-Sound id v init) tt tt h r)
    | inl y ↦
        elim (rest_lem id v s
          (subst (After (Sound id v)) h (
            steps-keep id v (Sound id v) (step-Sound id v) acts (begin init)
              (begin-Sound id v init)))
          r) [ inl x ↦ inl x | inr l ↦ inr (l, y) ]
  ]
