-- ===== src/Event/Laws.antt =====
-- include/async/event.h over any history of `wait`, `notifyOne` and `notifyAll`.
use asyncxx.Base.{
  ℕ, zero, suc, ◌+◌, ◌≡◌, ◌∙◌, ◌⊎◌, inl, inr, refl, sym, ap, ap₂, true, false, List, [], ◌∷◌, ◌++◌,
  arith, length, length-append, append-nil, append_assoc,
}
use asyncxx.Api.{TaskId, Notifier}
use asyncxx.Api.Laws.{woken-notify_each}
use asyncxx.Event.{Event, save_waiter, notify_one, notify_all}

-- `waits t` is task `t` putting itself in line, by `wait()`.
pub data Call : Type 0 where
  waits : TaskId → Call
  one : Call
  all : Call

-- The tasks that get in line, in the order of their calls.
abbrev pub waiting : List Call → List TaskId
waiting [] = []
waiting (waits t ∷ cs) = t ∷ waiting cs
waiting (one ∷ cs) = waiting cs
waiting (all ∷ cs) = waiting cs

-- How many tasks the calls should wake with `k` tasks in line: `one` wakes one of them if there is
-- any, and `all` wakes them all.
abbrev pub wake_count : List Call → ℕ → ℕ
wake_count [] k = 0
wake_count (waits t ∷ cs) k = wake_count cs (suc k)
wake_count (one ∷ cs) zero = wake_count cs zero
wake_count (one ∷ cs) (suc k) = suc (wake_count cs k)
wake_count (all ∷ cs) k = k + wake_count cs 0

waiting-cons : (c : Call) (cs : List Call) → waiting (c ∷ []) ++ waiting cs ≡ waiting (c ∷ cs)
waiting-cons (waits t) cs = refl
waiting-cons one cs = refl
waiting-cons all cs = refl

module _ {ℓ} {L : Type ℓ} (n : Notifier L) where
  pub step : Call → Event → L → Event × L
  step (waits t) ev l = (save_waiter t ev, l)
  step one ev l = let (done, ev', l') = notify_one n ev l in (ev', l')
  step all ev l = notify_all n ev l

  pub run : List Call → Event → L → Event × L
  run [] ev l = (ev, l)
  run (c ∷ cs) ev l = let (ev', l') = step c ev l in run cs ev' l'

  -- `notifyOne` wakes the first task in line and says so, or finds nobody and changes nothing.
  pub notify_one_lem :
      (ev : Event) (l : L)
      → let (done, ev', l') = notify_one n ev l in
        ((ev.list ≡ []) × (done ≡ false) × (ev'.list ≡ []) × (n.woken l' ≡ n.woken l))
        ⊎ ((t : TaskId) × (done ≡ true)
            × (ev.list ≡ t ∷ ev'.list)
            × (n.woken l' ≡ n.woken l ++ t ∷ []))
  unfolding notify_one
  notify_one_lem ev l = go ev.list refl
    where
      go :
          (ts : List TaskId)
          → ev.list ≡ ts
          → let (done, ev', l') = notify_one n ev l in
            ((ev.list ≡ []) × (done ≡ false) × (ev'.list ≡ []) × (n.woken l' ≡ n.woken l))
            ⊎ ((t : TaskId) × (done ≡ true)
                × (ev.list ≡ t ∷ ev'.list)
                × (n.woken l' ≡ n.woken l ++ t ∷ []))
      go [] e = inl (ground arith)
      go (t ∷ ts) e = inr (t, ground arith, ground arith, ground (arith, n.woken-notify t l))

  -- What one call does to the tasks woken so far followed by those in line, and how many it wakes.
  step-line :
      (c : Call) (cs : List Call) (ev : Event) (l : L)
      → let (ev', l') = step c ev l in
        (n.woken l' ++ ev'.list ≡ (n.woken l ++ ev.list) ++ waiting (c ∷ []))
        × (length (n.woken l') + wake_count cs (length ev'.list)
            ≡ length (n.woken l) + wake_count (c ∷ cs) (length ev.list))
  unfolding step save_waiter notify_all
  step-line (waits t) cs ev l = (
    sym (append_assoc (n.woken l) ev.list (t ∷ [])),
    omega (arith, ap (wake_count cs) (grown t ev.list)),
  )
    where
      grown : (t : TaskId) (ts : List TaskId) → length (ts ++ t ∷ []) ≡ suc (length ts)
      grown t ts = omega (arith, length-append ts (t ∷ []))
  step-line one cs ev l = elim (notify_one_lem ev l) [
    | inl (e, _, e', w) ↦ (
      ap₂ ◌++◌ w e' ∙ ap (λ ts. n.woken l ++ ts) (sym e) ∙ sym (append-nil _),
      omega (
        arith,
        ap length w,
        ap (λ ts. wake_count (one ∷ cs) (length ts)) e,
        ap (λ ts. wake_count cs (length ts)) e',
      ),
    )
    | inr (t, _, e, w) ↦
        let ev' = (notify_one n ev l).1 in
        (
          ap (λ ws. ws ++ ev'.list) w
              ∙ append_assoc (n.woken l) (t ∷ []) ev'.list
              ∙ ap (λ ts. n.woken l ++ ts) (sym e)
              ∙ sym (append-nil _),
          omega (
            arith,
            ap length w,
            length-append (n.woken l) (t ∷ []),
            ap (λ ts. wake_count (one ∷ cs) (length ts)) e,
          ),
        )
  ]
  step-line all cs ev l = (
    append-nil _ ∙ woken-notify_each n ev.list l ∙ sym (append-nil _),
    omega (arith, ap length (woken-notify_each n ev.list l), length-append (n.woken l) ev.list),
  )

  -- After any history, the tasks woken and then those still in line are the tasks that were woken or
  -- in line before followed by those that got in line since, in that order: none is lost, none is
  -- woken twice, and none overtakes. As many are woken as the calls should wake.
  pub run_in_line :
      (cs : List Call) (ev : Event) (l : L)
      → let (ev', l') = run cs ev l in
        (n.woken l' ++ ev'.list ≡ (n.woken l ++ ev.list) ++ waiting cs)
        × (length (n.woken l') ≡ length (n.woken l) + wake_count cs (length ev.list))
  unfolding run
  run_in_line [] ev l = (sym (append-nil _), omega arith)
  run_in_line (c ∷ cs) ev l =
      let (ev', l') = step c ev l in
      let (kept, counted) = run_in_line cs ev' l' in
      let (line, woken) = step-line c cs ev l in
      (
        kept
            ∙ ap (λ ts. ts ++ waiting cs) line
            ∙ append_assoc (n.woken l ++ ev.list) (waiting (c ∷ [])) (waiting cs)
            ∙ ap (λ ts. (n.woken l ++ ev.list) ++ ts) (waiting-cons c cs),
        omega arith,
      )
