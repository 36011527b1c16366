-- ===== src/Loop/Nearer.antt =====
-- Each cycle of include/async/loop.h takes a task that waits for its turn nearer to it.
use asyncxx.Base.{
  ℕ, ◌+◌, ◌-◌, ◌*◌, ◌<◌, ◌≤◌, ◌≡◌, inl, inr, refl, sym, ap, ◌∙◌, subst, Bool, true, false, ◌&&◌,
  List, ◌++◌, Option, none, some, map-append, arith, length, get_elem?, get_elem?-lt,
  get_elem?-append, erase_at, Option-cases, Bool-cases, if◌then◌else◌, ◌==◌, ◌||◌,
}
use asyncxx.Api.{TaskId}
use asyncxx.Task.{State, Task, Program}
use asyncxx.Loop.Types.{
  Config, EventLoop, Outcome, ok, raised, fault, Stop, returned, threw, crashed, suspended,
}
use asyncxx.Loop.Sync.{wake_each, synced, process_sync}
use asyncxx.Loop.Cleanup.{clean_up_task, is_main, unfinished, is_done}
use asyncxx.Loop.Cycle.{
  modify_current, exec, after_slice, finished, resume, run_task, schedule, cycle, advance,
  set_state,
}
use asyncxx.Loop.Wakeups.{ids}
use asyncxx.Loop.Slices.{
  ids-modify_at, get_elem?-modify_at, lt-get_elem?-ids, ids-erase_at, Woken, wake_each-Woken,
  ids-wake_each, Slice, modify-Slice, Slice-trans, exec-Slice,
}

module _ {ℓ κ} {V : Type ℓ} {U : Type κ} where
  abbrev has_context : Option (Program V U) → Bool
  has_context none = false
  has_context (some k) = true

  -- 0 for a task whose worker has returned, which is erased at its next turn, and 1 for another.
  abbrev pub slack : Option (Task V U) → ℕ
  slack none = 1
  slack (some t) = if is_done t.state && (if has_context t.ctx then false else true) then 0 else 1

  -- Task `x` stands at `j`, and its turn of this round is not over.
  pub record Ahead (x : TaskId) (j : ℕ) (l : EventLoop V U) : Type 0 where
    pub not_passed : l.current ≤ j
    pub there : get_elem? (ids l.tasks) j ≡ some x

  -- A bound on the cycles before the turn of the task at `j`.
  abbrev pub distance : ℕ → EventLoop V U → ℕ
  distance j l = 2 * (j - l.current) + slack (get_elem? l.tasks l.current)

  -- The task is nearer to its turn; nothing is said where the cycle threw or had no meaning.
  abbrev pub Nearer : TaskId → ℕ → Outcome (EventLoop V U) → Type 0
  Nearer x d (ok m) = (j : ℕ) × Ahead x j m × (distance j m < d)
  Nearer x d (raised e m) = Unit
  Nearer x d (fault y) = Unit

  slack-le : (o : Option (Task V U)) → slack o ≤ 1
  slack-le none = omega arith
  slack-le (some t) = ground arith

  Nearer-mono :
      (x : TaskId) (d d' : ℕ) (o : Outcome (EventLoop V U)) → d ≤ d' → Nearer x d o → Nearer x d' o
  Nearer-mono x d d' (ok m) h (j, a, lt) = (j, a, omega arith)
  Nearer-mono x d d' (raised e m) h n = tt
  Nearer-mono x d d' (fault y) h n = tt

  advance-Nearer :
      (x : TaskId) (j : ℕ) (l : EventLoop V U)
      → l.current < j
      → get_elem? (ids l.tasks) j ≡ some x
      → Nearer x (2 * (j - l.current)) (ok (advance l))
  advance-Nearer x j l h e = (
    j,
    record { not_passed = omega arith; there = e },
    omega (arith, slack-le (get_elem? l.tasks (l.current + 1))),
  )

  module _ (c : Config) where
    module _ (x : TaskId) (j : ℕ) (l : EventLoop V U) where
      -- The slice of the current task, before the turn of the task at `j`.
      abbrev Before : EventLoop V U → Type 0
      Before m = Slice l m × (m.current < j) × (get_elem? (ids l.tasks) j ≡ some x)

      finished-Nearer :
          (m : EventLoop V U) → Before m → Nearer x (2 * (j - l.current) + 1) (ok (finished m))
      finished-Nearer m (s, h, e) =
          let f = λ (t : Task V U). record t { state = State.done; ctx = none } in
          let there = ap (λ is. get_elem? is j) s.same_ids ∙ e in
          let (t, at_t) = lt-get_elem?-ids m.tasks m.current j there (omega arith) in
          (
            j,
            record {
              not_passed = omega arith;
              there =
                  ap (λ is. get_elem? is j) (ids-modify_at m.current f m.tasks (λ t. refl)) ∙ there;
            },
            omega (arith, ap slack (get_elem?-modify_at m.current f m.tasks at_t), s.same_current),
          )

      after_slice-Nearer :
          (m : EventLoop V U) (stop : Stop V U)
          → Before m
          → Nearer x (2 * (j - l.current) + 1) (after_slice c (m, stop))
      unfolding after_slice
      after_slice-Nearer m returned b = finished-Nearer m b
      after_slice-Nearer m (threw e) b = elim (Bool-cases c.continue_on_task_exc) [
        | inl y ↦ rw y (finished-Nearer m b)
        | inr n ↦ rw n tt
      ]
      after_slice-Nearer m crashed b = tt
      after_slice-Nearer m (suspended k) (s, h, e) =
          let f = λ (t : Task V U). record t { ctx = some k } in
          let m' = modify_current f m in
          let there =
            ap (λ is. get_elem? is j) (ids-modify_at m.current f m.tasks (λ t. refl) ∙ s.same_ids)
            ∙ e in
          Nearer-mono x (2 * (j - m.current)) (2 * (j - l.current) + 1) (ok (advance m'))
            (omega (arith, s.same_current)) (advance-Nearer x j m' h there)

      clean_up_task-Nearer :
          (t : Task V U)
          → l.current < j
          → get_elem? (ids l.tasks) j ≡ some x
          → Nearer x (2 * (j - l.current)) (clean_up_task t l)
      unfolding clean_up_task
      clean_up_task-Nearer t h e =
          let rest = erase_at l.tasks l.current in
          elim (Bool-cases
            (is_main t.id l.main_task_id && (unfinished l.tasks || unfinished l.to_start))) [
              | inl y ↦ rw y tt
              | inr n ↦ rw n (
                j - 1,
                record {
                  not_passed = omega arith;
                  there =
                      ids-erase_at l.tasks l.current (j - 1) (omega arith)
                        (ap (get_elem? (ids l.tasks)) (omega arith) ∙ e);
                },
                omega (arith, slack-le (get_elem? rest l.current)),
              )
            ]

    -- The current task, as it is once the cycle has woken the tasks on record, and what it was before.
    run_task-Nearer :
        (x : TaskId) (j : ℕ) (l : EventLoop V U) (t u : Task V U)
        → l.current < j
        → get_elem? (ids l.tasks) j ≡ some x
        → Woken t u
        → Nearer x (2 * (j - l.current) + slack (some t)) (run_task c u.state u l)
    unfolding run_task resume
    run_task-Nearer x j l t u h e (i, ctx, st) = go u.state refl
      where
        whole : ℕ
        whole = 2 * (j - l.current) + slack (some t)

        sliced :
            slack (some t) ≡ 1
            → (y : EventLoop V U × Stop V U) → Slice l y.0
            → Nearer x whole (after_slice c y)
        sliced one (m, stop) s =
            Nearer-mono x (2 * (j - l.current) + 1) whole (after_slice c (m, stop))
              (omega (arith, one))
              (after_slice-Nearer x j l m stop (s, omega (arith, s.same_current), e))

        resumed : (o : Option (Program V U)) → u.ctx ≡ o → Nearer x whole (resume c o u.id l)
        resumed none d = tt
        resumed (some k) d =
            let saved : t.ctx ≡ some k = sym ctx ∙ d in
            sliced (ground (arith, saved)) (exec c u.id k l) (exec-Slice c u.id k l)

        go : (s : State) → u.state ≡ s → Nearer x whole (run_task c s u l)
        go State.uninit d =
            Nearer-mono x (2 * (j - l.current)) whole (ok (advance l)) (omega arith)
              (advance-Nearer x j l h e)
        go State.wait d =
            Nearer-mono x (2 * (j - l.current)) whole (ok (advance l)) (omega arith)
              (advance-Nearer x j l h e)
        go State.done d =
            Nearer-mono x (2 * (j - l.current)) whole (clean_up_task u l) (omega arith)
              (clean_up_task-Nearer x j l u h e)
        go State.init d =
            let l' = set_state State.exec l in
            let fresh : t.state ≡ State.init = ground (arith, d, st) in
            sliced (ground (arith, fresh)) (exec c u.id u.worker l') (
              Slice-trans c
                (modify-Slice c (λ (v : Task V U). record v { state = State.exec }) l (λ t. refl))
                (exec-Slice c u.id u.worker l'))
        go State.exec d = resumed u.ctx refl

    schedule-Nearer :
        (x : TaskId) (j : ℕ) (l : EventLoop V U) (t u : Task V U)
        → l.current < j
        → get_elem? (ids l.tasks) j ≡ some x
        → get_elem? l.tasks l.current ≡ some u
        → Woken t u
        → Nearer x (2 * (j - l.current) + slack (some t)) (schedule c l)
    unfolding schedule
    schedule-Nearer x j l t u h e at_u w =
        let inside = get_elem?-lt l.tasks l.current at_u in
        let same : (if l.current == length l.tasks then 0 else l.current) ≡ l.current =
          ground (arith, inside) in
        rw (schedule, same, at_u) (run_task-Nearer x j l t u h e w)

    ids-synced :
        (us : List (Task V U)) (l : EventLoop V U) (j : ℕ) {x : TaskId}
        → ids us ≡ ids l.tasks
        → get_elem? (ids l.tasks) j ≡ some x
        → get_elem? (ids (us ++ l.to_start)) j ≡ some x
    ids-synced us l j s e =
        let here = ap (λ is. get_elem? is j) s ∙ e in
        ap (λ is. get_elem? is j) (map-append (λ (t : Task V U). t.id) us l.to_start)
        ∙ get_elem?-append (ids us) (ids l.to_start) j (get_elem?-lt (ids us) j here)
        ∙ here

    pub cycle-Nearer :
        (x : TaskId) (j : ℕ) (l : EventLoop V U)
        → l.current < j
        → Ahead x j l
        → Nearer x (distance j l) (cycle c l)
    unfolding cycle
    cycle-Nearer x j l h a = elim (Option-cases (wake_each l.shared.heap.to_wake l.tasks)) [
      | inl n ↦ rw (process_sync, n) tt
      | inr (us, found) ↦
          let same = ids-wake_each l.shared.heap.to_wake l.tasks us found in
          let (u, at_u) =
            lt-get_elem?-ids us l.current j (ap (λ is. get_elem? is j) same ∙ a.there)
              a.not_passed in
          let (t, at_t, w) =
            wake_each-Woken l.shared.heap.to_wake l.tasks us l.current found at_u in
          let here =
            get_elem?-append us l.to_start l.current (get_elem?-lt us l.current at_u) ∙ at_u in
          let nearer =
            schedule-Nearer x j (synced us l) t u h (ids-synced us l j same a.there) here w in
          rw (process_sync, found)
            (subst (λ o. Nearer x (2 * (j - l.current) + slack o) (schedule c (synced us l)))
              (sym at_t) nearer)
    ]
