-- ===== src/Loop/Wakeups.antt =====
-- `processSync` of include/async/loop.h: which tasks a cycle wakes and starts.
use asyncxx.Base.{
  ◌≡◌, ◌≢◌, inl, inr, refl, sym, ap, subst, ◌&&◌, Bool, true, false, ◌||◌, List, [], ◌∷◌, ◌++◌, map,
  none, some, arith, All, if◌then◌else◌, ◌==◌, Bool-cases,
}
use asyncxx.Api.{TaskId}
use asyncxx.Task.{State, Task}
use asyncxx.Loop.Types.{EventLoop, ok, fault, null_task}
use asyncxx.Loop.Sync.{wake, wake_each, process_sync}

abbrev pub has_id : TaskId → List TaskId → Bool
has_id id [] = false
has_id id (i ∷ is) = (i == id) || has_id id is

abbrev pub all_known : List TaskId → List TaskId → Bool
all_known [] known = true
all_known (i ∷ is) known = has_id i known && all_known is known

module _ {ℓ κ} {V : Type ℓ} {U : Type κ} where
  abbrev pub ids : List (Task V U) → List TaskId
  ids = map λ t. t.id

  -- No two tasks have one id.
  abbrev pub UniqueIds : List (Task V U) → Type 0
  UniqueIds [] = Unit
  UniqueIds (t ∷ ts) = All (λ u. u.id ≢ t.id) ts × UniqueIds ts

  -- The task as it is once the ids of a list were woken.
  abbrev pub awake : List TaskId → Task V U → Task V U
  awake is t = if has_id t.id is then record t { state = State.exec } else t

  asleep :
      (id : TaskId) (ts : List (Task V U)) → All (λ u. u.id ≢ id) ts → map (awake (id ∷ [])) ts ≡ ts
  asleep id [] u = refl
  asleep id (t ∷ ts) u = ground (arith, asleep id ts u.1, u.0)

  wake-map :
      (id : TaskId) (ts : List (Task V U))
      → UniqueIds ts
      → wake id ts ≡ (if has_id id (ids ts) then some (map (awake (id ∷ [])) ts) else none)
  unfolding wake
  wake-map id [] u = refl
  wake-map id (t ∷ ts) u = elim (Bool-cases (t.id == id)) [
    | inl e ↦
        let rest = asleep t.id ts u.0 in
        let here : t.id ≡ id = ground arith in
        ground (arith, subst (λ i. map (awake (i ∷ [])) ts ≡ ts) here rest)
    | inr n ↦ ground (arith, wake-map id ts u.1)
  ]

  ids-awake : (is : List TaskId) (ts : List (Task V U)) → ids (map (awake is) ts) ≡ ids ts
  ids-awake is [] = refl
  ids-awake is (t ∷ ts) = ground (arith, ids-awake is ts)

  awake-Unique :
      (is : List TaskId) (ts : List (Task V U)) → UniqueIds ts → UniqueIds (map (awake is) ts)
  awake-Unique is [] u = tt
  awake-Unique is (t ∷ ts) u = (keep t ts u.0, awake-Unique is ts u.1)
    where
      keep :
          (t : Task V U) (us : List (Task V U))
          → All (λ u. u.id ≢ t.id) us
          → All (λ u. u.id ≢ (awake is t).id) (map (awake is) us)
      keep t [] h = tt
      keep t (u ∷ us) h = (ground (arith, h.0), keep t us h.1)

  awake-awake :
      (id : TaskId) (is : List TaskId) (ts : List (Task V U))
      → map (awake is) (map (awake (id ∷ [])) ts) ≡ map (awake (id ∷ is)) ts
  awake-awake id is [] = refl
  awake-awake id is (t ∷ ts) = ground (arith, awake-awake id is ts)

  wake_each-map :
      (is : List TaskId) (ts : List (Task V U))
      → UniqueIds ts
      → wake_each is ts ≡ (if all_known is (ids ts) then some (map (awake is) ts) else none)
  unfolding wake_each
  wake_each-map [] ts u = ap some (sym (untouched ts))
    where
      untouched : (us : List (Task V U)) → map (awake []) us ≡ us
      untouched [] = refl
      untouched (t ∷ us) = ap (λ vs. t ∷ vs) (untouched us)
  wake_each-map (id ∷ is) ts u =
      let us = map (awake (id ∷ [])) ts in
      let rest = wake_each-map is us (awake-Unique (id ∷ []) ts u) in
      ground (arith, wake-map id ts u, rest, ids-awake (id ∷ []) ts, awake-awake id is ts)

  -- With distinct task ids: where every id to wake is a task's, the tasks to wake become `EXEC`
  -- whatever they were, all others stay as they are, the new tasks follow in order, nothing is left to
  -- wake or to start, and the rest of the loop is as before; where some id is no task's, a null pointer
  -- is dereferenced.
  pub process_sync_lem :
      (l : EventLoop V U)
      → UniqueIds l.tasks
      → process_sync l ≡ (
          if all_known l.shared.heap.to_wake (ids l.tasks)
          then ok (record {
            running = l.running;
            tasks = map (awake l.shared.heap.to_wake) l.tasks ++ l.to_start;
            current = l.current;
            task_id_counter = l.task_id_counter;
            main_task_id = l.main_task_id;
            to_start = [];
            shared = record {
              heap = record { futures = l.shared.heap.futures; to_wake = [] };
              user = l.shared.user;
            };
            stacks = l.stacks;
          })
          else fault null_task)
  unfolding process_sync
  process_sync_lem l u = ground (arith, wake_each-map l.shared.heap.to_wake l.tasks u)
