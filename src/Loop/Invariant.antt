-- ===== src/Loop/Invariant.antt =====
-- Every cycle of include/async/loop.h leaves a valid loop.

use asyncxx.Base.{
  ◌+◌, ◌<◌, ◌≡◌, ◌≢◌, refl, sym, ap, ◌∙◌, subst, true, false, List, [], ◌∷◌, Option, none, some,
  arith, length, get_elem?, get_elem?-lt, lt-get_elem?, erase_at, length-erase_at, Option-cases,
  Bool-cases, inl, inr, if◌then◌else◌, ◌==◌, ◌&&◌, ◌||◌,
}
use asyncxx.Api.{TaskId}
use asyncxx.StackPool.{free}
use asyncxx.Task.{
  State, Task, Program, finish, throw, crash, act, spawn, manage, yields, waits, exits,
}
use asyncxx.Loop.Types.{
  Config, EventLoop, Outcome, ok, raised, fault, null_task, no_current_task, Stop, returned, threw,
  crashed, suspended, is_empty,
}
use asyncxx.Loop.Sync.{wake_each, synced, process_sync}
use asyncxx.Loop.Cleanup.{clean_up_task, is_main, unfinished}
use asyncxx.Loop.Cycle.{
  modify_current, add_task, exec, after_slice, finished, resume, run_task, schedule, cycle,
}
use asyncxx.Loop.Tags.{tag, TagsValid, remove-TagsValid}
use asyncxx.Loop.Valid.{
  tags, IsValid, modify_at-tag, map-erase_at, get_elem?-tag, retag, modify_current-IsValid,
  synced-IsValid, advance-IsValid, add_task-IsValid,
}

module _ {ℓ κ} {V : Type ℓ} {U : Type κ} where
  -- What a slice of a worker leaves as it was.
  record Sliced (l m : EventLoop V U) : Type 0 where
    valid : IsValid m
    same_current : m.current ≡ l.current
    same_length : length m.tasks ≡ length l.tasks

  module _ (c : Config) where
    exec-Sliced :
        (self : TaskId) (p : Program V U) (l : EventLoop V U)
        → IsValid l
        → Sliced l (exec c self p l).0
    unfolding exec
    exec-Sliced self finish l v = record { valid = v; same_current = refl; same_length = refl }
    exec-Sliced self (throw e) l v = record { valid = v; same_current = refl; same_length = refl }
    exec-Sliced self crash l v = record { valid = v; same_current = refl; same_length = refl }
    exec-Sliced self (act f k) l v =
        let l' = record l { shared = f self l.shared } in
        let s =
          exec-Sliced self (k self l.shared) l' (retag l l' v refl refl refl v.in_range v.alive) in
        record { valid = s.valid; same_current = s.same_current; same_length = s.same_length }
    exec-Sliced self (spawn name future fn k) l v =
        let (id, l') = add_task c fn name future l in
        let (valid, _, here, there) = add_task-IsValid c fn name future l v.tagged v.in_range in
        let s = exec-Sliced self (k id) l' valid in
        record {
          valid = s.valid;
          same_current = s.same_current ∙ here;
          same_length = s.same_length ∙ ap length there;
        }
    exec-Sliced self (manage r k) l v =
        let f = λ (t : Task V U). record t { result_future = some r } in
        let s =
          exec-Sliced self k (modify_current f l) (modify_current-IsValid f l (λ t. refl) v) in
        record {
          valid = s.valid;
          same_current = s.same_current;
          same_length = s.same_length ∙ (modify_at-tag l.current f l.tasks (λ t. refl)).1;
        }
    exec-Sliced self (yields k) l v = record { valid = v; same_current = refl; same_length = refl }
    exec-Sliced self (waits k) l v = record {
      valid = modify_current-IsValid (λ t. record t { state = State.wait }) l (λ t. refl) v;
      same_current = refl;
      same_length =
          (modify_at-tag l.current (λ t. record t { state = State.wait }) l.tasks (λ t. refl)).1;
    }
    exec-Sliced self (exits k) l v = record {
      valid = modify_current-IsValid (λ t. record t { state = State.done }) l (λ t. refl) v;
      same_current = refl;
      same_length =
          (modify_at-tag l.current (λ t. record t { state = State.done }) l.tasks (λ t. refl)).1;
    }

    -- A property of the state that a cycle leaves, with or without an exception; where a cycle has
    -- undefined behaviour, it is not an access past the end of the list of tasks.
    abbrev pub Leaves : (EventLoop V U → Type 0) → Outcome (EventLoop V U) → Type 0
    Leaves P (ok m) = P m
    Leaves P (raised e m) = P m
    Leaves P (fault x) = x ≢ no_current_task

    finished-IsValid : (l : EventLoop V U) → IsValid l → IsValid (finished l)
    finished-IsValid l v =
        modify_current-IsValid (λ t. record t { state = State.done; ctx = none }) l (λ t. refl) v

    after_slice-IsValid :
        (l : EventLoop V U) (stop : Stop V U)
        → IsValid l
        → l.current < length l.tasks
        → Leaves IsValid (after_slice c (l, stop))
    unfolding after_slice
    after_slice-IsValid l returned v h = finished-IsValid l v
    after_slice-IsValid l (threw e) v h = elim (Bool-cases c.continue_on_task_exc) [
      | inl y ↦ rw y (finished-IsValid l v)
      | inr n ↦ rw n (finished-IsValid l v)
    ]
    after_slice-IsValid l crashed v h = λ e. cc
    after_slice-IsValid l (suspended k) v h =
        let f = λ (t : Task V U). record t { ctx = some k } in
        let w = modify_current-IsValid f l (λ t. refl) v in
        record {
          tagged = w.tagged;
          in_range = omega (arith, (modify_at-tag l.current f l.tasks (λ t. refl)).1);
          alive = w.alive;
        }

    clean_up_task-IsValid :
        (t : Task V U) (l : EventLoop V U)
        → get_elem? l.tasks l.current ≡ some t
        → IsValid l
        → Leaves IsValid (clean_up_task t l)
    unfolding clean_up_task
    clean_up_task-IsValid t l e v =
        elim (Bool-cases
          (is_main t.id l.main_task_id && (unfinished l.tasks || unfinished l.to_start))) [
            | inl y ↦ rw y v
            | inr n ↦ rw n (record {
              tagged =
                  subst (TagsValid l.task_id_counter (free t.stack.0 l.stacks))
                    (sym (
                      map-erase_at l.tasks l.to_start l.current (get_elem?-lt l.tasks l.current e)))
                    (remove-TagsValid l.task_id_counter l.stacks (tags l) l.current (tag t)
                      (get_elem?-tag l.tasks l.to_start l.current e) v.tagged);
              in_range = omega (
                arith,
                get_elem?-lt l.tasks l.current e,
                length-erase_at l.tasks l.current (get_elem?-lt l.tasks l.current e),
              );
              alive = alive_after (erase_at l.tasks l.current);
            })
          ]
      where
        alive_after :
            (rest : List (Task V U))
            → (if is_empty rest then false else l.running) ≡ true
            → 0 < length rest + length l.to_start
        alive_after [] r = absurd (cc)
        alive_after (u ∷ rest) r = omega arith

    resume-IsValid :
        (o : Option (Program V U)) (id : TaskId) (l : EventLoop V U)
        → l.current < length l.tasks
        → IsValid l
        → Leaves IsValid (resume c o id l)
    unfolding resume
    resume-IsValid none id l h v = λ e. cc
    resume-IsValid (some k) id l h v =
        let s = exec-Sliced id k l v in
        after_slice-IsValid (exec c id k l).0 (exec c id k l).1 s.valid
          (omega (arith, s.same_current, s.same_length))

    run_task-IsValid :
        (s : State) (t : Task V U) (l : EventLoop V U)
        → get_elem? l.tasks l.current ≡ some t
        → IsValid l
        → Leaves IsValid (run_task c s t l)
    unfolding run_task
    run_task-IsValid State.uninit t l e v = advance-IsValid l (get_elem?-lt l.tasks l.current e) v
    run_task-IsValid State.init t l e v =
        let f = λ (t : Task V U). record t { state = State.exec } in
        let l' = modify_current f l in
        let s = exec-Sliced t.id t.worker l' (modify_current-IsValid f l (λ t. refl) v) in
        after_slice-IsValid (exec c t.id t.worker l').0 (exec c t.id t.worker l').1 s.valid (
          omega (
            arith,
            get_elem?-lt l.tasks l.current e,
            s.same_current,
            s.same_length,
            (modify_at-tag l.current f l.tasks (λ t. refl)).1,
          ))
    run_task-IsValid State.exec t l e v =
        resume-IsValid t.ctx t.id l (get_elem?-lt l.tasks l.current e) v
    run_task-IsValid State.wait t l e v = advance-IsValid l (get_elem?-lt l.tasks l.current e) v
    run_task-IsValid State.done t l e v = clean_up_task-IsValid t l e v

    schedule-IsValid :
        (l : EventLoop V U) → IsValid l → 0 < length l.tasks → Leaves IsValid (schedule c l)
    unfolding schedule
    schedule-IsValid l v h =
        let i = if l.current == length l.tasks then 0 else l.current in
        let lt : i < length l.tasks = ground (arith, v.in_range) in
        let (t, e) = lt-get_elem? l.tasks i lt in
        rw e (
          run_task-IsValid t.state t (record l { current = i }) e
            (record { tagged = v.tagged; in_range = omega arith; alive = v.alive }))

    -- A cycle of a valid loop that runs leaves a valid loop, whatever the tasks do, also when it ends by
    -- an exception; and it never reads past the end of the list of tasks. Of a cycle that faults otherwise,
    -- at a null task or a stale jump, nothing more is said.
    pub cycle-IsValid :
        (l : EventLoop V U) → IsValid l → l.running ≡ true → Leaves IsValid (cycle c l)
    unfolding cycle
    cycle-IsValid l v r = elim (Option-cases (wake_each l.shared.heap.to_wake l.tasks)) [
      | inl n ↦ rw (n, process_sync) (λ (e : null_task ≡ no_current_task). cc)
      | inr (ts, s) ↦
          let (w, long) = synced-IsValid l ts s v in
          rw (s, process_sync) (schedule-IsValid (synced ts l) w (omega (arith, v.alive r)))
    ]
