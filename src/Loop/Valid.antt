-- ===== src/Loop/Valid.antt =====
-- What holds of the event loop of include/async/loop.h between two cycles, and that the steps of a
-- cycle keep it.

use asyncxx.Base.{
  ℕ, zero, suc, ◌+◌, ◌≤◌, ◌<◌, ◌≡◌, refl, sym, ap, ◌∙◌, subst, true, List, [], ◌∷◌, ◌++◌, map,
  Option, some, arith, length, length-append, get_elem?, erase_at, Option-cases, map-append,
  append-nil, append_assoc, inl, inr,
}
use asyncxx.Api.{TaskId}
use asyncxx.Future.{Ref}
use asyncxx.StackPool.{alloc}
use asyncxx.Task.{Task, Program, default_stack_size}
use asyncxx.Loop.Types.{Config, EventLoop}
use asyncxx.Loop.Sync.{wake, wake_each, synced}
use asyncxx.Loop.Cycle.{modify_at, modify_current, new_task, add_task, advance}
use asyncxx.Loop.Names.{task_name}
use asyncxx.Loop.Tags.{Tag, tag, TagsValid, add-TagsValid}

module _ {ℓ κ} {V : Type ℓ} {U : Type κ} where
  abbrev pub tags : EventLoop V U → List Tag
  tags l = map tag (l.tasks ++ l.to_start)

  -- Every task has an id and a stack of its own, `current` is a task or just past the last, and a
  -- loop that runs has a task to run or to start.
  pub record IsValid (l : EventLoop V U) : Type 0 where
    pub tagged : TagsValid l.task_id_counter l.stacks (tags l)
    pub in_range : l.current ≤ length l.tasks
    pub alive : l.running ≡ true → 0 < length l.tasks + length l.to_start

  wake-tag :
      (id : TaskId) (ts : List (Task V U)) {us : List (Task V U)}
      → wake id ts ≡ some us
      → (map tag us ≡ map tag ts) × (length us ≡ length ts)
  unfolding wake
  wake-tag id [] e = absurd (cc)
  wake-tag id (t ∷ ts) e = elim (Option-cases (wake id ts)) [
    | inl n ↦ (ground arith, ground arith)
    | inr (vs, s) ↦
        let (same, long) = wake-tag id ts s in
        (ground (arith, same, long), ground (arith, same, long))
  ]

  pub wake_each-tag :
      (ids : List TaskId) (ts : List (Task V U)) {us : List (Task V U)}
      → wake_each ids ts ≡ some us
      → (map tag us ≡ map tag ts) × (length us ≡ length ts)
  unfolding wake_each
  wake_each-tag [] ts e = (ground arith, ground arith)
  wake_each-tag (id ∷ ids) ts {us} e = elim (Option-cases (wake id ts)) [
    | inl n ↦ absurd (ground arith)
    | inr (vs, s) ↦
        let (same, long) = wake-tag id ts s in
        let later : wake_each ids vs ≡ some us = ground arith in
        let (same', long') = wake_each-tag ids vs later in (same' ∙ same, long' ∙ long)
  ]

  -- A change of a task that keeps its id and its stack.
  pub modify_at-tag :
      (i : ℕ) (f : Task V U → Task V U) (ts : List (Task V U))
      → ((t : Task V U) → tag (f t) ≡ tag t)
      → (map tag (modify_at i f ts) ≡ map tag ts) × (length (modify_at i f ts) ≡ length ts)
  unfolding modify_at
  modify_at-tag i f [] h = (refl, refl)
  modify_at-tag zero f (t ∷ ts) h = (ap (λ a. a ∷ map tag ts) (h t), refl)
  modify_at-tag (suc i) f (t ∷ ts) h =
      let (same, long) = modify_at-tag i f ts h in (ap (λ as_. tag t ∷ as_) same, ap suc long)

  tags-append :
      (ts us rs : List (Task V U))
      → map tag us ≡ map tag ts
      → map tag (us ++ rs) ≡ map tag (ts ++ rs)
  tags-append ts us rs e =
      map-append tag us rs ∙ ap (λ as_. as_ ++ map tag rs) e ∙ sym (map-append tag ts rs)

  pub map-erase_at :
      (ts rs : List (Task V U)) (i : ℕ)
      → i < length ts
      → map tag (erase_at ts i ++ rs) ≡ erase_at (map tag (ts ++ rs)) i
  map-erase_at [] rs i h = elim h [ ]
  map-erase_at (t ∷ ts) rs zero h = refl
  map-erase_at (t ∷ ts) rs (suc i) h = ap (λ as_. tag t ∷ as_) (map-erase_at ts rs i (omega arith))

  pub get_elem?-tag :
      (ts rs : List (Task V U)) (i : ℕ) {t : Task V U}
      → get_elem? ts i ≡ some t
      → get_elem? (map tag (ts ++ rs)) i ≡ some (tag t)
  get_elem?-tag [] rs i e = absurd (cc)
  get_elem?-tag (u ∷ ts) rs zero e = ground arith
  get_elem?-tag (u ∷ ts) rs (suc i) e = get_elem?-tag ts rs i e

  -- `m`'s tasks are `l`'s, with other states or workers.
  pub retag :
      (l m : EventLoop V U)
      → IsValid l
      → m.task_id_counter ≡ l.task_id_counter
      → m.stacks ≡ l.stacks
      → tags m ≡ tags l
      → m.current ≤ length m.tasks
      → (m.running ≡ true → 0 < length m.tasks + length m.to_start)
      → IsValid m
  retag l m v c s t r a = record { tagged = rw (c, s, t) v.tagged; in_range = r; alive = a }

  pub modify_current-IsValid :
      (f : Task V U → Task V U) (l : EventLoop V U)
      → ((t : Task V U) → tag (f t) ≡ tag t)
      → IsValid l
      → IsValid (modify_current f l)
  modify_current-IsValid f l h v =
      let (same, long) = modify_at-tag l.current f l.tasks h in
      retag l (modify_current f l) v refl refl
        (tags-append l.tasks (modify_at l.current f l.tasks) l.to_start same)
        (omega (arith, v.in_range)) (λ r. omega (arith, v.alive r))

  pub synced-IsValid :
      (l : EventLoop V U) (ts : List (Task V U))
      → wake_each l.shared.heap.to_wake l.tasks ≡ some ts
      → IsValid l
      → IsValid (synced ts l) × (length (synced ts l).tasks ≡ length l.tasks + length l.to_start)
  synced-IsValid l ts s v =
      let (same, long) = wake_each-tag l.shared.heap.to_wake l.tasks s in
      let total : length (ts ++ l.to_start) ≡ length l.tasks + length l.to_start =
        omega (arith, length-append ts l.to_start) in
      (
        retag l (synced ts l) v refl refl
            (ap (map tag) (append-nil (ts ++ l.to_start)) ∙ tags-append l.tasks ts l.to_start same)
            (omega (arith, v.in_range)) (λ r. omega (arith, v.alive r)),
        total,
      )

  pub advance-IsValid :
      (l : EventLoop V U) → l.current < length l.tasks → IsValid l → IsValid (advance l)
  advance-IsValid l h v = record { tagged = v.tagged; in_range = omega arith; alive = v.alive }

  module _ (c : Config) where
    -- `addTask` leaves a valid loop, also where there was no task, and returns the id that the
    -- counter showed; the tasks that run already stay.
    pub add_task-IsValid :
        (fn : Program V U) (name : List ℕ) (future : Option Ref) (l : EventLoop V U)
        → TagsValid l.task_id_counter l.stacks (tags l)
        → l.current ≤ length l.tasks
        → let (id, m) = add_task c fn name future l in
          IsValid m × (id ≡ l.task_id_counter) × (m.current ≡ l.current) × (m.tasks ≡ l.tasks)
    unfolding add_task
    add_task-IsValid fn name future l v r =
        let (ptr, q) = alloc c.allocator default_stack_size l.stacks in
        let t : Tag = (l.task_id_counter, (ptr, default_stack_size)) in
        (
          record {
            tagged =
                subst (TagsValid (l.task_id_counter + 1) q)
                  (sym (
                    map-append tag l.tasks _
                    ∙ ap (λ as_. map tag l.tasks ++ as_) (map-append tag l.to_start _)
                    ∙ sym (append_assoc (map tag l.tasks) (map tag l.to_start) (t ∷ []))
                    ∙ ap (λ as_. as_ ++ t ∷ []) (sym (map-append tag l.tasks l.to_start))))
                  (add-TagsValid c.allocator l.task_id_counter l.stacks (tags l) v);
            in_range = r;
            alive = λ _. omega (
              arith,
              length-append l.to_start (
                  new_task l.task_id_counter fn (task_name name l.task_id_counter) future ptr ∷ []),
            );
          },
          refl,
          refl,
          refl,
        )
