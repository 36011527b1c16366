-- ===== src/Loop/Slices.antt =====
-- What waking the tasks on record and running a slice of a worker leave as they were, of the list of
-- tasks of include/async/loop.h.
use asyncxx.Base.{
  ℕ, zero, suc, ◌<◌, ◌≤◌, ◌≡◌, ◌⊎◌, inl, inr, refl, sym, ap, ◌∙◌, subst, List, [], ◌∷◌, some, arith,
  get_elem?, erase_at, Option-cases, Bool-cases, ◌==◌,
}
use mathlib.Core.Option.{some-injective}
use asyncxx.Api.{TaskId}
use asyncxx.Task.{
  State, Task, Program, finish, throw, crash, act, spawn, manage, yields, waits, exits,
}
use asyncxx.Loop.Types.{Config, EventLoop}
use asyncxx.Loop.Sync.{wake, wake_each}
use asyncxx.Loop.Cycle.{modify_at, modify_current, add_task, exec}
use asyncxx.Loop.Wakeups.{ids}

module _ {ℓ κ} {V : Type ℓ} {U : Type κ} where
  pub ids-modify_at :
      (i : ℕ) (f : Task V U → Task V U) (ts : List (Task V U))
      → ((t : Task V U) → (f t).id ≡ t.id)
      → ids (modify_at i f ts) ≡ ids ts
  unfolding modify_at
  ids-modify_at i f [] h = refl
  ids-modify_at zero f (t ∷ ts) h = ap (λ i. i ∷ ids ts) (h t)
  ids-modify_at (suc i) f (t ∷ ts) h = ap (λ is. t.id ∷ is) (ids-modify_at i f ts h)

  pub get_elem?-modify_at :
      (i : ℕ) (f : Task V U → Task V U) (ts : List (Task V U)) {t : Task V U}
      → get_elem? ts i ≡ some t
      → get_elem? (modify_at i f ts) i ≡ some (f t)
  unfolding modify_at
  get_elem?-modify_at i f [] e = absurd (cc)
  get_elem?-modify_at zero f (t ∷ ts) e = ground (arith, e)
  get_elem?-modify_at (suc i) f (t ∷ ts) e = get_elem?-modify_at i f ts e

  pub get_elem?-ids :
      (ts : List (Task V U)) (i : ℕ) {x : TaskId}
      → get_elem? (ids ts) i ≡ some x
      → (t : Task V U) × (get_elem? ts i ≡ some t) × (t.id ≡ x)
  get_elem?-ids [] i e = absurd (cc)
  get_elem?-ids (t ∷ ts) zero e = (t, refl, ground (arith, e))
  get_elem?-ids (t ∷ ts) (suc i) e = get_elem?-ids ts i e

  pub lt-get_elem?-ids :
      (ts : List (Task V U)) (i j : ℕ) {x : TaskId}
      → get_elem? (ids ts) j ≡ some x
      → i ≤ j
      → (t : Task V U) × (get_elem? ts i ≡ some t)
  lt-get_elem?-ids [] i j e h = absurd (cc)
  lt-get_elem?-ids (t ∷ ts) zero j e h = (t, refl)
  lt-get_elem?-ids (t ∷ ts) (suc i) zero e h = absurd (omega arith)
  lt-get_elem?-ids (t ∷ ts) (suc i) (suc j) e h = lt-get_elem?-ids ts i j e (omega arith)

  pub ids-erase_at :
      (ts : List (Task V U)) (i j : ℕ) {x : TaskId}
      → i < suc j
      → get_elem? (ids ts) (suc j) ≡ some x
      → get_elem? (ids (erase_at ts i)) j ≡ some x
  ids-erase_at [] i j h e = absurd (cc)
  ids-erase_at (t ∷ ts) zero j h e = e
  ids-erase_at (t ∷ ts) (suc i) zero h e = absurd (omega arith)
  ids-erase_at (t ∷ ts) (suc i) (suc j) h e = ids-erase_at ts i j (omega arith) e

  -- What a wake-up leaves of a task: its id and its context, and its state unless it is `EXEC` now.
  abbrev pub Woken : Task V U → Task V U → Type (ℓ ⊔ κ)
  Woken t u = (u.id ≡ t.id) × (u.ctx ≡ t.ctx) × ((u.state ≡ t.state) ⊎ (u.state ≡ State.exec))

  pub untouched : (t : Task V U) → Woken t t
  untouched t = (refl, refl, inl refl)

  pub head-Woken :
      (t v : Task V U) (ts : List (Task V U)) (i : ℕ) {u : Task V U}
      → Woken t v
      → get_elem? (v ∷ ts) i ≡ some u
      → (t' : Task V U) × (get_elem? (t ∷ ts) i ≡ some t') × Woken t' u
  head-Woken t v ts zero w e = (t, refl, subst (Woken t) (some-injective _ _ e) w)
  head-Woken t v ts (suc i) {u} w e = (u, e, untouched u)

  pub tail-Woken :
      (t : Task V U) (ts vs : List (Task V U)) (i : ℕ) {u : Task V U}
      → ((j : ℕ)
          → get_elem? vs j ≡ some u
          → (t' : Task V U) × (get_elem? ts j ≡ some t') × Woken t' u)
      → get_elem? (t ∷ vs) i ≡ some u
      → (t' : Task V U) × (get_elem? (t ∷ ts) i ≡ some t') × Woken t' u
  tail-Woken t ts vs zero {u} h e = (u, e, untouched u)
  tail-Woken t ts vs (suc i) h e = h i e

  pub wake-Woken :
      (id : TaskId) (ts us : List (Task V U)) (i : ℕ) {u : Task V U}
      → wake id ts ≡ some us
      → get_elem? us i ≡ some u
      → (t : Task V U) × (get_elem? ts i ≡ some t) × Woken t u
  unfolding wake
  wake-Woken id [] us i w e = absurd (cc)
  wake-Woken id (t ∷ ts) us i {u} w e = elim (Bool-cases (t.id == id)) [
    | inl y ↦
        let v = record t { state = State.exec } in
        let s : us ≡ v ∷ ts = ground (arith, w, y) in
        head-Woken t v ts i (refl, refl, inr refl) (subst (λ xs. get_elem? xs i ≡ some u) s e)
    | inr n ↦ elim (Option-cases (wake id ts)) [
      | inl none_left ↦ absurd (ground (arith, w, n, none_left))
      | inr (vs, found) ↦
          let s : us ≡ t ∷ vs = ground (arith, w, n, found) in
          tail-Woken t ts vs i (λ j f. wake-Woken id ts vs j found f)
            (subst (λ xs. get_elem? xs i ≡ some u) s e)
    ]
  ]

  pub Woken-trans : (t u v : Task V U) → Woken t u → Woken u v → Woken t v
  Woken-trans t u v (i, c, s) (i', c', s') = (
    i' ∙ i,
    c' ∙ c,
    elim s' [ inr x ↦ inr x | inl e ↦ elim s [ inl e' ↦ inl (e ∙ e') | inr e' ↦ inr (e ∙ e') ] ],
  )

  pub wake_each-Woken :
      (is : List TaskId) (ts us : List (Task V U)) (i : ℕ) {u : Task V U}
      → wake_each is ts ≡ some us
      → get_elem? us i ≡ some u
      → (t : Task V U) × (get_elem? ts i ≡ some t) × Woken t u
  unfolding wake_each
  wake_each-Woken [] ts us i {u} w e =
      (u, ap (λ xs. get_elem? xs i) (some-injective _ _ w) ∙ e, untouched u)
  wake_each-Woken (id ∷ is) ts us i {u} w e = elim (Option-cases (wake id ts)) [
    | inl none_left ↦ absurd (ground (arith, w, none_left))
    | inr (vs, found) ↦
        let later : wake_each is vs ≡ some us = ground (arith, w, found) in
        let (v, at_v, up) = wake_each-Woken is vs us i later e in
        let (t, at_t, low) = wake-Woken id ts vs i found at_v in (t, at_t, Woken-trans t v u low up)
  ]

  pub ids-wake : (id : TaskId) (ts us : List (Task V U)) → wake id ts ≡ some us → ids us ≡ ids ts
  unfolding wake
  ids-wake id [] us w = absurd (cc)
  ids-wake id (t ∷ ts) us w = elim (Option-cases (wake id ts)) [
    | inl n ↦ ground (arith, w, n)
    | inr (vs, found) ↦ ground (arith, w, found, ids-wake id ts vs found)
  ]

  pub ids-wake_each :
      (is : List TaskId) (ts us : List (Task V U)) → wake_each is ts ≡ some us → ids us ≡ ids ts
  unfolding wake_each
  ids-wake_each [] ts us w = ap ids (sym (some-injective _ _ w))
  ids-wake_each (id ∷ is) ts us w = elim (Option-cases (wake id ts)) [
    | inl n ↦ absurd (ground (arith, w, n))
    | inr (vs, found) ↦
        let later : wake_each is vs ≡ some us = ground (arith, w, found) in
        ids-wake_each is vs us later ∙ ids-wake id ts vs found
  ]

  -- What a slice of a worker leaves as it was.
  pub record Slice (l m : EventLoop V U) : Type 0 where
    pub same_current : m.current ≡ l.current
    pub same_ids : ids m.tasks ≡ ids l.tasks

  module _ (c : Config) where
    pub modify-Slice :
        (f : Task V U → Task V U) (l : EventLoop V U)
        → ((t : Task V U) → (f t).id ≡ t.id)
        → Slice l (modify_current f l)
    modify-Slice f l h = record {
      same_current = refl;
      same_ids = ids-modify_at l.current f l.tasks h;
    }

    pub Slice-trans : {l m n : EventLoop V U} → Slice l m → Slice m n → Slice l n
    Slice-trans a b = record {
      same_current = b.same_current ∙ a.same_current;
      same_ids = b.same_ids ∙ a.same_ids;
    }

    pub exec-Slice :
        (self : TaskId) (p : Program V U) (l : EventLoop V U) → Slice l (exec c self p l).0
    unfolding exec add_task
    exec-Slice self finish l = record { same_current = refl; same_ids = refl }
    exec-Slice self (throw e) l = record { same_current = refl; same_ids = refl }
    exec-Slice self crash l = record { same_current = refl; same_ids = refl }
    exec-Slice self (act f k) l =
        let s = exec-Slice self (k self l.shared) (record l { shared = f self l.shared }) in
        record { same_current = s.same_current; same_ids = s.same_ids }
    exec-Slice self (spawn name future fn k) l =
        let (id, l') = add_task c fn name future l in
        let s = exec-Slice self (k id) l' in
        record { same_current = s.same_current; same_ids = s.same_ids }
    exec-Slice self (manage r k) l =
        let f = λ (t : Task V U). record t { result_future = some r } in
        Slice-trans (modify-Slice f l (λ t. refl)) (exec-Slice self k (modify_current f l))
    exec-Slice self (yields k) l = record { same_current = refl; same_ids = refl }
    exec-Slice self (waits k) l = modify-Slice (λ t. record t { state = State.wait }) l (λ t. refl)
    exec-Slice self (exits k) l = modify-Slice (λ t. record t { state = State.done }) l (λ t. refl)
