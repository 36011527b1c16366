-- ===== src/Loop/Lookup.antt =====
-- Tasks by their names: `getTask(name)` of include/async/loop.h, and `setName` of task.h.
use asyncxx.Base.{
  ℕ, zero, suc, ◌+◌, ◌-◌, ◌*◌, ◌/◌, ◌%◌, ◌<◌, ◌≡◌, refl, sym, ap, ◌∙◌, List, [], ◌∷◌, Option, none,
  some, All, arith, Bool-cases, inl, inr, ltb, if◌then◌else◌, ◌==◌, same_text, same_text-eq,
  same_text_self,
}
use asyncxx.Api.{TaskId}
use asyncxx.Task.{Name, Task}
use asyncxx.Loop.Types.{EventLoop}
use asyncxx.Loop.Cycle.{modify_current, modify_at}
use asyncxx.Loop.Names.{task_name, digits_onto}
use asyncxx.Loop.Sync.{get_task}

module _ {ℓ κ} {V : Type ℓ} {U : Type κ} where
  -- `getTask(name)`, `none` for `nullptr`.
  unfoldable pub get_task_named : Name → List (Task V U) → Option (Task V U)
  get_task_named name [] = none
  get_task_named name (t ∷ ts) = if same_text t.name name then some t else get_task_named name ts

  -- `self()->setName(name)`
  unfoldable pub set_name : Name → EventLoop V U → EventLoop V U
  unfolding modify_at
  set_name name l = modify_current (λ t. record t { name = name }) l

-- The number that a text of digits stands for, behind the digits that were read before.
abbrev pub number : ℕ → List ℕ → ℕ
number n [] = n
number n (d ∷ ds) = number (n * 10 + (d - b'0')) ds

number-digits :
    (fuel n : ℕ) (out : List ℕ) → n < fuel → number 0 (digits_onto fuel n out) ≡ number n out
unfolding digits_onto
number-digits zero n out h = absurd (omega arith)
number-digits (suc fuel) n out h = elim (Bool-cases (ltb n 10)) [
  | inl y ↦ let e : 0 + (b'0' + n - b'0') ≡ n = omega arith in rw y (ap (λ x. number x out) e)
  | inr y ↦
      let e : n / 10 * 10 + (b'0' + n % 10 - b'0') ≡ n = omega arith in
      rw (y, number-digits fuel (n / 10) ((b'0' + n % 10) ∷ out) (ground (arith, y, h)), e) refl
]

abbrev behind_dash : Name → Name
behind_dash (t ∷ a ∷ s ∷ k ∷ d ∷ name) = name
behind_dash _ = []

-- Two tasks without names of their own have different ones.
pub task_name-inj : (a b : ℕ) → task_name [] a ≡ task_name [] b → a ≡ b
unfolding task_name
task_name-inj a b e =
    sym (number-digits (suc a) a [] (omega arith))
    ∙ ap (λ s. number 0 (behind_dash s)) e
    ∙ number-digits (suc b) b [] (omega arith)

module _ {ℓ κ} {V : Type ℓ} {U : Type κ} where
  same_name :
      (id : TaskId) (t : Task V U)
      → t.name ≡ task_name [] t.id
      → same_text t.name (task_name [] id) ≡ (t.id == id)
  same_name id t n = elim (Bool-cases (t.id == id)) [
    | inl y ↦
        let e : t.id ≡ id = ground (arith, y) in
        ap (λ s. same_text s (task_name [] id)) (n ∙ ap (task_name []) e)
        ∙ same_text_self (task_name [] id)
        ∙ sym y
    | inr y ↦ elim (Bool-cases (same_text t.name (task_name [] id))) [
      | inl z ↦
          let e = task_name-inj t.id id (sym n ∙ same_text-eq t.name (task_name [] id) z) in
          absurd (ground (arith, y, e))
      | inr z ↦ z ∙ sym y
    ]
  ]

  -- Among tasks that were added without a name of their own, and not renamed, looking up the name that
  -- `addTask` made of an id finds what looking up the id finds: the same task, or none.
  pub get_task_named_lem :
      (id : TaskId) (ts : List (Task V U))
      → All (λ t. t.name ≡ task_name [] t.id) ts
      → get_task_named (task_name [] id) ts ≡ get_task id ts
  unfolding get_task_named get_task
  get_task_named_lem id [] a = refl
  get_task_named_lem id (t ∷ ts) a =
      ap (λ b. if b then some t else get_task_named (task_name [] id) ts) (same_name id t a.0)
      ∙ ap (λ r. if t.id == id then some t else r) (get_task_named_lem id ts a.1)
