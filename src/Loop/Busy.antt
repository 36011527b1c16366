-- ===== src/Loop/Busy.antt =====
-- Tasks of include/async/loop.h that compute and yield, a bounded number of times each, whatever the
-- memory is when they run.

pub mod Turn
pub mod Done
use asyncxx.Base.{
  ℕ, suc, ◌+◌, ◌≡◌, refl, sym, ap, ◌∙◌, subst, List, [], ◌∷◌, none, some, arith, get_elem?,
  erase_at, zero, ◌⊎◌, inl, inr,
}
use asyncxx.Api.{TaskId}
use asyncxx.Task.{State, Task, Program, Shared, finish, act, yields}
use asyncxx.Loop.Types.{Config, EventLoop, Outcome}
use asyncxx.Loop.Cycle.{exec, after_slice, modify_at, modify_current, advance, finished}

module _ {ℓ κ} {V : Type ℓ} {U : Type κ} where
  -- A worker that yields `n` times at most, and wakes nobody.
  pub data Rounds : ℕ → Program V U → Type (ℓ ⊔ κ) where
    stops : {n : ℕ} → Rounds n finish
    works :
        {n : ℕ} {f : TaskId → Shared V U → Shared V U} {k : TaskId → Shared V U → Program V U}
        → ((id : TaskId) (s : Shared V U) → (f id s).heap.to_wake ≡ s.heap.to_wake)
        → ((id : TaskId) (s : Shared V U) → Rounds n (k id s))
        → Rounds n (act f k)
    rests : {n : ℕ} {k : Program V U} → Rounds n k → Rounds (suc n) (yields k)

  -- A task and the number of cycles that it can still take.
  pub data Fits (t : Task V U) : ℕ → Type (ℓ ⊔ κ) where
    over : t.state ≡ State.done → t.result_future ≡ none → Fits t 1
    fresh :
        {n : ℕ}
        → t.state ≡ State.init
        → t.result_future ≡ none
        → Rounds n t.worker
        → Fits t (suc (suc n))
    amid :
        {n : ℕ}
        → t.state ≡ State.exec
        → t.result_future ≡ none
        → (p : Program V U) → t.ctx ≡ some p
        → Rounds n p
        → Fits t (suc (suc n))

  pub data Busy : List (Task V U) → ℕ → Type (ℓ ⊔ κ) where
    nobody : Busy [] 0
    also :
        {t : Task V U} {ts : List (Task V U)} {w n : ℕ}
        → Fits t w
        → Busy ts n
        → Busy (t ∷ ts) (w + n)

  -- One task's share, and what is left when it changes or goes.
  abbrev pub Share : List (Task V U) → ℕ → Task V U → ℕ → Type (ℓ ⊔ κ)
  Share ts i t n =
      (w : ℕ) × (m : ℕ) × Fits t w
      × (n ≡ w + m)
      × ((f : Task V U → Task V U) (v : ℕ) → Fits (f t) v → Busy (modify_at i f ts) (v + m))
      × Busy (erase_at ts i) m

  pub share :
      (ts : List (Task V U)) (i : ℕ) (t : Task V U) {n : ℕ}
      → Busy ts n
      → get_elem? ts i ≡ some t
      → Share ts i t n
  unfolding modify_at
  share [] i t b e = absurd (cc)
  share (u ∷ ts) zero t (also {w = w} {n = n} f b) e =
      let same : u ≡ t = cc in
      subst (λ x. Share (u ∷ ts) zero x (w + n)) same (w, n, f, refl, (λ g v h. also h b), b)
  share (u ∷ ts) (suc i) t (also {w = w} {n = n} f b) e =
      let (x, m, h, q, change, gone) = share ts i t b e in
      (
        x,
        w + m,
        h,
        omega (arith, q),
        (λ g v k.
            subst (Busy (u ∷ modify_at i g ts))
              (let r : w + (v + m) ≡ v + (w + m) = omega arith in r) (also f (change g v k))),
        also f gone,
      )

  pub modify_at-modify_at :
      (i : ℕ) (f g : Task V U → Task V U) (ts : List (Task V U))
      → modify_at i g (modify_at i f ts) ≡ modify_at i (λ t. g (f t)) ts
  unfolding modify_at
  modify_at-modify_at i f g [] = refl
  modify_at-modify_at zero f g (t ∷ ts) = refl
  modify_at-modify_at (suc i) f g (t ∷ ts) = ap (λ us. t ∷ us) (modify_at-modify_at i f g ts)

  module _ (c : Config) where
    -- How a slice leaves the loop: the task is done, or has yielded once more.
    abbrev pub Sliced : ℕ → EventLoop V U → Outcome (EventLoop V U) → Type (ℓ ⊔ κ)
    Sliced n l o =
        (s : Shared V U) × (s.heap.to_wake ≡ l.shared.heap.to_wake)
        × ((o ≡ Outcome.ok (finished (record l { shared = s })))
            ⊎ ((k : Program V U) × (j : ℕ) × (n ≡ suc j)
                × Rounds j k
                × (o
                    ≡ Outcome.ok (
                        advance (
                          modify_current (λ t. record t { ctx = some k })
                            (record l { shared = s }))))))

    pub slice :
        {n : ℕ} {p : Program V U}
        → Rounds n p
        → (id : TaskId) (l : EventLoop V U) → Sliced n l (after_slice c (exec c id p l))
    unfolding after_slice exec
    slice stops id l = (l.shared, refl, inl refl)
    slice (works {f = f} q r) id l =
        let (s, e, o) = slice (r id l.shared) id (record l { shared = f id l.shared }) in
        (s, e ∙ q id l.shared, o)
    slice (rests {n = n} {k = k} r) id l = (l.shared, refl, inr (k, n, refl, r, refl))
