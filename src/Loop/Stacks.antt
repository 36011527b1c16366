-- ===== src/Loop/Stacks.antt =====
-- Where `EventLoop::cycle` of include/async/loop.h sets the stack pointer before a worker starts.
use asyncxx.Base.{
  ℕ, zero, suc, ◌+◌, ◌-◌, ◌*◌, ◌/◌, ◌%◌, ◌≤◌, ◌≡◌, ◌≢◌, ◌⊎◌, inl, inr, refl, ap, subst, List, [],
  ◌∷◌, some, All-get_elem?, get_elem?, arith,
}
use mathlib.Core.Option.{some-injective}
use asyncxx.StackPool.Blocks.{Block}
use asyncxx.Task.{Task}
use asyncxx.Loop.Types.{EventLoop}
use asyncxx.Loop.Tags.{Tag, tag, Unlike, AllUnlike, Unlike-symm}
use asyncxx.Loop.Valid.{IsValid, get_elem?-tag}

-- `((data + size) & ~0xFL) - 256`
unfoldable pub stack_top : Block → ℕ
stack_top (data_, size) = (data_ + size) / 16 * 16 - 256

AllUnlike-get_elem? :
    (as_ : List Tag) (i j : ℕ) (a b : Tag)
    → i ≢ j
    → get_elem? as_ i ≡ some a
    → get_elem? as_ j ≡ some b
    → AllUnlike as_
    → Unlike a b
AllUnlike-get_elem? [] i j a b n ei ej h = absurd (cc)
AllUnlike-get_elem? (x ∷ xs) zero zero a b n ei ej h = absurd (n refl)
AllUnlike-get_elem? (x ∷ xs) zero (suc j) a b n ei ej h =
    let far = All-get_elem? (Unlike x) xs j ej h.0 in
    subst (λ z. Unlike z b) (some-injective _ _ ei) far
AllUnlike-get_elem? (x ∷ xs) (suc i) zero a b n ei ej h =
    let far = All-get_elem? (Unlike x) xs i ei h.0 in
    Unlike-symm b a (subst (λ z. Unlike z a) (some-injective _ _ ej) far)
AllUnlike-get_elem? (x ∷ xs) (suc i) (suc j) a b n ei ej h =
    AllUnlike-get_elem? xs i j a b (λ e. n (ap suc e)) ei ej h.1

-- The top of a task's stack is a multiple of 16, and lies 256 bytes or more below the end of the task's
-- array and at most 271 below.
top_bounds :
    (b : Block)
    → 272 ≤ b.1
    → (stack_top b % 16 ≡ 0) × (stack_top b + 256 ≤ b.0 + b.1) × (b.0 + b.1 ≤ stack_top b + 271)
unfolding stack_top
top_bounds b h = omega arith

-- Of two tasks of a valid loop, each with a stack of 272 bytes or more: the tops are multiples of 16,
-- each leaves all but 271 bytes of its own array at most, and neither reaches into the other's array.
pub stack_top_lem {ℓ κ} :
    {V : Type ℓ} {U : Type κ} (l : EventLoop V U) (i j : ℕ) (t u : Task V U)
    → IsValid l
    → i ≢ j
    → get_elem? l.tasks i ≡ some t
    → get_elem? l.tasks j ≡ some u
    → 272 ≤ t.stack.1
    → 272 ≤ u.stack.1
    → (stack_top t.stack % 16 ≡ 0)
      × (stack_top u.stack % 16 ≡ 0)
      × (t.stack.0 + t.stack.1 ≤ stack_top t.stack + 271)
      × (u.stack.0 + u.stack.1 ≤ stack_top u.stack + 271)
      × ((stack_top t.stack + 256 ≤ u.stack.0) ⊎ (stack_top u.stack + 256 ≤ t.stack.0))
stack_top_lem l i j t u v n ei ej ht hu =
    let apart =
      AllUnlike-get_elem? _ i j (tag t) (tag u) n (get_elem?-tag l.tasks l.to_start i ei)
        (get_elem?-tag l.tasks l.to_start j ej) v.tagged.unlike in
    let (a, b, c) = top_bounds t.stack ht in
    let (a', b', c') = top_bounds u.stack hu in
    (a, a', c, c', elim apart.1.1 [ inl x ↦ inl (omega arith) | inr y ↦ inr (omega arith) ])
