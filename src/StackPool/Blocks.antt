-- ===== src/StackPool/Blocks.antt =====
-- Arrays by address and size, and the maps of include/async/internal/stack_pool.h over them.
use asyncxx.Base.{
  ℕ, suc, ◌+◌, ◌≤◌, ◌≡◌, ◌≢◌, ◌⊎◌, inl, inr, refl, sym, ap, ◌∙◌, subst, true, false, List, [], ◌∷◌,
  Option, none, some, arith, if◌then◌else◌, ◌==◌, All, length, Bool-cases,
}

-- An address and a size.
abbrev pub Block : Type 0
Block = ℕ × ℕ

-- Two arrays at different addresses that share no byte.
abbrev pub Apart : Block → Block → Type 0
Apart a b = (a.0 ≢ b.0) × ((a.0 + a.1 ≤ b.0) ⊎ (b.0 + b.1 ≤ a.0))

-- The arrays of a map share no byte.
abbrev pub AllApart : List Block → Type 0
AllApart [] = Unit
AllApart (b ∷ bs) = All (Apart b) bs × AllApart bs

-- No array of the one map shares a byte with one of the other.
abbrev pub Separate : List Block → List Block → Type 0
Separate bs cs = All (λ b. All (Apart b) cs) bs

unfoldable pub search : ℕ → List Block → Option ℕ
search size [] = none
search size ((ptr, sz) ∷ m) = if sz == size then some ptr else search size m

unfoldable pub erase : ℕ → List Block → List Block
erase ptr [] = []
erase ptr ((k, sz) ∷ m) = if k == ptr then m else (k, sz) ∷ erase ptr m

-- `m[ptr] = size`.
unfoldable pub assign : ℕ → ℕ → List Block → List Block
assign ptr size [] = (ptr, size) ∷ []
assign ptr size ((k, sz) ∷ m) = if k == ptr then (ptr, size) ∷ m else (k, sz) ∷ assign ptr size m

-- `m[ptr]`, read.
unfoldable pub size_of : ℕ → List Block → ℕ
size_of ptr [] = 0
size_of ptr ((k, sz) ∷ m) = if k == ptr then sz else size_of ptr m

-- The block is in the map.
abbrev pub Has : List Block → Block → Type 0
Has [] b = ⊥
Has (c ∷ m) b = (c ≡ b) ⊎ Has m b

module _ (P : Block → Type 0) where
  pub All-erase : (ptr : ℕ) (m : List Block) → All P m → All P (erase ptr m)
  unfolding erase
  All-erase ptr [] a = tt
  All-erase ptr ((k, sz) ∷ m) a = ground (arith, All-erase ptr m a.1)

  pub All-assign :
      (ptr size : ℕ) (m : List Block) → P (ptr, size) → All P m → All P (assign ptr size m)
  unfolding assign
  All-assign ptr size [] p a = (p, tt)
  All-assign ptr size ((k, sz) ∷ m) p a = ground (arith, All-assign ptr size m p a.1)

  pub All-Has : (m : List Block) (b : Block) → Has m b → All P m → P b
  All-Has [] b h a = absurd h
  All-Has (c ∷ m) b (inl e) a = subst P e a.0
  All-Has (c ∷ m) b (inr h) a = All-Has m b h a.1

pub eq_self : (a : ℕ) → (a == a) ≡ true
eq_self a = ground arith

pub ne_eq : (a b : ℕ) → a ≢ b → (a == b) ≡ false
ne_eq a b h = ground arith

pub Apart-symm : (a b : Block) → Apart a b → Apart b a
Apart-symm a b h = ground arith

pub search-Has :
    (size : ℕ) (m : List Block) {ptr : ℕ} → search size m ≡ some ptr → Has m (ptr, size)
unfolding search
search-Has size [] e = absurd (cc)
search-Has size ((k, sz) ∷ m) e = elim (Bool-cases (sz == size)) [
  | inl t ↦ inl (ground arith)
  | inr f ↦ inr (search-Has size m (ground arith))
]

-- Where no two arrays share an address, erasing an address leaves arrays apart from the one erased.
pub erase-Apart :
    (ptr size : ℕ) (m : List Block)
    → AllApart m
    → Has m (ptr, size)
    → All (Apart (ptr, size)) (erase ptr m)
unfolding erase
erase-Apart ptr size [] a h = absurd h
erase-Apart ptr size ((k, sz) ∷ m) a (inl e) =
    rw (ap (λ (b : Block). b.0 == ptr) e, eq_self ptr, erase) (subst (λ b. All (Apart b) m) e a.0)
erase-Apart ptr size ((k, sz) ∷ m) a (inr h) =
    let away : Apart (k, sz) (ptr, size) = All-Has (Apart (k, sz)) m (ptr, size) h a.0 in
    let rest = erase-Apart ptr size m a.1 h in
    rw (ne_eq k ptr away.0, erase) (Apart-symm (k, sz) (ptr, size) away, rest)

pub AllApart-erase : (ptr : ℕ) (m : List Block) → AllApart m → AllApart (erase ptr m)
unfolding erase
AllApart-erase ptr [] a = tt
AllApart-erase ptr ((k, sz) ∷ m) a =
    ground (arith, AllApart-erase ptr m a.1, All-erase (Apart (k, sz)) ptr m a.0)

pub AllApart-assign :
    (ptr size : ℕ) (m : List Block)
    → All (Apart (ptr, size)) m
    → AllApart m
    → AllApart (assign ptr size m)
unfolding assign
AllApart-assign ptr size [] n a = (tt, tt)
AllApart-assign ptr size ((k, sz) ∷ m) n a =
    rw (ne_eq k ptr (λ e. n.0.0 (sym e)), assign)
      (
        All-assign (Apart (k, sz)) ptr size m (Apart-symm (ptr, size) (k, sz) n.0) a.0,
        AllApart-assign ptr size m n.1 a.1,
      )

pub assign-Has : (ptr size : ℕ) (m : List Block) → Has (assign ptr size m) (ptr, size)
unfolding assign
assign-Has ptr size [] = inl refl
assign-Has ptr size ((k, sz) ∷ m) = elim (Bool-cases (k == ptr)) [
  | inl t ↦ rw (t, assign) (inl refl)
  | inr f ↦ rw (f, assign) (inr (assign-Has ptr size m))
]

-- Writing at an address that is apart from all others keeps what is there.
pub assign_keeps :
    (ptr size : ℕ) (m : List Block) (b : Block)
    → All (Apart (ptr, size)) m
    → Has m b
    → Has (assign ptr size m) b
unfolding assign
assign_keeps ptr size [] b n h = absurd h
assign_keeps ptr size ((k, sz) ∷ m) b n (inl e) =
    rw (ne_eq k ptr (λ e. n.0.0 (sym e)), assign) (inl e)
assign_keeps ptr size ((k, sz) ∷ m) b n (inr h) =
    rw (ne_eq k ptr (λ e. n.0.0 (sym e)), assign) (inr (assign_keeps ptr size m b n.1 h))

-- Erasing an address keeps what is elsewhere.
pub erase_keeps : (ptr : ℕ) (m : List Block) (b : Block) → b.0 ≢ ptr → Has m b → Has (erase ptr m) b
unfolding erase
erase_keeps ptr [] b n h = absurd h
erase_keeps ptr ((k, sz) ∷ m) b n (inl e) =
    rw (ne_eq k ptr (λ f. n (sym (ap (λ (c : Block). c.0) e) ∙ f)), erase) (inl e)
erase_keeps ptr ((k, sz) ∷ m) b n (inr h) = elim (Bool-cases (k == ptr)) [
  | inl t ↦ rw (t, erase) h
  | inr f ↦ rw (f, erase) (inr (erase_keeps ptr m b n h))
]

pub size_of-Has :
    (ptr size : ℕ) (m : List Block) → AllApart m → Has m (ptr, size) → size_of ptr m ≡ size
unfolding size_of
size_of-Has ptr size [] a h = absurd h
size_of-Has ptr size ((k, sz) ∷ m) a (inl e) = ground arith
size_of-Has ptr size ((k, sz) ∷ m) a (inr h) =
    let away : Apart (k, sz) (ptr, size) = All-Has (Apart (k, sz)) m (ptr, size) h a.0 in
    rw (ne_eq k ptr away.0) (size_of-Has ptr size m a.1 h)

pub length-assign :
    (ptr size : ℕ) (m : List Block)
    → All (Apart (ptr, size)) m
    → length (assign ptr size m) ≡ suc (length m)
unfolding assign
length-assign ptr size [] n = refl
length-assign ptr size ((k, sz) ∷ m) n =
    rw (ne_eq k ptr (λ e. n.0.0 (sym e))) (omega (arith, length-assign ptr size m n.1))

pub length-erase :
    (ptr size : ℕ) (m : List Block) → Has m (ptr, size) → suc (length (erase ptr m)) ≡ length m
unfolding erase
length-erase ptr size [] h = absurd h
length-erase ptr size ((k, sz) ∷ m) (inl e) = ground arith
length-erase ptr size ((k, sz) ∷ m) (inr h) = ground (arith, length-erase ptr size m h)

pub Has-search :
    (size ptr : ℕ) (m : List Block) → Has m (ptr, size) → (q : ℕ) × (search size m ≡ some q)
unfolding search
Has-search size ptr [] h = absurd h
Has-search size ptr ((k, sz) ∷ m) (inl e) = (k, ground arith)
Has-search size ptr ((k, sz) ∷ m) (inr h) = elim (Bool-cases (sz == size)) [
  | inl t ↦ (k, rw t)
  | inr f ↦ let (q, e) = Has-search size ptr m h in (q, rw f e)
]
