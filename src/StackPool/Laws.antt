-- ===== src/StackPool/Laws.antt =====
-- include/async/internal/stack_pool.h: the stacks in use never share memory, and freed ones are
-- reused.
use asyncxx.Base.{
  ℕ, ◌+◌, ◌≡◌, ◌≢◌, ◌⊎◌, inl, inr, refl, List, [], ◌∷◌, ◌++◌, arith, All, All_of_append, length,
  Option-cases, Bool-cases, ◌==◌,
}
use asyncxx.StackPool.Blocks.{
  Block, Apart, AllApart, Separate, Has, search, erase, assign, All-erase, All-assign, All-Has,
  Apart-symm, search-Has, erase-Apart, AllApart-erase, AllApart-assign, assign-Has, assign_keeps,
  erase_keeps, size_of-Has, length-assign, length-erase, Has-search, ne_eq,
}
use asyncxx.StackPool.{Allocator, StackPool, take_free, alloc, free}

-- All arrays of the pool, free and used, lie apart from one another.
pub record IsValid (p : StackPool) : Type 0 where
  pub free_apart : AllApart p.free
  pub used_apart : AllApart p.used
  pub separate : Separate p.free p.used

abbrev pub total : StackPool → ℕ
total p = length p.free + length p.used

Separate-new :
    (b : Block) (bs cs : List Block)
    → All (Apart b) bs
    → Separate bs cs
    → (size : ℕ) → All (λ c. All (Apart c) (assign b.0 b.1 cs)) bs
Separate-new b [] cs n s size = tt
Separate-new b (c ∷ bs) cs n s size =
    (All-assign (Apart c) b.0 b.1 cs (Apart-symm b c n.0) s.0, Separate-new b bs cs n.1 s.1 size)

-- What the search leaves: the found array, where there is one, lies apart from all others.
take_free_lem :
    (size : ℕ) (p : StackPool)
    → IsValid p
    → let (ptr, rest) = take_free size p.free in
      AllApart rest
      × Separate rest p.used
      × ((ptr ≡ 0)
          ⊎ (Has p.free (ptr, size)
              × All (Apart (ptr, size)) rest
              × All (Apart (ptr, size)) p.used))
unfolding take_free
take_free_lem size p v = elim (Option-cases (search size p.free)) [
  | inl e ↦ rw (e, take_free) (v.free_apart, v.separate, inl refl)
  | inr (ptr, e) ↦
      let has = search-Has size p.free e in
      rw (e, take_free)
        (
          AllApart-erase ptr p.free v.free_apart,
          All-erase (λ b. All (Apart b) p.used) ptr p.free v.separate,
          inr (
            has,
            erase-Apart ptr size p.free v.free_apart has,
            All-Has (λ b. All (Apart b) p.used) p.free (ptr, size) has v.separate,
          ),
        )
]

-- The array that `alloc` returns lies apart from all that stay free and all that are used.
alloc-Apart :
    (a : Allocator) (size : ℕ) (p : StackPool)
    → IsValid p
    → let (ptr, q) = alloc a size p in
      All (Apart (ptr, size)) q.free
      × All (Apart (ptr, size)) p.used
      × AllApart q.free
      × Separate q.free p.used
unfolding alloc
alloc-Apart a size p v =
    let found = (take_free size p.free).0 in
    let rest = (take_free size p.free).1 in
    let (apart, separate, lies) = take_free_lem size p v in
    let fresh =
      All_of_append (Apart (a.new_array (rest ++ p.used) size, size)) rest p.used
        (a.new_array-Apart (rest ++ p.used) size) in
    elim (Bool-cases (found == 0)) [
      | inl t ↦ rw t (fresh.0, fresh.1, apart, separate)
      | inr f ↦ elim lies [
        | inl z ↦ absurd (ground arith)
        | inr (_, free_of, used_of) ↦ rw f (free_of, used_of, apart, separate)
      ]
    ]

-- `alloc` keeps the pool valid. The stack that it returns is in use afterwards, and shares no byte
-- with any stack that was in use before, all of which stay in use.
pub alloc-IsValid :
    (a : Allocator) (size : ℕ) (p : StackPool)
    → IsValid p
    → let (ptr, q) = alloc a size p in
      IsValid q
      × Has q.used (ptr, size)
      × All (Apart (ptr, size)) p.used
      × ((b : Block) → Has p.used b → Has q.used b)
unfolding alloc
alloc-IsValid a size p v =
    let ptr = (alloc a size p).0 in
    let (free_of, used_of, apart, separate) = alloc-Apart a size p v in
    (
      record {
        free_apart = apart;
        used_apart = AllApart-assign ptr size p.used used_of v.used_apart;
        separate = Separate-new (ptr, size) (alloc a size p).1.free p.used free_of separate size;
      },
      assign-Has ptr size p.used,
      used_of,
      λ b h. assign_keeps ptr size p.used b used_of h,
    )

-- What is in the one map lies apart from all of the other.
pub Separate-Has : (b : Block) (bs cs : List Block) → Separate bs cs → Has cs b → All (Apart b) bs
Separate-Has b [] cs s h = tt
Separate-Has b (c ∷ bs) cs s h =
    (Apart-symm c b (All-Has (Apart c) cs b h s.0), Separate-Has b bs cs s.1 h)

-- `free` of a stack in use keeps the pool valid: the stack is free afterwards, under its size, all
-- others in use stay in use, and no array is gained or lost.
pub free-IsValid :
    (ptr size : ℕ) (p : StackPool)
    → IsValid p
    → Has p.used (ptr, size)
    → let q = free ptr p in
      IsValid q
      × Has q.free (ptr, size)
      × ((b : Block) → b.0 ≢ ptr → Has p.used b → Has q.used b)
      × (total q ≡ total p)
unfolding free
free-IsValid ptr size p v h = rw (size_of-Has ptr size p.used v.used_apart h) (
  record {
    free_apart =
        AllApart-assign ptr size p.free (Separate-Has (ptr, size) p.free p.used v.separate h)
          v.free_apart;
    used_apart = AllApart-erase ptr p.used v.used_apart;
    separate =
        All-assign (λ b. All (Apart b) (erase ptr p.used)) ptr size p.free
          (erase-Apart ptr size p.used v.used_apart h) (Separate-erase p.free p.used v.separate);
  },
  assign-Has ptr size p.free,
  λ b n k. erase_keeps ptr p.used b n k,
  omega (
    arith,
    length-assign ptr size p.free (Separate-Has (ptr, size) p.free p.used v.separate h),
    length-erase ptr size p.used h,
  ),
)
  where
    Separate-erase : (bs cs : List Block) → Separate bs cs → Separate bs (erase ptr cs)
    Separate-erase [] cs s = tt
    Separate-erase (b ∷ bs) cs s = (All-erase (Apart b) ptr cs s.0, Separate-erase bs cs s.1)

-- Where a free stack has the size that is asked for, `alloc` takes one such stack and asks the
-- system for nothing: the pool holds as many arrays as before.
pub alloc_reuses :
    (a : Allocator) (size ptr : ℕ) (p : StackPool)
    → IsValid p
    → All (λ b. b.0 ≢ 0) p.free
    → Has p.free (ptr, size)
    → Has p.free ((alloc a size p).0, size) × (total (alloc a size p).1 ≡ total p)
unfolding alloc
alloc_reuses a size ptr p v nonnull h =
    let (q, e) = Has-search size ptr p.free h in
    let has = search-Has size p.free e in
    let off_null : q ≢ 0 = All-Has (λ b. b.0 ≢ 0) p.free (q, size) has nonnull in
    rw (e, alloc, take_free, ne_eq q 0 off_null)
      (
        has,
        omega (
          arith,
          length-erase q size p.free has,
          length-assign q size p.used
              (All-Has (λ b. All (Apart b) p.used) p.free (q, size) has v.separate),
        ),
      )
