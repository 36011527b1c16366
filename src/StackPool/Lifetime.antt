-- ===== src/StackPool/Lifetime.antt =====
-- include/async/internal/stack_pool.h over its lifetime: what the system gave, and what is given back.
use asyncxx.Base.{
  ℕ, zero, suc, ◌≡◌, ◌≢◌, inl, inr, refl, sym, ap, subst, List, [], ◌∷◌, ◌++◌, Option, none, some,
  arith, All, All_of_append, get_elem?, Option-cases, ◌==◌, if◌then◌else◌, map,
}
use mathlib.Core.List.Perm
use mathlib.Core.List.{Perm, perm_middle}
use asyncxx.StackPool.Blocks.{
  Block, Apart, AllApart, Has, search, erase, assign, All-erase, All-assign, All-Has, search-Has,
  ne_eq, eq_self, size_of-Has,
}
use asyncxx.StackPool.Laws.{IsValid, Separate-Has, alloc-IsValid, free-IsValid}
use asyncxx.StackPool.{Allocator, StackPool, take_free, alloc, free, destroy, new}

-- A task begins and asks for a stack of a size, or one of the stacks in use, counted from the front,
-- is given back; nothing happens where there are not so many.
pub data Request : Type 0 where
  begins : ℕ → Request
  ends : ℕ → Request

-- What `new uint8_t[size]` gives during `alloc(size)`.
abbrev pub asked : Allocator → ℕ → StackPool → List Block
asked a size p =
    let (found, rest) = take_free size p.free in
    if found == 0 then (a.new_array (rest ++ p.used) size, size) ∷ [] else []

abbrev give_back : Option Block → StackPool → StackPool
give_back none p = p
give_back (some b) p = free b.0 p

-- The pool after a request, and the arrays that the system has given, the last one first.
abbrev pub serve : Allocator → Request → StackPool × List Block → StackPool × List Block
serve a (begins size) (p, got) = ((alloc a size p).1, asked a size p ++ got)
serve a (ends i) (p, got) = (give_back (get_elem? p.used i) p, got)

abbrev pub serve_each : Allocator → List Request → StackPool × List Block → StackPool × List Block
serve_each a [] x = x
serve_each a (r ∷ rs) x = serve_each a rs (serve a r x)

assign-Perm :
    (ptr size : ℕ) (m : List Block)
    → All (Apart (ptr, size)) m
    → Perm (assign ptr size m) ((ptr, size) ∷ m)
unfolding assign
assign-Perm ptr size [] n = Perm.refl _
assign-Perm ptr size ((k, sz) ∷ m) n =
    rw (ne_eq k ptr (λ e. n.0.0 (sym e)), assign)
      (Perm.trans (Perm.cons (k, sz) (assign-Perm ptr size m n.1)) (Perm.swap _ _ m))

erase-Perm :
    (ptr size : ℕ) (m : List Block)
    → AllApart m
    → Has m (ptr, size)
    → Perm m ((ptr, size) ∷ erase ptr m)
unfolding erase
erase-Perm ptr size [] a h = absurd h
erase-Perm ptr size ((k, sz) ∷ m) a (inl e) =
    rw (ap (λ (b : Block). b.0 == ptr) e, eq_self ptr, erase)
      (subst (λ b. Perm ((k, sz) ∷ m) (b ∷ m)) e (Perm.refl _))
erase-Perm ptr size ((k, sz) ∷ m) a (inr h) =
    let away : Apart (k, sz) (ptr, size) = All-Has (Apart (k, sz)) m (ptr, size) h a.0 in
    rw (ne_eq k ptr away.0, erase)
      (Perm.trans (Perm.cons (k, sz) (erase-Perm ptr size m a.1 h)) (Perm.swap _ _ _))

-- The pool is valid, no array is at the null pointer, and the pool holds just what the system gave.
pub record Holds (x : StackPool × List Block) : Type 0 where
  pub valid : IsValid x.0
  pub free_at : All (λ b. b.0 ≢ 0) x.0.free
  pub used_at : All (λ b. b.0 ≢ 0) x.0.used
  pub same : Perm (x.0.free ++ x.0.used) x.1

-- Two maps as one list: an entry goes to the front of the second, or of both.
join-Perm :
    (b : Block) (free used used' : List Block)
    → Perm used' (b ∷ used)
    → Perm (free ++ used') (b ∷ free ++ used)
join-Perm b free used used' h = Perm.trans (Perm.append_left free h) (perm_middle free used)

serve_fresh :
    (a : Allocator) (size : ℕ) (p : StackPool) (got : List Block)
    → search size p.free ≡ none
    → let ptr = a.new_array (p.free ++ p.used) size in
      serve a (begins size) (p, got)
      ≡ (record { free = p.free; used = assign ptr size p.used }, (ptr, size) ∷ got)
unfolding alloc take_free
serve_fresh a size p got e = rw (e, alloc, take_free) refl

serve_found :
    (a : Allocator) (size ptr : ℕ) (p : StackPool) (got : List Block)
    → search size p.free ≡ some ptr
    → ptr ≢ 0
    → serve a (begins size) (p, got)
      ≡ (record { free = erase ptr p.free; used = assign ptr size p.used }, got)
unfolding alloc take_free
serve_found a size ptr p got e n = rw (e, alloc, take_free, ne_eq ptr 0 n) refl

begins-Holds :
    (a : Allocator) (size : ℕ) (p : StackPool) (got : List Block)
    → Holds (p, got)
    → Holds (serve a (begins size) (p, got))
begins-Holds a size p got h =
    let valid = (alloc-IsValid a size p h.valid).0 in
    elim (Option-cases (search size p.free)) [
      | inl e ↦
          let ptr = a.new_array (p.free ++ p.used) size in
          let off =
            (All_of_append (Apart (ptr, size)) p.free p.used
              (a.new_array-Apart (p.free ++ p.used) size)).1 in
          let q = serve_fresh a size p got e in
          subst Holds (sym q) (record {
            valid = subst IsValid (ap (λ x. x.0) q) valid;
            free_at = h.free_at;
            used_at =
                All-assign (λ b. b.0 ≢ 0) ptr size p.used
                  (a.new_array-ne-null (p.free ++ p.used) size) h.used_at;
            same =
                Perm.trans (join-Perm (ptr, size) p.free p.used _ (assign-Perm ptr size p.used off))
                  (Perm.cons _ h.same);
          })
      | inr (ptr, e) ↦
          let has = search-Has size p.free e in
          let n : ptr ≢ 0 = All-Has (λ b. b.0 ≢ 0) p.free (ptr, size) has h.free_at in
          let off = All-Has (λ b. All (Apart b) p.used) p.free (ptr, size) has h.valid.separate in
          let q = serve_found a size ptr p got e n in
          subst Holds (sym q) (record {
            valid = subst IsValid (ap (λ x. x.0) q) valid;
            free_at = All-erase (λ b. b.0 ≢ 0) ptr p.free h.free_at;
            used_at = All-assign (λ b. b.0 ≢ 0) ptr size p.used n h.used_at;
            same =
                Perm.trans
                  (join-Perm (ptr, size) (erase ptr p.free) p.used _
                    (assign-Perm ptr size p.used off))
                  (Perm.trans
                    (Perm.append_right p.used
                      (Perm.symm (erase-Perm ptr size p.free h.valid.free_apart has)))
                    h.same);
          })
    ]

free-Holds :
    (ptr size : ℕ) (p : StackPool) (got : List Block)
    → Holds (p, got)
    → Has p.used (ptr, size)
    → Holds (free ptr p, got)
unfolding free
free-Holds ptr size p got h has =
    let off = Separate-Has (ptr, size) p.free p.used h.valid.separate has in
    let n = All-Has (λ b. b.0 ≢ 0) p.used (ptr, size) has h.used_at in
    let valid = (free-IsValid ptr size p h.valid has).0 in
    let z = size_of-Has ptr size p.used h.valid.used_apart has in
    let q : free ptr p ≡ record { free = assign ptr size p.free; used = erase ptr p.used } =
      rw z refl in
    subst (λ x. Holds (x, got)) (sym q)
      (record {
        valid = subst IsValid q valid;
        free_at = All-assign (λ b. b.0 ≢ 0) ptr size p.free n h.free_at;
        used_at = All-erase (λ b. b.0 ≢ 0) ptr p.used h.used_at;
        same = Perm.trans (Perm.append_right _ (assign-Perm ptr size p.free off)) (
            Perm.trans (Perm.symm (perm_middle p.free (erase ptr p.used))) (
              Perm.trans
                (Perm.append_left p.free
                  (Perm.symm (erase-Perm ptr size p.used h.valid.used_apart has)))
                h.same));
      })

Has-get_elem? : (m : List Block) (i : ℕ) (b : Block) → get_elem? m i ≡ some b → Has m b
Has-get_elem? [] i b e = absurd (cc)
Has-get_elem? (c ∷ m) zero b e = inl (ground arith)
Has-get_elem? (c ∷ m) (suc i) b e = inr (Has-get_elem? m i b e)

ends-Holds :
    (a : Allocator) (i : ℕ) (p : StackPool) (got : List Block)
    → Holds (p, got)
    → Holds (serve a (ends i) (p, got))
ends-Holds a i p got h = elim (Option-cases (get_elem? p.used i)) [
  | inl e ↦ subst (λ o. Holds (give_back o p, got)) (sym e) h
  | inr ((ptr, size), e) ↦
      let has = Has-get_elem? p.used i (ptr, size) e in
      subst (λ o. Holds (give_back o p, got)) (sym e) (free-Holds ptr size p got h has)
]

serve_each-Holds :
    (a : Allocator) (rs : List Request) (x : StackPool × List Block)
    → Holds x
    → Holds (serve_each a rs x)
serve_each-Holds a [] x h = h
serve_each-Holds a (begins size ∷ rs) (p, got) h =
    serve_each-Holds a rs _ (begins-Holds a size p got h)
serve_each-Holds a (ends i ∷ rs) (p, got) h = serve_each-Holds a rs _ (ends-Holds a i p got h)

-- Over every history of tasks that begin and end, from a new pool: the destructor deletes each array
-- that the system has given exactly once, and nothing else; and no two of these share a byte, so that
-- at every time the stacks in use are apart.
pub destroy_lem :
    (a : Allocator) (rs : List Request)
    → let (p, got) = serve_each a rs (new, []) in
      Perm (destroy p).0 (map (λ b. b.0) got) × ((destroy p).1 ≡ new) × IsValid p
unfolding destroy
destroy_lem a rs =
    let h =
      serve_each-Holds a rs (new, [])
        (record {
          valid = record { free_apart = tt; used_apart = tt; separate = tt };
          free_at = tt;
          used_at = tt;
          same = Perm.nil;
        }) in
    (Perm.map _ h.same, refl, h.valid)
