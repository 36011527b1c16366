-- ===== src/Loop/Tags.antt =====
-- The ids and the stacks of a loop's tasks, of include/async/loop.h, whatever state they are in.
use asyncxx.Base.{
  ℕ, zero, suc, ◌+◌, ◌<◌, ◌≡◌, ◌≢◌, sym, subst, List, [], ◌∷◌, ◌++◌, some, arith, All, All-append,
  All-get_elem?, get_elem?, erase_at,
}
use mathlib.Core.Option.{some-injective}
use asyncxx.Api.{TaskId}
use asyncxx.StackPool.Blocks.{Block, Apart, Has, All-Has, Apart-symm}
use asyncxx.StackPool.Laws.{IsValid, alloc-IsValid, free-IsValid}
use asyncxx.StackPool.{Allocator, StackPool, alloc, free}
use asyncxx.Task.{Task, default_stack_size}

abbrev pub Tag : Type 0
Tag = TaskId × Block

abbrev pub tag {ℓ κ} : {V : Type ℓ} {U : Type κ} → Task V U → Tag
tag t = (t.id, t.stack)

-- Two tasks have neither an id nor a byte of stack in common.
abbrev pub Unlike : Tag → Tag → Type 0
Unlike a b = (a.0 ≢ b.0) × Apart a.1 b.1

abbrev pub AllUnlike : List Tag → Type 0
AllUnlike [] = Unit
AllUnlike (a ∷ as_) = All (Unlike a) as_ × AllUnlike as_

-- All ids were handed out, all stacks are in use, and no two tasks share an id or a stack.
pub record TagsValid (next : TaskId) (p : StackPool) (tags : List Tag) : Type 0 where
  pub pool : IsValid p
  pub below : All (λ a. a.0 < next) tags
  pub owned : All (λ a. Has p.used a.1) tags
  pub unlike : AllUnlike tags

pub Unlike-symm : (a b : Tag) → Unlike a b → Unlike b a
Unlike-symm a b (i, s) = (λ e. i (sym e), Apart-symm a.1 b.1 s)

AllUnlike-append :
    (as_ : List Tag) (b : Tag)
    → All (λ a. Unlike a b) as_
    → AllUnlike as_
    → AllUnlike (as_ ++ b ∷ [])
AllUnlike-append [] b n u = (tt, tt)
AllUnlike-append (a ∷ as_) b n u =
    (All-append (Unlike a) as_ (b ∷ []) u.0 (n.0, tt), AllUnlike-append as_ b n.1 u.1)

-- A fresh tag is unlike the tags that are there.
fresh-Unlike :
    (next : TaskId) (p : StackPool) (b : Block) (tags : List Tag)
    → All (Apart b) p.used
    → All (λ a. a.0 < next) tags
    → All (λ a. Has p.used a.1) tags
    → All (λ a. Unlike a (next, b)) tags
fresh-Unlike next p b [] n l o = tt
fresh-Unlike next p b (a ∷ tags) n l o = (
  (omega arith, Apart-symm b a.1 (All-Has (Apart b) p.used a.1 o.0 n)),
  fresh-Unlike next p b tags n l.1 o.1,
)

All-owned :
    (p q : StackPool) (tags : List Tag)
    → ((b : Block) → Has p.used b → Has q.used b)
    → All (λ a. Has p.used a.1) tags
    → All (λ a. Has q.used a.1) tags
All-owned p q [] k o = tt
All-owned p q (a ∷ tags) k o = (k a.1 o.0, All-owned p q tags k o.1)

All-below :
    (next : TaskId) (tags : List Tag) → All (λ a. a.0 < next) tags → All (λ a. a.0 < next + 1) tags
All-below next [] l = tt
All-below next (a ∷ tags) l = (omega arith, All-below next tags l.1)

-- A new task takes the next id and a stack of its own.
pub add-TagsValid :
    (al : Allocator) (next : TaskId) (p : StackPool) (tags : List Tag)
    → TagsValid next p tags
    → let (ptr, q) = alloc al default_stack_size p in
      TagsValid (next + 1) q (tags ++ (next, (ptr, default_stack_size)) ∷ [])
add-TagsValid al next p tags v =
    let ptr = (alloc al default_stack_size p).0 in
    let q = (alloc al default_stack_size p).1 in
    let (pool, has, apart, keep) = alloc-IsValid al default_stack_size p v.pool in
    record {
      pool = pool;
      below =
          All-append (λ a. a.0 < next + 1) tags _ (All-below next tags v.below) (omega arith, tt);
      owned = All-append (λ a. Has q.used a.1) tags _ (All-owned p q tags keep v.owned) (has, tt);
      unlike =
          AllUnlike-append tags (next, (ptr, default_stack_size))
            (fresh-Unlike next p (ptr, default_stack_size) tags apart v.below v.owned) v.unlike;
    }

module _ (P : Tag → Type 0) where
  All-erase_at : (tags : List Tag) (i : ℕ) → All P tags → All P (erase_at tags i)
  All-erase_at [] i a = tt
  All-erase_at (t ∷ tags) zero a = a.1
  All-erase_at (t ∷ tags) (suc i) a = (a.0, All-erase_at tags i a.1)

AllUnlike-erase_at : (tags : List Tag) (i : ℕ) → AllUnlike tags → AllUnlike (erase_at tags i)
AllUnlike-erase_at [] i u = tt
AllUnlike-erase_at (t ∷ tags) zero u = u.1
AllUnlike-erase_at (t ∷ tags) (suc i) u =
    (All-erase_at (Unlike t) tags i u.0, AllUnlike-erase_at tags i u.1)

-- What is erased is unlike what stays.
erased-Unlike :
    (tags : List Tag) (i : ℕ) (t : Tag)
    → get_elem? tags i ≡ some t
    → AllUnlike tags
    → All (λ a. Unlike a t) (erase_at tags i)
erased-Unlike [] i t e u = tt
erased-Unlike (a ∷ tags) zero t e u = go tags u.0
  where
    go : (as_ : List Tag) → All (Unlike a) as_ → All (λ b. Unlike b t) as_
    go [] h = tt
    go (b ∷ as_) h =
        (subst (λ x. Unlike b x) (some-injective a t e) (Unlike-symm a b h.0), go as_ h.1)
erased-Unlike (a ∷ tags) (suc i) t e u =
    (All-get_elem? (Unlike a) tags i e u.0, erased-Unlike tags i t e u.1)

freed-owned :
    (p q : StackPool) (tags : List Tag) (t : Tag)
    → ((b : Block) → b.0 ≢ t.1.0 → Has p.used b → Has q.used b)
    → All (λ a. Unlike a t) tags
    → All (λ a. Has p.used a.1) tags
    → All (λ a. Has q.used a.1) tags
freed-owned p q [] t k u o = tt
freed-owned p q (a ∷ tags) t k u o = (k a.1 u.0.1.0 o.0, freed-owned p q tags t k u.1 o.1)

-- A task that goes gives its stack back, and the others keep theirs.
pub remove-TagsValid :
    (next : TaskId) (p : StackPool) (tags : List Tag) (i : ℕ) (t : Tag)
    → get_elem? tags i ≡ some t
    → TagsValid next p tags
    → TagsValid next (free t.1.0 p) (erase_at tags i)
remove-TagsValid next p tags i t e v =
    let has = All-get_elem? (λ a. Has p.used a.1) tags i e v.owned in
    let (pool, _, keep, _) = free-IsValid t.1.0 t.1.1 p v.pool has in
    record {
      pool = pool;
      below = All-erase_at (λ a. a.0 < next) tags i v.below;
      owned =
          freed-owned p (free t.1.0 p) (erase_at tags i) t keep (erased-Unlike tags i t e v.unlike)
            (All-erase_at (λ a. Has p.used a.1) tags i v.owned);
      unlike = AllUnlike-erase_at tags i v.unlike;
    }
