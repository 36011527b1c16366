-- ===== src/StackPool.antt =====
-- include/async/internal/stack_pool.h: task stacks, kept for reuse. The two `unordered_map`s are
-- association lists; the order in which the source's loop meets the entries of `stacks.free` is that
-- of the list, and nothing is proved that depends on it.
pub mod Blocks
pub mod Laws
pub mod Lifetime
use asyncxx.Base.{
  ℕ, ◌≡◌, ◌≢◌, List, [], ◌∷◌, ◌++◌, Option, none, some, if◌then◌else◌, ◌==◌, All, map,
}
use Blocks.{Block, Apart, search, erase, assign, size_of}

-- `new uint8_t[size]`, as a function of the arrays that the pool has not given back: an array that
-- overlaps none of them, at an address of its own, which is not null.
pub record Allocator : Type 0 where
  pub new_array : List Block → ℕ → ℕ
  pub new_array-Apart :
      (live : List Block) (size : ℕ) → All (Apart (new_array live size, size)) live
  pub new_array-ne-null : (live : List Block) (size : ℕ) → new_array live size ≢ 0

pub record StackPool : Type 0 where
  pub free : List Block
  pub used : List Block

abbrev pub new : StackPool
new = record { free = []; used = [] }

-- The loop over `stacks.free`: the pointer, 0 if there is none of that size, and what stays free.
unfoldable pub take_free : ℕ → List Block → ℕ × List Block
take_free size free = elim (search size free) [
  | none ↦ (0, free)
  | some ptr ↦ (ptr, erase ptr free)
]

unfoldable pub alloc : Allocator → ℕ → StackPool → ℕ × StackPool
unfolding take_free
alloc a size p =
    let (found, rest) = take_free size p.free in
    let ptr = if found == 0 then a.new_array (rest ++ p.used) size else found in
    (ptr, record { free = rest; used = assign ptr size p.used })

-- `stacks.used[ptr]` is 0 for a pointer that is not there.
unfoldable pub free : ℕ → StackPool → StackPool
free ptr p = record { free = assign ptr (size_of ptr p.used) p.free; used = erase ptr p.used }

-- `~StackPool()`: the addresses that are deleted, in order, and what is left.
unfoldable pub destroy : StackPool → List ℕ × StackPool
destroy p = (map (λ b. b.0) (p.free ++ p.used), new)
