-- ===== src/Tests/Fixtures.antt =====
-- An allocator that can be run, and a loop of user code for the tests.
use asyncxx.Base.{ℕ, suc, ◌+◌, ◌≤◌, inr, false, List, [], ◌∷◌, arith, All}
use asyncxx.Future.{Heap}
use asyncxx.StackPool.Blocks.{Block, Apart}
use asyncxx.StackPool.{Allocator}
use asyncxx.Loop.Types.{Config}

-- An address above the end of every live array.
pub ceiling : List Block → ℕ
ceiling [] = 0
ceiling (b ∷ bs) = b.0 + b.1 + ceiling bs

pub above : (n size : ℕ) (bs : List Block) → ceiling bs ≤ n → All (Apart (suc n, size)) bs
unfolding ceiling
above n size [] h = tt
above n size (b ∷ bs) h = ((omega arith, inr (omega arith)), above n size bs (omega arith))

unfoldable pub bump : Allocator
unfolding ceiling
bump = record {
  new_array = λ live size. suc (ceiling live);
  new_array-Apart = λ live size. above (ceiling live) size live (omega arith);
  new_array-ne-null = λ live size. omega arith;
}

abbrev pub config : Config
config = record { allocator = bump; continue_on_task_exc = false }

abbrev pub no_futures : Heap ℕ
no_futures = record { futures = []; to_wake = [] }
