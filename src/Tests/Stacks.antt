-- ===== src/Tests/Stacks.antt =====
-- The stack pool at work.
use asyncxx.Base.{◌≡◌, refl, [], ◌∷◌, arith, All, List, map}
use asyncxx.StackPool.Blocks.{search, assign, size_of, Block, Apart, Has}
use asyncxx.StackPool.Laws.{IsValid, alloc-IsValid}
use asyncxx.StackPool.Lifetime.{Request, begins, ends, serve_each, destroy_lem}
use asyncxx.StackPool.{StackPool, free, alloc, destroy, new}
use mathlib.Core.List.{Perm}
use asyncxx.Tests.Fixtures.{bump}

-- One free stack and two in use.
abbrev pool : StackPool
pool = record { free = (1, 64) ∷ []; used = (65, 64) ∷ (129, 32) ∷ [] }

pool-IsValid : IsValid pool
pool-IsValid = omega arith

alloc-IsValid_example :
    let (ptr, q) = alloc bump 64 pool in
    IsValid q
    × Has q.used (ptr, 64)
    × All (Apart (ptr, 64)) pool.used
    × ((b : Block) → Has pool.used b → Has q.used b)
alloc-IsValid_example = alloc-IsValid bump 64 pool pool-IsValid

-- Two tasks begin, the first ends, a third one takes its stack, and one that is not there ends.
abbrev requests : List Request
requests = begins 64 ∷ begins 64 ∷ ends 0 ∷ begins 64 ∷ ends 5 ∷ []

-- Three stacks were asked for, and the system gave two.
requests_ask_twice : (serve_each bump requests (new, [])).1 ≡ (66, 64) ∷ (1, 64) ∷ []
unfolding alloc search assign bump free size_of
requests_ask_twice = refl

destroy_lem_example :
    let (p, got) = serve_each bump requests (new, []) in
    Perm (destroy p).0 (map (λ b. b.0) got) × ((destroy p).1 ≡ new) × IsValid p
destroy_lem_example = destroy_lem bump requests
