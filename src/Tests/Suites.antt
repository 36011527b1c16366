-- ===== src/Tests/Suites.antt =====
-- Suites of tests that run, with a number as the memory.
use asyncxx.Base.{List, ◌⊎◌, true, ℕ, ◌+◌, ◌≡◌, ◌↔◌, refl, false, [], ◌∷◌, All, length}
use asyncxx.Task.{Name}
use asyncxx.Suite.{Verdict, Test, TestSuite, no_statistics, run, returned, equality, one_of}
use asyncxx.Suite.Tally.{added, Asked, is_chosen, is_failure, performed, run-added}

-- Adds its index to the memory and ends so.
abbrev ends_so : ℕ → Verdict → Test ℕ
ends_so name v = record { name = name ∷ []; desc = []; fn = λ i w. (v, w + i) }

abbrev suite : TestSuite ℕ
suite = record {
  name = [];
  tests = ends_so 97 returned ∷ ends_so 98 equality ∷ ends_so 99 one_of ∷ [];
  current = 0;
}

abbrev selection : List Name
selection = (99 ∷ []) ∷ (97 ∷ []) ∷ []

run-added_example :
    let (vs, w') = performed (is_chosen selection) 0 suite.tests 10 in
    let (code, s, stat, w'') = run selection suite 10 in
    (stat ≡ added no_statistics vs)
    × (stat.passed + stat.failed + stat.errors ≡ length vs)
    × (w'' ≡ w')
    × ((code ≡ 0) ↔ All (λ v. is_failure v ≡ false) vs)
    × ((is_chosen selection (ends_so 98 equality) ≡ true)
        ↔ ((selection ≡ []) ⊎ Asked (98 ∷ []) selection))
run-added_example = run-added selection suite 10 (ends_so 98 equality)

-- A failed `TEST_ASSERT_ONE_OF` alone leaves the exit code 0.
one_of_ignored : (run ((99 ∷ []) ∷ []) suite 10).0 ≡ 0
unfolding run
one_of_ignored = refl
