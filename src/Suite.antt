-- ===== src/Suite.antt =====
-- The tests' own framework, src/test.h, and src/main.cc. A test reads and changes memory of a type `W`,
-- and may read `suite->current`; what is printed is left out.
pub mod Tally
use asyncxx.Base.{
  ℕ, suc, ◌+◌, Bool, true, false, if◌then◌else◌, List, [], ◌∷◌, ◌++◌, same_text, map, ltb,
}
use asyncxx.Task.{Name}

-- How a test function ends: it returns, or throws `AssertionError`, `AssertionEqualityError`,
-- `AssertionOneOfError`, another `std::exception`, or something else.
pub data Verdict : Type 0 where
  returned assertion equality one_of other_exception unknown : Verdict

pub record Test {ℓ} (W : Type ℓ) : Type ℓ where
  pub name : Name
  pub desc : List ℕ
  pub fn : ℕ → W → Verdict × W

pub record TestSuite {ℓ} (W : Type ℓ) : Type ℓ where
  pub name : Name
  pub tests : List (Test W)
  pub current : ℕ

pub record Statistics : Type 0 where
  pub passed : ℕ
  pub failed : ℕ
  pub errors : ℕ

abbrev pub no_statistics : Statistics
no_statistics = record { passed = 0; failed = 0; errors = 0 }

unfoldable pub report_success : Statistics → Statistics
report_success stat = record stat { passed = stat.passed + 1 }

unfoldable pub report_failure : Statistics → Statistics
report_failure stat = record stat { failed = stat.failed + 1 }

unfoldable pub report_error : Statistics → Statistics
report_error stat = record stat { errors = stat.errors + 1 }

-- The handlers of `run`, tried in order: `AssertionOneOfError` is a `std::exception`.
unfoldable pub report : Verdict → Statistics → Statistics
unfolding report_success report_failure report_error
report returned stat = report_success stat
report assertion stat = report_failure stat
report equality stat = report_failure stat
report one_of stat = report_error stat
report other_exception stat = report_error stat
report unknown stat = report_error stat

-- `std::find(to_run.begin(), to_run.end(), name) != to_run.end()`
unfoldable pub has_to_run : List Name → Name → Bool
has_to_run [] name = false
has_to_run (n ∷ ns) name = if same_text n name then true else has_to_run ns name

module _ {ℓ} {W : Type ℓ} where
  unfoldable pub register_test : Name → List ℕ → (ℕ → W → Verdict × W) → TestSuite W → TestSuite W
  register_test name desc fn suite = record suite {
    tests = suite.tests ++ record { name = name; desc = desc; fn = fn } ∷ [];
  }

  -- `if (to_run.empty()) …`
  abbrev pub names_to_run : List Name → List (Test W) → List Name
  names_to_run [] tests = map (λ t. t.name) tests
  names_to_run (n ∷ ns) tests = n ∷ ns

  -- The loop of `run` from the test `i` on, with `suite->current`.
  unfoldable pub run_from : List Name → ℕ → List (Test W) → ℕ → Statistics → W → ℕ × Statistics × W
  unfolding has_to_run report
  run_from to_run i [] current stat w = (current, stat, w)
  run_from to_run i (t ∷ ts) current stat w =
      let (v, w') = t.fn i w in
      let skipped = run_from to_run (suc i) ts current stat w in
      let ran = run_from to_run (suc i) ts i (report v stat) w' in
      if has_to_run to_run t.name then ran else skipped

  -- `run(suite, to_run)`: the exit code, the suite, the statistics that it prints, and the memory.
  unfoldable pub run : List Name → TestSuite W → W → ℕ × TestSuite W × Statistics × W
  unfolding run_from
  run to_run suite w =
      let (current, stat, w') =
        run_from (names_to_run to_run suite.tests) 0 suite.tests suite.current no_statistics w in
      (if ltb 0 stat.failed then 1 else 0, record suite { current = current }, stat, w')

  -- `main(argc, argv)`, of the arguments behind the program's name.
  unfoldable pub main : List Name → TestSuite W → W → ℕ × TestSuite W × Statistics × W
  unfolding run
  main args suite w = run args suite w
