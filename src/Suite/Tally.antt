-- ===== src/Suite/Tally.antt =====
-- What a run of the tests reports.
use asyncxx.Base.{
  ◌⊎◌, sym, ◌∙◌, same_text, same_text-eq, length, All, ℕ, suc, ◌+◌, ◌≡◌, ◌↔◌, refl, ap, Bool, true,
  false, if◌then◌else◌, List, [], ◌∷◌, same_text_self, map, arith, Bool-cases, inl, inr,
}
use asyncxx.Task.{Name}
use asyncxx.Suite.{
  Verdict, Test, TestSuite, Statistics, no_statistics, report, report_success, report_failure,
  report_error, has_to_run, names_to_run, run_from, run, returned, assertion, equality, one_of,
  other_exception, unknown,
}

abbrev pub is_pass : Verdict → Bool
is_pass returned = true
is_pass _ = false

abbrev pub is_failure : Verdict → Bool
is_failure assertion = true
is_failure equality = true
is_failure _ = false

abbrev pub is_error : Verdict → Bool
is_error one_of = true
is_error other_exception = true
is_error unknown = true
is_error _ = false

-- How many of the verdicts are of a kind.
abbrev pub count : (Verdict → Bool) → List Verdict → ℕ
count p [] = 0
count p (v ∷ vs) = (if p v then 1 else 0) + count p vs

-- A name stands in a list.
pub data Asked (name : Name) : List Name → Type 0 where
  here : {n : Name} {ns : List Name} → n ≡ name → Asked name (n ∷ ns)
  later : {n : Name} {ns : List Name} → Asked name ns → Asked name (n ∷ ns)

has_to_run-Asked : (ns : List Name) (name : Name) → has_to_run ns name ≡ true → Asked name ns
unfolding has_to_run
has_to_run-Asked [] name h = absurd (cc)
has_to_run-Asked (n ∷ ns) name h = elim (Bool-cases (same_text n name)) [
  | inl y ↦ here (same_text-eq n name y)
  | inr y ↦
      later
        (has_to_run-Asked ns name (sym (ap (λ b. if b then true else has_to_run ns name) y) ∙ h))
]

Asked-has_to_run : (ns : List Name) (name : Name) → Asked name ns → has_to_run ns name ≡ true
unfolding has_to_run
Asked-has_to_run [] name a = elim a [ ]
Asked-has_to_run (n ∷ ns) name (here e) =
    ap (λ b. if b then true else has_to_run ns name)
      (ap (λ m. same_text m name) e ∙ same_text_self name)
Asked-has_to_run (n ∷ ns) name (later a) = elim (Bool-cases (same_text n name)) [
  | inl y ↦ ap (λ b. if b then true else has_to_run ns name) y
  | inr y ↦ ap (λ b. if b then true else has_to_run ns name) y ∙ Asked-has_to_run ns name a
]

module _ {ℓ} {W : Type ℓ} where
  -- A test is chosen if nothing was asked for, or its name was.
  abbrev pub is_chosen : List Name → Test W → Bool
  is_chosen [] t = true
  is_chosen (n ∷ ns) t = has_to_run (n ∷ ns) t.name

  -- The verdicts of the chosen tests, done one after the other, and the memory behind them.
  abbrev pub performed : (Test W → Bool) → ℕ → List (Test W) → W → List Verdict × W
  performed p i [] w = ([], w)
  performed p i (t ∷ ts) w =
      let (v, w') = t.fn i w in
      let (vs, w'') = performed p (suc i) ts w' in
      let skipped = performed p (suc i) ts w in if p t then (v ∷ vs, w'') else skipped

  has_to_run-suc :
      (n : Name) (ns : List Name) (ts : List (Test W))
      → All (λ t. has_to_run ns t.name ≡ true) ts
      → All (λ t. has_to_run (n ∷ ns) t.name ≡ true) ts
  unfolding has_to_run
  has_to_run-suc n ns [] a = tt
  has_to_run-suc n ns (t ∷ ts) a = (ground (arith, a.0), has_to_run-suc n ns ts a.1)

  -- With nothing asked for, each test's name is among the names to run.
  has_to_run-names :
      (ts : List (Test W)) → All (λ t. has_to_run (map (λ t. t.name) ts) t.name ≡ true) ts
  unfolding has_to_run
  has_to_run-names [] = tt
  has_to_run-names (t ∷ ts) = (
    rw (same_text_self t.name) refl,
    has_to_run-suc t.name (map (λ t. t.name) ts) ts (has_to_run-names ts),
  )

  chosen_self :
      (n : Name) (ns : List Name) (ts : List (Test W))
      → All (λ t. has_to_run (n ∷ ns) t.name ≡ is_chosen (n ∷ ns) t) ts
  chosen_self n ns [] = tt
  chosen_self n ns (t ∷ ts) = (refl, chosen_self n ns ts)

  has_to_run-chosen :
      (to_run : List Name) (ts : List (Test W))
      → All (λ t. has_to_run (names_to_run to_run ts) t.name ≡ is_chosen to_run t) ts
  has_to_run-chosen [] ts = has_to_run-names ts
  has_to_run-chosen (n ∷ ns) ts = chosen_self n ns ts

-- The statistics with the verdicts counted in.
abbrev pub added : Statistics → List Verdict → Statistics
added stat vs = record {
  passed = stat.passed + count is_pass vs;
  failed = stat.failed + count is_failure vs;
  errors = stat.errors + count is_error vs;
}

added-report :
    (v : Verdict) (stat : Statistics) (vs : List Verdict)
    → added (report v stat) vs ≡ added stat (v ∷ vs)
unfolding report report_success report_failure report_error
added-report returned stat vs = ground arith
added-report assertion stat vs = ground arith
added-report equality stat vs = ground arith
added-report one_of stat vs = ground arith
added-report other_exception stat vs = ground arith
added-report unknown stat vs = ground arith

count-all :
    (vs : List Verdict) → count is_pass vs + count is_failure vs + count is_error vs ≡ length vs
count-all [] = refl
count-all (returned ∷ vs) = omega (arith, count-all vs)
count-all (assertion ∷ vs) = omega (arith, count-all vs)
count-all (equality ∷ vs) = omega (arith, count-all vs)
count-all (one_of ∷ vs) = omega (arith, count-all vs)
count-all (other_exception ∷ vs) = omega (arith, count-all vs)
count-all (unknown ∷ vs) = omega (arith, count-all vs)

count-none : (p : Verdict → Bool) (vs : List Verdict) → (count p vs ≡ 0) ↔ All (λ v. p v ≡ false) vs
count-none p [] = ground arith
count-none p (v ∷ vs) = ground (arith, count-none p vs)

module _ {ℓ} {W : Type ℓ} where
  run_from_lem :
      (names : List Name) (p : Test W → Bool) (i : ℕ) (ts : List (Test W)) (current : ℕ)
      (stat : Statistics) (w : W)
      → All (λ t. has_to_run names t.name ≡ p t) ts
      → let (vs, w') = performed p i ts w in
        let (current', stat', w'') = run_from names i ts current stat w in
        (stat' ≡ added stat vs) × (w'' ≡ w')
  unfolding run_from
  run_from_lem names p i [] current stat w a = (ground arith, refl)
  run_from_lem names p i (t ∷ ts) current stat w a = elim (Bool-cases (p t)) [
    | inl y ↦
        let (v, w') = t.fn i w in
        let (e, q) = run_from_lem names p (suc i) ts i (report v stat) w' a.1 in
        rw (a.0, y) (e ∙ added-report v stat (performed p (suc i) ts w').0, q)
    | inr n ↦ rw (a.0, n) (run_from_lem names p (suc i) ts current stat w a.1)
  ]

  chosen_lem :
      (to_run : List Name) (t : Test W)
      → (is_chosen to_run t ≡ true) ↔ ((to_run ≡ []) ⊎ Asked t.name to_run)
  chosen_lem [] t = ((λ e. inl refl), (λ a. refl))
  chosen_lem (n ∷ ns) t = (
    (λ e. inr (has_to_run-Asked (n ∷ ns) t.name e)),
    (λ a. elim a [ inl e ↦ absurd (cc) | inr x ↦ Asked-has_to_run (n ∷ ns) t.name x ]),
  )

  -- For every suite, selection and memory: `run` does the chosen tests, which are those whose names stand
  -- in the selection, or all of them if nothing is asked for, one after the other, and counts each of them
  -- once, as passed, failed or an error. The exit code is 0 exactly if none of them failed by
  -- `AssertionError` or `AssertionEqualityError`, whatever else they threw.
  pub run-added :
      (to_run : List Name) (suite : TestSuite W) (w : W) (t : Test W)
      → let (vs, w') = performed (is_chosen to_run) 0 suite.tests w in
        let (code, s, stat, w'') = run to_run suite w in
        (stat ≡ added no_statistics vs)
        × (stat.passed + stat.failed + stat.errors ≡ length vs)
        × (w'' ≡ w')
        × ((code ≡ 0) ↔ All (λ v. is_failure v ≡ false) vs)
        × ((is_chosen to_run t ≡ true) ↔ ((to_run ≡ []) ⊎ Asked t.name to_run))
  unfolding run
  run-added to_run suite w t =
      let (vs, w') = performed (is_chosen to_run) 0 suite.tests w in
      let (e, q) =
        run_from_lem (names_to_run to_run suite.tests) (is_chosen to_run) 0 suite.tests
          suite.current no_statistics w (has_to_run-chosen to_run suite.tests) in
      let none_failed = count-none is_failure vs in
      let total = ap (λ s. s.passed + s.failed + s.errors) e in
      (
        e,
        omega (arith, total, count-all vs),
        q,
        rw (e) (ground (arith, none_failed)),
        chosen_lem to_run t,
      )
