-- ===== src/Loop/Turns.antt =====
-- In which order `cycle` of include/async/loop.h gives the tasks their turns.
use asyncxx.Base.{ℕ, zero, suc, ◌≤◌, ◌≡◌, refl, sym, ap, ◌∙◌, subst, some, dec_lt, arith, get_elem?}
use asyncxx.Api.{TaskId}
use asyncxx.Loop.Types.{Config, EventLoop, Outcome, ok, raised, fault, ◌>>=◌}
use asyncxx.Loop.Cycle.{cycle}
use asyncxx.Loop.Wakeups.{ids}
use asyncxx.Loop.Nearer.{Ahead, distance, Nearer, cycle-Nearer}

module _ {ℓ κ} {V : Type ℓ} {U : Type κ} where
  module _ (c : Config) where
    -- `n` cycles, unless one of them throws or has no meaning.
    unfoldable pub cycles : ℕ → EventLoop V U → Outcome (EventLoop V U)
    unfolding cycle
    cycles zero l = ok l
    cycles (suc n) l = cycle c l >>= cycles n

    -- It is the turn of task `x`.
    abbrev pub HasTurn : TaskId → Outcome (EventLoop V U) → Type 0
    HasTurn x (ok m) = get_elem? (ids m.tasks) m.current ≡ some x
    HasTurn x (raised e m) = Unit
    HasTurn x (fault y) = Unit

    at_turn :
        (x : TaskId) (j : ℕ) (l : EventLoop V U)
        → Ahead x j l
        → l.current ≡ j
        → get_elem? (ids l.tasks) l.current ≡ some x
    at_turn x j l a e = ap (get_elem? (ids l.tasks)) e ∙ a.there

    turn_within :
        (d : ℕ) (x : TaskId) (j : ℕ) (l : EventLoop V U)
        → Ahead x j l
        → distance j l ≤ d
        → (n : ℕ) × (n ≤ d) × HasTurn x (cycles n l)
    unfolding cycles
    turn_within zero x j l a h = elim (dec_lt l.current j) [
      | yes before ↦ absurd (omega arith)
      | no now ↦ (0, omega arith, at_turn x j l a (omega (arith, a.not_passed)))
    ]
    turn_within (suc d) x j l a h = elim (dec_lt l.current j) [
      | yes before ↦
          go (cycle c l) refl (cycle-Nearer c x j l before a)
            (λ j' m a' h'. turn_within d x j' m a' h')
      | no now ↦ (0, omega arith, at_turn x j l a (omega (arith, a.not_passed)))
    ]
      where
        go :
            (o : Outcome (EventLoop V U))
            → cycle c l ≡ o
            → Nearer x (distance j l) o
            → ((j' : ℕ) (m : EventLoop V U)
                → Ahead x j' m
                → distance j' m ≤ d
                → (n : ℕ) × (n ≤ d) × HasTurn x (cycles n m))
            → (n : ℕ) × (n ≤ suc d) × HasTurn x (cycles n l)
        go (ok m) e (j', a', near) ih =
            let (n, le, turn) = ih j' m a' (omega arith) in
            (suc n, omega arith, subst (λ o. HasTurn x (o >>= cycles n)) (sym e) turn)
        go (raised y m) e near ih =
            (1, omega arith, subst (λ o. HasTurn x (o >>= cycles 0)) (sym e) tt)
        go (fault y) e near ih =
            (1, omega arith, subst (λ o. HasTurn x (o >>= cycles 0)) (sym e) tt)

    -- A task whose turn of the round is not over gets it: after at most twice as many cycles as there are
    -- tasks before it, and one more, it is its turn, unless a cycle throws or has no meaning; whatever
    -- the other tasks do, if they wait, end, start tasks or wake them.
    pub turn_comes :
        (x : TaskId) (j : ℕ) (l : EventLoop V U)
        → Ahead x j l
        → (n : ℕ) × (n ≤ distance j l) × HasTurn x (cycles n l)
    turn_comes x j l a = turn_within (distance j l) x j l a (omega arith)
