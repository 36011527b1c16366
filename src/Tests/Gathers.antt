-- ===== src/Tests/Gathers.antt =====
-- `gather` at work on two futures that other tasks complete.
use asyncxx.Base.{ℕ, zero, suc, ◌≡◌, refl, true, [], ◌∷◌, List, some, All, get_elem?}
use asyncxx.FutureState
use asyncxx.Future.{Future, Ref, find, save_waiter_at, after_wait, get}
use asyncxx.Task.{Shared, finish}
use asyncxx.Async.{gather, with_heap}
use asyncxx.Async.Gather.{Completed, Keeps, gather_lem}
use asyncxx.Async.Gather.Ends.{after_woken, Fine, gather_ends}

abbrev pending : Future ℕ
pending = record { state = FutureState.create; result = 0 }

abbrev filled : Future ℕ
filled = record { state = record FutureState.create { completed = true }; result = 5 }

-- The second future is completed already.
abbrev before : Shared ℕ ℕ
before = record { heap = record { futures = pending ∷ filled ∷ []; to_wake = [] }; user = 0 }

-- The others complete every future there is.
abbrev with_flag : Future ℕ → Future ℕ
with_flag f = record f { state = record f.state { completed = true } }

abbrev completed_each : List (Future ℕ) → List (Future ℕ)
completed_each [] = []
completed_each (f ∷ fs) = with_flag f ∷ completed_each fs

abbrev others : Shared ℕ ℕ → Shared ℕ ℕ
others s = record s { heap = record s.heap { futures = completed_each s.heap.futures } }

-- The worker of the task 0 is on record in the first future when it has gone to sleep.
abbrev saved : Shared ℕ ℕ → Shared ℕ ℕ
saved s = with_heap (save_waiter_at 0 0) s

get_elem?-completed_each :
    (fs : List (Future ℕ)) (r : Ref) {f : Future ℕ}
    → get_elem? fs r ≡ some f
    → get_elem? (completed_each fs) r ≡ some (with_flag f)
get_elem?-completed_each [] r h = absurd (cc)
get_elem?-completed_each (g ∷ fs) zero h = cc
get_elem?-completed_each (g ∷ fs) (suc r) h = get_elem?-completed_each fs r h

others-Keeps : Keeps others
unfolding find
others-Keeps s r (f, e, c) = (with_flag f, get_elem?-completed_each s.heap.futures r e, refl)

gather_lem_example : All (Completed (others (saved before)).heap) (0 ∷ 1 ∷ [])
unfolding find gather save_waiter_at after_wait FutureState.save_waiter get
gather_lem_example =
    gather_lem 0 (0 ∷ 1 ∷ []) (others ∷ []) before (others (saved before)) (others-Keeps, tt) refl

-- The task 4 sleeps at the future 0; the others complete the future 1 once more, and then 0.
gather_ends_example :
    (t : Shared ℕ ℕ) × (after_woken 4
        (((1, 6) ∷ (0, 7) ∷ []) ∷ [])
        (gather (0 ∷ 1 ∷ []) finish)
        before
      ≡ some t)
    × All (Fine t.heap) (0 ∷ 1 ∷ [])
unfolding find
gather_ends_example =
    gather_ends 4 (0 ∷ 1 ∷ []) ((1, 6) ∷ (0, 7) ∷ []) [] before
      ((pending, refl, refl), ((filled, refl, refl), tt)) (refl, (refl, tt))
