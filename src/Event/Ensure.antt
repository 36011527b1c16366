-- ===== src/Event/Ensure.antt =====
-- `Event::ensureNotifyOne` in include/async/event.h: it ends as soon as a task waits, and wakes it.
use asyncxx.Base.{ℕ, zero, suc, ◌<◌, ◌≡◌, List, [], ◌∷◌, some, arith}
use asyncxx.Api.{TaskId, Notifier}
use asyncxx.Event.{Event, ensure_notify_one}

module _ {ℓ} {L : Type ℓ} (n : Notifier L) (others : ℕ → Event × L → Event × L) where
  -- The event and the loop after the yields number i to i + k - 1.
  abbrev pub yields : ℕ → ℕ → Event × L → Event × L
  yields i zero s = s
  yields i (suc k) s = yields (suc i) k (others i s)

  -- The line is empty before each of those yields.
  abbrev pub IsQuiet : ℕ → ℕ → Event × L → Type 0
  IsQuiet i zero s = Unit
  IsQuiet i (suc k) s = (s.0.list ≡ []) × IsQuiet (suc i) k (others i s)

  -- If the line is empty before the first k yields and a task waits after them, then `ensureNotifyOne`
  -- ends on any fuel above k: it wakes the first task in line, once, after exactly those yields.
  pub ensure_ends :
      (k fuel i : ℕ) (s : Event × L) (t : TaskId) (ts : List TaskId)
      → k < fuel
      → IsQuiet i k s
      → (yields i k s).0.list ≡ t ∷ ts
      → ensure_notify_one n others fuel i s
        ≡ some (record { list = ts }, n.notify t (yields i k s).1)
  unfolding ensure_notify_one
  ensure_ends k zero i s t ts h q e = absurd (omega arith)
  ensure_ends zero (suc fuel) i s t ts h q e = ground arith
  ensure_ends (suc k) (suc fuel) i s t ts h q e =
      ground (arith, ensure_ends k fuel (suc i) (others i s) t ts)
