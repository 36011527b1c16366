-- ===== src/ThreadPool/Fifo.antt =====
-- Whatever the interleaving, the workers take the tasks in the order of the pushes.
use asyncxx.Base.{
  ◌≡◌, refl, sym, ap, ◌∙◌, List, [], ◌∷◌, ◌++◌, Option, none, some, Bool, true, false, All,
  append-nil, append_assoc,
}
use asyncxx.ThreadPool.{Pool, Action, push, clear_queue, step, steps, steps_from}
use asyncxx.ThreadPool.Rules.{
  Step, pushes, notifies, notifies_nobody, takes, terminates, finishes, tires, sleeps, wakes_up,
  ends, clears, raises_finish, raises_terminate, notifies_all, joins,
}
use asyncxx.ThreadPool.Steps.{Step-step}

module _ {ℓ} {T : Type ℓ} where
  -- The tasks that an action pushes.
  abbrev pub pushed : Action T → List T
  pushed (push task) = task ∷ []
  pushed _ = []

  abbrev pub all_pushed : List (Action T) → List T
  all_pushed [] = []
  all_pushed (a ∷ acts) = pushed a ++ all_pushed acts

  abbrev pub no_clear : Action T → Bool
  no_clear clear_queue = false
  no_clear _ = true

  -- The tasks taken and the tasks to be taken.
  abbrev pub history : Pool T → List T
  history s = s.started ++ s.queue

  Step-history :
      {s q : Pool T} {a : Action T}
      → Step s a q
      → no_clear a ≡ true
      → history q ≡ history s ++ pushed a
  Step-history {s} (pushes {task}) h = sym (append_assoc s.started s.queue (task ∷ []))
  Step-history {s} (takes {i} {task} {rest} p e) h =
      append_assoc s.started (task ∷ []) rest
      ∙ ap (λ ts. s.started ++ ts) (sym e)
      ∙ sym (append-nil (history s))
  Step-history clears h = absurd (cc)
  Step-history {s} (notifies e p) h = sym (append-nil (history s))
  Step-history {s} (notifies_nobody e) h = sym (append-nil (history s))
  Step-history {s} (terminates p e) h = sym (append-nil (history s))
  Step-history {s} (finishes p e) h = sym (append-nil (history s))
  Step-history {s} (tires p) h = sym (append-nil (history s))
  Step-history {s} (sleeps p) h = sym (append-nil (history s))
  Step-history {s} (wakes_up p) h = sym (append-nil (history s))
  Step-history {s} (ends p) h = sym (append-nil (history s))
  Step-history {s} raises_finish h = sym (append-nil (history s))
  Step-history {s} raises_terminate h = sym (append-nil (history s))
  Step-history {s} (notifies_all e) h = sym (append-nil (history s))
  Step-history {s} (joins e) h = sym (append-nil (history s))

  abbrev history_of : Pool T → Option (Pool T) → List T
  history_of s none = history s
  history_of s (some q) = history q

  -- Over any interleaving of the threads in which nobody clears the queue, what the workers have
  -- taken, in order, and what still waits is what waited before and what was pushed, in order: no
  -- task is lost, taken twice or overtaken.
  pub steps-history :
      (acts : List (Action T)) (s q : Pool T)
      → All (λ a. no_clear a ≡ true) acts
      → steps acts s ≡ some q
      → history q ≡ history s ++ all_pushed acts
  unfolding steps
  steps-history [] s q h e = ap (history_of s) (sym e) ∙ sym (append-nil (history s))
  steps-history (a ∷ acts) s q h e = go (step a s) refl e (λ m. steps-history acts m q h.1)
    where
      go :
          (o : Option (Pool T))
          → step a s ≡ o
          → steps_from (steps acts) o ≡ some q
          → ((m : Pool T) → steps acts m ≡ some q → history q ≡ history m ++ all_pushed acts)
          → history q ≡ history s ++ (pushed a ++ all_pushed acts)
      go none d e ih = absurd (cc)
      go (some m) d e ih =
          ih m e
          ∙ ap (λ ts. ts ++ all_pushed acts) (Step-history (Step-step a s d) h.0)
          ∙ append_assoc (history s) (pushed a) (all_pushed acts)
