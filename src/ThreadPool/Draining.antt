-- ===== src/ThreadPool/Draining.antt =====
-- `waitAll` of include/async/pool.h returns only when no task waits any more.
use asyncxx.Base.{
  ℕ, zero, suc, ◌<◌, ◌≡◌, ◌⊎◌, inl, inr, refl, sym, ap, ◌∙◌, List, [], ◌∷◌, ◌++◌, some, Bool, true,
  false, ◌||◌, All, arith, set, map, length, length-set, append-nil,
}
use asyncxx.ThreadPool.{
  Pool, Phase, Stage, Action, push, clear_queue, set_terminate, steps, all_gone, at_top, to_sleep,
  asleep, in_task, gone, returned, is_gone, wake, flag_terminate,
}
use asyncxx.ThreadPool.Rules.{
  Step, pushes, notifies, notifies_nobody, takes, terminates, finishes, tires, sleeps, wakes_up,
  ends, clears, raises_finish, raises_terminate, notifies_all, joins,
}
use asyncxx.ThreadPool.Steps.{steps-keep}
use asyncxx.ThreadPool.Fifo.{no_clear, pushed, all_pushed, steps-history}
use asyncxx.Flags.{get_flag, set_flag_lem}

abbrev is_returned : Stage → Bool
is_returned returned = true
is_returned _ = false

module _ {ℓ} {T : Type ℓ} where
  unfoldable pub any_gone : List (Phase T) → Bool
  any_gone [] = false
  any_gone (p ∷ ps) = is_gone p || any_gone ps

  any_gone-set :
      (ps : List (Phase T)) (i : ℕ) (p : Phase T)
      → any_gone ps ≡ false
      → is_gone p ≡ false
      → any_gone (set ps i p) ≡ false
  unfolding any_gone
  any_gone-set [] i p h g = refl
  any_gone-set (x ∷ ps) zero p h g = ground (arith, h, g)
  any_gone-set (x ∷ ps) (suc i) p h g = ground (arith, h, any_gone-set ps i p)

  any_gone-wake : (ps : List (Phase T)) → any_gone (map wake ps) ≡ any_gone ps
  unfolding any_gone
  any_gone-wake [] = refl
  any_gone-wake (at_top ∷ ps) = any_gone-wake ps
  any_gone-wake (to_sleep ∷ ps) = any_gone-wake ps
  any_gone-wake (asleep ∷ ps) = any_gone-wake ps
  any_gone-wake (in_task t ∷ ps) = any_gone-wake ps
  any_gone-wake (gone ∷ ps) = refl

  length-wake : (ps : List (Phase T)) → length (map wake ps) ≡ length ps
  length-wake [] = refl
  length-wake (p ∷ ps) = ap suc (length-wake ps)

  all_gone-any_gone :
      (ps : List (Phase T)) → all_gone ps ≡ true → 0 < length ps → any_gone ps ≡ true
  unfolding all_gone any_gone
  all_gone-any_gone [] h l = elim l [ ]
  all_gone-any_gone (p ∷ ps) h l = ground (arith, h)

  -- Nobody asked the workers to leave their tasks; while a task waits, no worker is gone, there is
  -- a worker, and the pool is not stopped.
  pub record Draining (s : Pool T) : Type ℓ where
    pub byte : s.flags < 256
    pub no_terminate : get_flag flag_terminate s.flags ≡ false
    pub drained : (s.queue ≡ []) ⊎ (any_gone s.threads ≡ false)
    pub joined : (s.queue ≡ []) ⊎ ((0 < length s.threads) × (is_returned s.caller ≡ false))

  -- Only what the workers and `waitAll` do.
  abbrev pub winding_down : Action T → Bool
  winding_down (push task) = false
  winding_down clear_queue = false
  winding_down set_terminate = false
  winding_down _ = true

  -- A move of a worker that does not go.
  moved :
      (i : ℕ) (p : Phase T) (s q : Pool T)
      → Draining s
      → is_gone p ≡ false
      → q.threads ≡ set s.threads i p
      → q.flags ≡ s.flags
      → q.caller ≡ s.caller
      → q.queue ≡ s.queue
      → Draining q
  moved i p s q k g t f c e =
      let n = any_gone-set s.threads i p in
      let l = length-set s.threads i p in
      record {
        byte = ground (arith, k.byte, f);
        no_terminate = ap (get_flag flag_terminate) f ∙ k.no_terminate;
        drained = ground (arith, k.drained, n, g, t, e);
        joined = ground (arith, k.joined, l, t, e, c);
      }

  taken :
      (i : ℕ) (task : T) (rest : List T) (s q : Pool T)
      → Draining s
      → s.queue ≡ task ∷ rest
      → q.threads ≡ set s.threads i (in_task task)
      → q.flags ≡ s.flags
      → q.caller ≡ s.caller
      → Draining q
  taken i task rest s q k g t f c =
      let n = any_gone-set s.threads i (in_task task) in
      let l = length-set s.threads i (in_task task) in
      record {
        byte = ground (arith, k.byte, f);
        no_terminate = ap (get_flag flag_terminate) f ∙ k.no_terminate;
        drained = ground (arith, k.drained, n, g, t);
        joined = ground (arith, k.joined, l, t, g, c);
      }

  all_joined : (s : Pool T) → Draining s → all_gone s.threads ≡ true → s.queue ≡ []
  all_joined s k h = elim k.joined [
    | inl e ↦ e
    | inr l ↦ ground (arith, k.drained, all_gone-any_gone s.threads h l.0)
  ]

  Step-Draining :
      {a : Action T} {s q : Pool T} → Step s a q → winding_down a ≡ true → Draining s → Draining q
  Step-Draining pushes h k = absurd (cc)
  Step-Draining {s} {q} (notifies {i} e p) h k = moved i at_top s q k refl refl refl refl refl
  Step-Draining (notifies_nobody e) h k = record {
    byte = k.byte;
    no_terminate = k.no_terminate;
    drained = k.drained;
    joined = k.joined;
  }
  Step-Draining {s} {q} (takes {i} {task} {rest} p e) h k = taken i task rest s q k e refl refl refl
  Step-Draining {s} {q} (terminates {i} p e) h k = absurd (cc (k.no_terminate, e))
  Step-Draining {s} {q} (finishes {i} p e) h k = record {
    byte = k.byte;
    no_terminate = k.no_terminate;
    drained = inl e;
    joined = inl e;
  }
  Step-Draining {s} {q} (tires {i} p) h k = moved i to_sleep s q k refl refl refl refl refl
  Step-Draining {s} {q} (sleeps {i} p) h k = moved i asleep s q k refl refl refl refl refl
  Step-Draining {s} {q} (wakes_up {i} p) h k = moved i at_top s q k refl refl refl refl refl
  Step-Draining {s} {q} (ends {i} {task} p) h k = moved i at_top s q k refl refl refl refl refl
  Step-Draining clears h k = absurd (cc)
  Step-Draining {s} raises_finish h k =
      let law = set_flag_lem true 1 2 s.flags (omega arith) (omega arith) k.byte in
      record {
        byte = law.0;
        no_terminate = law.1 ∙ k.no_terminate;
        drained = k.drained;
        joined = ground (arith, k.joined);
      }
  Step-Draining raises_terminate h k = absurd (cc)
  Step-Draining {s} (notifies_all e) h k = record {
    byte = k.byte;
    no_terminate = k.no_terminate;
    drained = ground (arith, k.drained, any_gone-wake s.threads);
    joined = ground (arith, k.joined, length-wake s.threads);
  }
  Step-Draining {s} (joins e) h k =
      let law = set_flag_lem true 0 2 s.flags (omega arith) (omega arith) k.byte in
      let empty = all_joined s k e in
      record {
        byte = law.0;
        no_terminate = law.1 ∙ k.no_terminate;
        drained = inl empty;
        joined = inl empty;
      }

  only_draining :
      (acts : List (Action T))
      → All (λ a. winding_down a ≡ true) acts
      → All (λ a. no_clear a ≡ true) acts × (all_pushed acts ≡ [])
  only_draining [] h = (tt, refl)
  only_draining (a ∷ acts) h =
      let (rest, none_pushed) = only_draining acts h.1 in
      let here : (no_clear a ≡ true) × (pushed a ≡ []) = ground (arith, h.0) in
      ((here.0, rest), ap (λ ts. ts ++ all_pushed acts) here.1 ∙ none_pushed)

  -- For a pool that is draining (`terminateAll` was not called, no worker is gone unless no task
  -- waits, and it has a worker and was not stopped unless no task waits): when `waitAll` has
  -- returned, in whatever interleaving of steps but pushes, `clear` and `terminateAll`, the queue
  -- is empty, and the workers have taken every task that waited, in order.
  pub wait_all_lem :
      (acts : List (Action T)) (s q : Pool T)
      → All (λ a. winding_down a ≡ true) acts
      → Draining s
      → steps acts s ≡ some q
      → q.caller ≡ returned
      → (q.queue ≡ []) × (q.started ≡ s.started ++ s.queue)
  wait_all_lem acts s q h k e r =
      let drained =
        steps-keep winding_down Draining (λ a m n st ok d. Step-Draining st ok d) acts s q h k e in
      let empty : q.queue ≡ [] = ground (arith, drained.joined, r) in
      let (kept, none_pushed) = only_draining acts h in
      let all = steps-history acts s q kept e in
      (
        empty,
        sym (append-nil q.started)
            ∙ ap (λ ts. q.started ++ ts) (sym empty)
            ∙ all
            ∙ ap (λ ts. s.started ++ s.queue ++ ts) none_pushed
            ∙ append-nil (s.started ++ s.queue),
      )
