-- ===== src/Loop/Busy/Turn.antt =====
-- One turn of a task that computes and yields, in `cycle` of include/async/loop.h.
use asyncxx.Base.{
  ℕ, zero, suc, ◌+◌, ◌<◌, ◌≤◌, ◌≡◌, refl, sym, ap, ◌∙◌, subst, Bool, true, false, ◌&&◌, ◌||◌,
  if◌then◌else◌, List, [], ◌∷◌, none, some, arith, get_elem?, erase_at, length, length-erase_at,
  ◌⊎◌, inl, inr, Bool-cases,
}
use asyncxx.Api.{TaskId, main_task_exited}
use asyncxx.Task.{State, Task, Program}
use asyncxx.StackPool.{free}
use asyncxx.Loop.Types.{Config, EventLoop, Outcome, is_empty}
use asyncxx.Loop.Cleanup.{clean_up_task, cancel_pending, is_main, unfinished}
use asyncxx.Loop.Cycle.{
  exec, after_slice, modify_at, modify_current, advance, finished, set_state, resume, run_task,
}
use asyncxx.Loop.Busy.{Rounds, Fits, over, fresh, amid, Busy, modify_at-modify_at, slice}

length-modify_at {ℓ κ} :
    {V : Type ℓ} {U : Type κ} (i : ℕ) (f : Task V U → Task V U) (ts : List (Task V U))
    → length (modify_at i f ts) ≡ length ts
unfolding modify_at
length-modify_at i f [] = refl
length-modify_at zero f (t ∷ ts) = refl
length-modify_at (suc i) f (t ∷ ts) = ap suc (length-modify_at i f ts)

module _ {ℓ κ} {V : Type ℓ} {U : Type κ} where
  -- The tasks of the loop take `n` cycles at most, and nothing is to start or to be woken.
  pub record Working (n : ℕ) (l : EventLoop V U) : Type (ℓ ⊔ κ) where
    pub busy : Busy l.tasks n
    pub in_range : l.current ≤ length l.tasks
    pub none_to_wake : l.shared.heap.to_wake ≡ []
    pub none_to_start : l.to_start ≡ []
    pub running : (l.running ≡ true × 0 < length l.tasks) ⊎ (l.running ≡ false × l.tasks ≡ [])

  -- What a cycle leaves: less to do, or the exception.
  abbrev pub Less : ℕ → Outcome (EventLoop V U) → Type (ℓ ⊔ κ)
  Less n o =
      ((m : EventLoop V U) × (k : ℕ) × (o ≡ Outcome.ok m) × (k < n) × Working k m)
      ⊎ ((m : EventLoop V U) × (o ≡ Outcome.raised main_task_exited m))

  pub Less-suc : {n : ℕ} {o q : Outcome (EventLoop V U)} → q ≡ o → Less n o → Less n q
  Less-suc e (inl (m, k, x, h, a)) = inl (m, k, e ∙ x, h, a)
  Less-suc e (inr (m, x)) = inr (m, e ∙ x)

  left_running :
      (rest : List (Task V U)) (b : Bool)
      → b ≡ true
      → (((if is_empty rest then false else b) ≡ true) × (0 < length rest))
        ⊎ (((if is_empty rest then false else b) ≡ false) × (rest ≡ []))
  left_running [] b h = inr (refl, refl)
  left_running (t ∷ ts) b h = inl (h, omega arith)

  module _ (c : Config) where
    -- A slice of the current task `u`.
    slice-Less :
        {j : ℕ} {p : Program V U} (u : Task V U) (id : TaskId) (n m : ℕ) (l : EventLoop V U)
        → Rounds j p
        → u.state ≡ State.exec
        → u.result_future ≡ none
        → ((g : Task V U → Task V U) (v : ℕ)
            → Fits (g u) v
            → Busy (modify_at l.current g l.tasks) (v + m))
        → l.current < length l.tasks
        → l.shared.heap.to_wake ≡ []
        → l.to_start ≡ []
        → l.running ≡ true
        → n ≡ suc (suc j) + m
        → Less n (after_slice c (exec c id p l))
    slice-Less {j} {p} u id n m l r st rf change h w ts run e =
        let (s, q, o) = slice c r id l in
        elim o [
          | inl x ↦
              let g : Task V U → Task V U = λ t. record t { state = State.done; ctx = none } in
              let len = length-modify_at l.current g l.tasks in
              inl (
                finished (record l { shared = s }),
                1 + m,
                x,
                omega (arith, e),
                record {
                  busy = change g 1 (over refl rf);
                  in_range = omega (arith, len, h);
                  none_to_wake = q ∙ w;
                  none_to_start = ts;
                  running = inl (run, omega (arith, len, h));
                },
              )
          | inr (k, i, d, r', x) ↦
              let g : Task V U → Task V U = λ t. record t { ctx = some k } in
              let len = length-modify_at l.current g l.tasks in
              inl (
                advance (modify_current g (record l { shared = s })),
                suc (suc i) + m,
                x,
                omega (arith, e, d),
                record {
                  busy = change g (suc (suc i)) (amid st rf k refl r');
                  in_range = omega (arith, len, h);
                  none_to_wake = q ∙ w;
                  none_to_start = ts;
                  running = inl (run, omega (arith, len, h));
                },
              )
        ]

    abbrev cleaned : Task V U → EventLoop V U → EventLoop V U
    cleaned t l =
        let rest = erase_at l.tasks l.current in
        record l {
          shared = record {
            heap = cancel_pending t.result_future l.shared.heap;
            user = l.shared.user;
          };
          stacks = free t.stack.0 l.stacks;
          tasks = rest;
          running = if is_empty rest then false else l.running;
        }

    -- A task that is done is deleted.
    clean_up-Less :
        (t : Task V U) (m : ℕ) (l : EventLoop V U)
        → t.result_future ≡ none
        → Busy (erase_at l.tasks l.current) m
        → l.current < length l.tasks
        → l.shared.heap.to_wake ≡ []
        → l.to_start ≡ []
        → l.running ≡ true
        → Less (1 + m) (clean_up_task t l)
    unfolding clean_up_task cancel_pending
    clean_up-Less t m l rf b h w ts run =
        let rest = erase_at l.tasks l.current in
        let len = length-erase_at l.tasks l.current h in
        elim (Bool-cases
          (is_main t.id l.main_task_id && (unfinished l.tasks || unfinished l.to_start))) [
            | inl y ↦ inr (l, rw y refl)
            | inr y ↦ inl (
              cleaned t l,
              m,
              rw y refl,
              omega arith,
              record {
                busy = b;
                in_range = omega (arith, len, h);
                none_to_wake = ap (λ f. (cancel_pending f l.shared.heap).to_wake) rf ∙ w;
                none_to_start = ts;
                running = left_running rest l.running run;
              },
            )
          ]

    pub turn-Less :
        (t : Task V U) {w : ℕ} (m : ℕ) (l : EventLoop V U)
        → Fits t w
        → ((g : Task V U → Task V U) (v : ℕ)
            → Fits (g t) v
            → Busy (modify_at l.current g l.tasks) (v + m))
        → Busy (erase_at l.tasks l.current) m
        → get_elem? l.tasks l.current ≡ some t
        → l.current < length l.tasks
        → l.shared.heap.to_wake ≡ []
        → l.to_start ≡ []
        → l.running ≡ true
        → Less (w + m) (run_task c t.state t l)
    unfolding run_task resume
    turn-Less t m l (over s rf) change gone e h z ts run =
        Less-suc (ap (λ x. run_task c x t l) s) (clean_up-Less t m l rf gone h z ts run)
    turn-Less t m l (fresh {n} s rf r) change gone e h z ts run =
        let f : Task V U → Task V U = λ x. record x { state = State.exec } in
        let len = length-modify_at l.current f l.tasks in
        Less-suc (ap (λ x. run_task c x t l) s) (
          slice-Less (f t) t.id (suc (suc n) + m) m (set_state State.exec l) r refl rf
            (λ g v x.
              subst (λ us. Busy us (v + m)) (sym (modify_at-modify_at l.current f g l.tasks))
                (change (λ y. g (f y)) v x))
            (omega (arith, len, h)) z ts run refl)
    turn-Less t m l (amid {n} s rf p x r) change gone e h z ts run =
        Less-suc (ap (λ y. run_task c y t l) s ∙ ap (λ y. resume c y t.id l) x)
          (slice-Less t t.id (suc (suc n) + m) m l r s rf change h z ts run refl)
