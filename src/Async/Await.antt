-- ===== src/Async/Await.antt =====
-- `Future::await` of include/async/future.h, as the loop runs it.
use asyncxx.Base.{
  ℕ, zero, suc, ◌+◌, ◌<◌, ◌≡◌, refl, ap, ◌∙◌, true, false, [], ◌∷◌, none, some, arith, length, All,
  lt-get_elem?, All-get_elem?, append-nil, ◌==◌, Bool-cases, inl, inr, ◌≤◌, if◌then◌else◌,
}
use asyncxx.Api.{TaskId, Result}
use asyncxx.Future.{
  Ref, Future, Heap, find, complete_at, cancel_at, save_waiter_at, after_wait, update,
}
use asyncxx.Future
use asyncxx.Future.Laws.{save_waiter_at-wakes}
use asyncxx.Task.{State, Task, Program}
use asyncxx.Loop.Types.{Config, EventLoop, Outcome, suspended, ◌>>=◌}
use asyncxx.Loop.Cycle.{
  exec, resume, after_slice, set_state, modify_at, run_until_completed, cycle, schedule, run_task,
}
use asyncxx.Loop.Sync.{process_sync, wake_each}
use asyncxx.Async.{await, await_found, with_heap, deliver}

module _ {ℓ κ} {V : Type ℓ} {U : Type κ} (c : Config) where
  -- The rest of a worker that waits for a future.
  abbrev pub woken : Ref → (Result V → Program V U) → Program V U
  woken r k = Program.act (λ _ t. t) (λ _ t. deliver k after_wait (find r t.heap))

  -- `await` of a completed future goes on at once with what `get` gives; of any other, also of one
  -- that was cancelled before, it saves the task among the future's waiters and suspends it in the
  -- state `WAIT`, with nobody notified.
  pub exec-await :
      (self : TaskId) (r : Ref) (k : Result V → Program V U) (l : EventLoop V U) (f : Future V)
      → find r l.shared.heap ≡ some f
      → exec c self (await r k) l ≡ (
          if f.state.completed then exec c self (k (Future.get f)) l else (
            set_state State.wait (record l { shared = with_heap (save_waiter_at r self) l.shared }),
            suspended (woken r k),
          ))
  unfolding exec await
  exec-await self r k l f e =
      ap (λ o. exec c self (await_found r k o) l) e
      ∙ elim (Bool-cases f.state.completed) [ inl y ↦ rw y | inr n ↦ rw n ]

  -- Nothing is to be woken or started, and all tasks wait.
  pub record IsStuck (l : EventLoop V U) : Type (ℓ ⊔ κ) where
    pub running : l.running ≡ true
    pub some_task : 0 < length l.tasks
    pub all_wait : All (λ t. t.state ≡ State.wait) l.tasks
    pub none_to_wake : l.shared.heap.to_wake ≡ []
    pub none_to_start : l.to_start ≡ []
    pub in_range : l.current ≤ length l.tasks

  pub process_sync_quiet :
      (l : EventLoop V U)
      → l.shared.heap.to_wake ≡ []
      → l.to_start ≡ []
      → process_sync l ≡ Outcome.ok l
  unfolding process_sync wake_each
  process_sync_quiet l w s = rw (w, process_sync) (ground (arith, append-nil l.tasks))

  schedule_waits :
      (l : EventLoop V U)
      → IsStuck l
      → (i : ℕ) × (schedule c l ≡ Outcome.ok (record l { current = i + 1 })) × (i < length l.tasks)
  unfolding schedule
  schedule_waits l s =
      let i = if l.current == length l.tasks then 0 else l.current in
      let lt : i < length l.tasks = ground (arith, s.in_range, s.some_task) in
      let (t, e) = lt-get_elem? l.tasks i lt in
      let waits = All-get_elem? (λ u. u.state ≡ State.wait) l.tasks i e s.all_wait in
      (i, rw e (rw waits), lt)

  cycle-IsStuck :
      (l : EventLoop V U) → IsStuck l → (m : EventLoop V U) × (cycle c l ≡ Outcome.ok m) × IsStuck m
  unfolding cycle
  cycle-IsStuck l s =
      let (i, e, lt) = schedule_waits l s in
      (
        record l { current = i + 1 },
        rw (process_sync_quiet l s.none_to_wake s.none_to_start) e,
        record {
          running = s.running;
          some_task = s.some_task;
          all_wait = s.all_wait;
          none_to_wake = s.none_to_wake;
          none_to_start = s.none_to_start;
          in_range = omega arith;
        },
      )

  -- A loop whose tasks all wait, with nothing to wake or to start, cycles for ever.
  pub stuck_for_ever :
      (fuel : ℕ) (l : EventLoop V U) → IsStuck l → run_until_completed c fuel l ≡ none
  unfolding run_until_completed
  stuck_for_ever zero l s = refl
  stuck_for_ever (suc fuel) l s =
      let (m, e, s') = cycle-IsStuck l s in ground (arith, s.running, e, stuck_for_ever fuel m s')

  -- The loop with one task, whose turn it is.
  abbrev pub alone : Task V U → EventLoop V U → EventLoop V U
  alone t l = record l { running = true; tasks = t ∷ []; current = 0; to_start = [] }

  pub exec-await_waits :
      (self : TaskId) (r : Ref) (k : Result V → Program V U) (l : EventLoop V U) (f : Future V)
      → find r l.shared.heap ≡ some f
      → f.state.completed ≡ false
      → exec c self (await r k) l ≡ (
        set_state State.wait (record l { shared = with_heap (save_waiter_at r self) l.shared }),
        suspended (woken r k),
      )
  exec-await_waits self r k l f e n = rw (exec-await self r k l f e) (rw n)

  cycle_awaits :
      (t : Task V U) (r : Ref) (k : Result V → Program V U) (l : EventLoop V U) (f : Future V)
      → t.state ≡ State.exec
      → t.ctx ≡ some (await r k)
      → find r l.shared.heap ≡ some f
      → f.state.completed ≡ false
      → l.shared.heap.to_wake ≡ []
      → cycle c (alone t l)
        ≡ Outcome.ok (record (alone (record t { state = State.wait; ctx = some (woken r k) }) l) {
          current = 1;
          shared = with_heap (save_waiter_at r t.id) l.shared;
        })
  unfolding cycle resume after_slice modify_at
  cycle_awaits t r k l f s x e n w =
      ap (λ o. o >>= schedule c) (process_sync_quiet (alone t l) w refl)
      ∙ ap (λ q. run_task c q t (alone t l)) s
      ∙ ap (λ o. resume c o t.id (alone t l)) x
      ∙ ap (after_slice c) (exec-await_waits t.id r k (alone t l) f e n)

  -- A task that is alone in the loop, with nothing to wake, and awaits a future that is not completed, is
  -- never resumed where nothing outside the loop, such as a thread of the pool, completes the future: no
  -- number of cycles ends the loop. That holds of a future that was cancelled before, as well.
  pub await_hangs :
      (fuel : ℕ) (t : Task V U) (r : Ref) (k : Result V → Program V U) (l : EventLoop V U)
      (f : Future V)
      → t.state ≡ State.exec
      → t.ctx ≡ some (await r k)
      → find r l.shared.heap ≡ some f
      → f.state.completed ≡ false
      → l.shared.heap.to_wake ≡ []
      → run_until_completed c fuel (alone t l) ≡ none
  unfolding run_until_completed
  await_hangs zero t r k l f s x e n w = refl
  await_hangs (suc fuel) t r k l f s x e n w =
      rw (cycle_awaits t r k l f s x e n w, run_until_completed)
        (stuck_for_ever fuel _ (record {
          running = refl;
          some_task = omega arith;
          all_wait = (refl, tt);
          none_to_wake = save_waiter_at-wakes r t.id l.shared.heap ∙ w;
          none_to_start = refl;
          in_range = omega arith;
        }))
