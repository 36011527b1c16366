-- ===== src/Async/Sequential.antt =====
-- `run` of include/async/async.h on a worker that only computes and yields: the loop gives it the
-- meaning that it has as a sequential program.
use asyncxx.Base.{
  ℕ, zero, suc, ◌+◌, ◌≤◌, ◌≡◌, refl, ap, ◌∙◌, true, false, [], ◌∷◌, Option, none, some, arith,
  if◌then◌else◌,
}
use asyncxx.Api.{TaskId}
use asyncxx.StackPool.{free, alloc}
use asyncxx.Task.{State, Task, Program, Shared, finish, act, yields, default_stack_size}
use asyncxx.Loop.Types.{Config, EventLoop, Outcome, ok, ◌>>=◌}
use asyncxx.Loop.Cleanup.{clean_up_task, clear, cancel_pending}
use asyncxx.Loop.Cycle.{
  new_task, add_task, exec, resume, after_slice, modify_at, then_run, run_until_completed, cycle,
  schedule, run_task,
}
use asyncxx.Loop.Sync.{set_main_task, process_sync, wake_each}
use asyncxx.Async.{run, after_run, run_name}
use asyncxx.Loop.Names.{task_name}
use asyncxx.Async.Await.{process_sync_quiet}

module _ {ℓ κ} {V : Type ℓ} {U : Type κ} where
  -- A worker that computes, yields and returns, and notifies nobody.
  pub data Straight : Program V U → Type (ℓ ⊔ κ) where
    ends : Straight finish
    acts :
        {f : TaskId → Shared V U → Shared V U} {k : TaskId → Shared V U → Program V U}
        → ((id : TaskId) (s : Shared V U) → (f id s).heap.to_wake ≡ s.heap.to_wake)
        → ((id : TaskId) (s : Shared V U) → Straight (k id s))
        → Straight (act f k)
    pauses : {k : Program V U} → Straight k → Straight (yields k)

  -- The same of the run of a worker from a given memory.
  pub data StraightFrom (id : TaskId) : Shared V U → Program V U → Type (ℓ ⊔ κ) where
    stops : {s : Shared V U} → StraightFrom id s finish
    computes :
        {s : Shared V U} {f : TaskId → Shared V U → Shared V U}
        {k : TaskId → Shared V U → Program V U}
        → (f id s).heap.to_wake ≡ s.heap.to_wake
        → StraightFrom id (f id s) (k id s)
        → StraightFrom id s (act f k)
    rests : {s : Shared V U} {k : Program V U} → StraightFrom id s k → StraightFrom id s (yields k)

  Straight-From :
      {p : Program V U} (id : TaskId) (s : Shared V U) → Straight p → StraightFrom id s p
  Straight-From id s ends = stops
  Straight-From id s (acts {f} {k} q ps) = computes (q id s) (Straight-From id (f id s) (ps id s))
  Straight-From id s (pauses p) = rests (Straight-From id s p)

  -- What the worker does to the memory, run from its start to its end.
  abbrev pub eval : TaskId → Program V U → Shared V U → Shared V U
  eval id (act f k) s = eval id (k id s) (f id s)
  eval id (yields k) s = eval id k s
  eval id _ s = s

  -- How often it yields.
  abbrev pub pause_count : TaskId → Program V U → Shared V U → ℕ
  pause_count id (act f k) s = pause_count id (k id s) (f id s)
  pause_count id (yields k) s = suc (pause_count id k s)
  pause_count id _ s = 0

  -- Nothing runs, starts or is to be woken.
  pub record IsIdle (l : EventLoop V U) : Type (ℓ ⊔ κ) where
    pub running : l.running ≡ true
    pub no_task : l.tasks ≡ []
    pub at_front : l.current ≡ 0
    pub none_to_start : l.to_start ≡ []
    pub none_to_wake : l.shared.heap.to_wake ≡ []

  module _ (c : Config) where
    abbrev pub solo : Task V U → ℕ → EventLoop V U → EventLoop V U
    solo t i l = record l { running = true; tasks = t ∷ []; current = i; to_start = [] }

    abbrev pub ended : Task V U → EventLoop V U → Shared V U → EventLoop V U
    ended t l s = record l {
      running = false;
      tasks = [];
      current = 0;
      to_start = [];
      shared = s;
      stacks = free t.stack.0 l.stacks;
    }

    pub cycle-exec :
        (t : Task V U) (k : Program V U) (l : EventLoop V U)
        → t.state ≡ State.exec
        → l.shared.heap.to_wake ≡ []
        → cycle c (solo (record t { ctx = some k }) 1 l)
          ≡ after_slice c (exec c t.id k (solo (record t { ctx = some k }) 0 l))
    unfolding cycle resume
    cycle-exec t k l s w =
        let t' = record t { ctx = some k } in
        ap (λ o. o >>= schedule c) (process_sync_quiet c (solo t' 1 l) w refl)
        ∙ ap (λ q. run_task c q t' (solo t' 0 l)) s

    -- The memory that a task leaves that is alone when it ends.
    abbrev pub left : Task V U → Shared V U → Shared V U
    left t s = record { heap = cancel_pending t.result_future s.heap; user = s.user }

    clean_up_alone :
        (t : Task V U) (l : EventLoop V U)
        → t.state ≡ State.done
        → clean_up_task t (solo t 0 l) ≡ ok (ended t l (left t l.shared))
    unfolding clean_up_task
    clean_up_alone t l s = ground (arith, s)

    pub cycle_ends :
        (t : Task V U) (l : EventLoop V U)
        → l.shared.heap.to_wake ≡ []
        → cycle c (solo (record t { state = State.done; ctx = none }) 0 l)
          ≡ ok (ended t l (left t l.shared))
    unfolding cycle
    cycle_ends t l w =
        let t' = record t { state = State.done; ctx = none } in
        ap (λ o. o >>= schedule c) (process_sync_quiet c (solo t' 0 l) w refl)
        ∙ clean_up_alone t' l refl

    cycle_done :
        (t : Task V U) (l : EventLoop V U)
        → t.result_future ≡ none
        → l.shared.heap.to_wake ≡ []
        → cycle c (solo (record t { state = State.done; ctx = none }) 0 l) ≡ ok (ended t l l.shared)
    unfolding cancel_pending
    cycle_done t l n w =
        cycle_ends t l w
        ∙ ap (λ f. ok (ended t l (left (record t { result_future = f }) l.shared))) n

    abbrev pub drive : ℕ → Outcome (EventLoop V U) → Option (Outcome (EventLoop V U))
    drive fuel = then_run c (run_until_completed c fuel)

    pub run_until-cycle :
        (fuel : ℕ) (l : EventLoop V U)
        → l.running ≡ true
        → run_until_completed c (suc fuel) l ≡ drive fuel (cycle c l)
    unfolding run_until_completed
    run_until-cycle fuel l r = ap (λ b. if b then drive fuel (cycle c l) else some (ok l)) r

    abbrev pub holding : Shared V U → EventLoop V U → EventLoop V U
    holding s l = record l { shared = s }

    pub drive-slice :
        (id : TaskId) {s : Shared V U} {p : Program V U}
        → StraightFrom id s p
        → (fuel : ℕ) (t : Task V U) (l : EventLoop V U) → t.state ≡ State.exec
        → t.result_future ≡ none
        → s.heap.to_wake ≡ []
        → pause_count id p s + 2 ≤ fuel
        → drive fuel (after_slice c (exec c id p (solo (record t { id = id }) 0 (holding s l))))
          ≡ some (ok (ended t l (eval id p s)))
    unfolding after_slice exec modify_at
    drive-slice id stops zero t l r n w h = absurd (omega arith)
    drive-slice id stops (suc zero) t l r n w h = absurd (omega arith)
    drive-slice id {s} stops (suc (suc fuel)) t l r n w h =
        let t' = record t { id = id; state = State.done; ctx = none } in
        run_until-cycle (suc fuel) (solo t' 0 (holding s l)) refl
        ∙ ap (drive (suc fuel)) (cycle_done (record t { id = id }) (holding s l) n w)
        ∙ unfold run_until_completed in refl
    drive-slice id {s} (computes {f = f} q p) fuel t l r n w h =
        drive-slice id p fuel t l r n (q ∙ w) h
    drive-slice id (rests p) zero t l r n w h = absurd (omega arith)
    drive-slice id {s} (rests {k = k} p) (suc fuel) t l r n w h =
        let t' = record t { id = id; ctx = some k } in
        run_until-cycle fuel (solo t' 1 (holding s l)) refl
        ∙ ap (drive fuel) (cycle-exec (record t { id = id }) k (holding s l) r w)
        ∙ drive-slice id p fuel t' l r n w (omega arith)

    abbrev pub starting : Task V U → EventLoop V U → EventLoop V U
    starting t b = record b { running = true; tasks = []; current = 0; to_start = t ∷ [] }

    pub cycle_starts :
        (t : Task V U) (b : EventLoop V U)
        → t.state ≡ State.init
        → b.shared.heap.to_wake ≡ []
        → cycle c (starting t b)
          ≡ after_slice c (exec c t.id t.worker (solo (record t { state = State.exec }) 0 b))
    unfolding cycle modify_at wake_each
    cycle_starts t b s w =
        ap (λ o. o >>= schedule c) synced_alone ∙ ap (λ q. run_task c q t (solo t 0 b)) s
      where
        synced_alone : process_sync (starting t b) ≡ ok (solo t 0 b)
        synced_alone = rw (w, process_sync, wake_each) (ground arith)

    pub eval-wakes :
        (id : TaskId) {s : Shared V U} {p : Program V U}
        → StraightFrom id s p
        → (eval id p s).heap.to_wake ≡ s.heap.to_wake
    eval-wakes id stops = refl
    eval-wakes id (computes q p) = eval-wakes id p ∙ q
    eval-wakes id (rests p) = eval-wakes id p

    pub run-StraightFrom :
        (p : Program V U) (fuel : ℕ) (l : EventLoop V U)
        → StraightFrom l.task_id_counter l.shared p
        → IsIdle l
        → pause_count l.task_id_counter p l.shared + 3 ≤ fuel
        → (m : EventLoop V U) × (run c fuel p l ≡ some (ok m))
          × (m.shared ≡ eval l.task_id_counter p l.shared)
          × IsIdle m
          × (m.task_id_counter ≡ l.task_id_counter + 1)
    unfolding run add_task set_main_task clear
    run-StraightFrom p zero l s i h = absurd (omega arith)
    run-StraightFrom p (suc fuel) l s i h =
        let (ptr, q) = alloc c.allocator default_stack_size l.stacks in
        let id = l.task_id_counter in
        let t = new_task id p (task_name run_name id) none ptr in
        let b = record l { task_id_counter = id + 1; main_task_id = some id; stacks = q } in
        let m = ended (record t { state = State.exec }) b (eval id p l.shared) in
        let begun : set_main_task id (add_task c p run_name none l).1 ≡ starting t b =
          ground (arith, i.running, i.no_task, i.at_front, i.none_to_start) in
        (
          clear m,
          ap (after_run c) (
              ap (run_until_completed c (suc fuel)) begun
              ∙ run_until-cycle fuel (starting t b) refl
              ∙ ap (drive fuel) (cycle_starts t b refl i.none_to_wake)
              ∙ drive-slice id s fuel (record t { state = State.exec }) b refl refl i.none_to_wake
                  (omega arith)),
          refl,
          record {
            running = refl;
            no_task = refl;
            at_front = refl;
            none_to_start = refl;
            none_to_wake = eval-wakes id s ∙ i.none_to_wake;
          },
          refl,
        )

    -- `run` of such a worker on an idle loop ends, within three cycles more than the worker yields,
    -- and on any larger fuel alike. The memory is then as if the worker had been called as a plain
    -- function, the loop is idle again, and one task id is used up.
    pub run-Straight :
        (p : Program V U) (fuel : ℕ) (l : EventLoop V U)
        → Straight p
        → IsIdle l
        → pause_count l.task_id_counter p l.shared + 3 ≤ fuel
        → (m : EventLoop V U) × (run c fuel p l ≡ some (ok m))
          × (m.shared ≡ eval l.task_id_counter p l.shared)
          × IsIdle m
          × (m.task_id_counter ≡ l.task_id_counter + 1)
    run-Straight p fuel l s i h =
        run-StraightFrom p fuel l (Straight-From l.task_id_counter l.shared s) i h
