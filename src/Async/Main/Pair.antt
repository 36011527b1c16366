-- ===== src/Async/Main/Pair.antt =====
-- Two tasks in the loop of include/async/loop.h, of which the outer one sleeps: from the first slice of
-- the inner one to the slice in which the outer one goes on.
use asyncxx.Base.{ℕ, suc, ◌≡◌, ◌≢◌, refl, ap, ◌∙◌, true, [], ◌∷◌, some, arith, Option}
use asyncxx.Future.{Ref, Heap, Future, wakes, find}
use asyncxx.StackPool.{free}
use asyncxx.Task.{State, Task, Shared, Program}
use asyncxx.Loop.Types.{Config, EventLoop, Outcome, ◌>>=◌}
use asyncxx.Loop.Cycle.{exec, after_slice, modify_at, cycle, schedule, run_task, resume}
use asyncxx.Loop.Sync.{process_sync, wake, wake_each}
use asyncxx.Loop.Cleanup.{clean_up_task, cancel_pending, is_main}
use asyncxx.Async.Await.{process_sync_quiet}
use asyncxx.Async.Sequential.{solo, holding, drive, run_until-cycle, cycle-exec}
use asyncxx.Async.Main.Returns.{Block, returns, acts, pauses, body, call}

module _ {ℓ κ} {V : Type ℓ} {U : Type κ} where
  -- So many cycles more than `fuel` as pass until the block ends.
  abbrev pub turns : Block V U → U → ℕ → ℕ
  turns (returns v) u fuel = fuel
  turns (acts f b) u fuel = turns (b u) (f u) fuel
  turns (pauses b) u fuel = suc (suc (turns b u fuel))

  abbrev pub pair : Task V U → Task V U → ℕ → EventLoop V U → EventLoop V U
  pair m t i l = record l { running = true; tasks = m ∷ t ∷ []; current = i; to_start = [] }

  abbrev pub drained : Heap V → U → Shared V U
  drained h u = record { heap = record { futures = h.futures; to_wake = [] }; user = u }

  module _ (c : Config) (m : Task V U) (w : Program V U) where
    -- The outer task, which goes on with `w`.
    abbrev pub sleeper : Task V U
    sleeper = record m { state = State.wait; ctx = some w }

    abbrev pub roused : Task V U
    roused = record sleeper { state = State.exec }

    -- The outer task is passed over, and the inner one goes on.
    pub cycle_pass :
        (t : Task V U) (l : EventLoop V U)
        → l.shared.heap.to_wake ≡ []
        → cycle c (pair sleeper t 2 l) ≡ Outcome.ok (pair sleeper t 1 l)
    unfolding cycle schedule run_task
    cycle_pass t l z =
        ap (λ o. o >>= schedule c) (process_sync_quiet c (pair sleeper t 2 l) z refl) ∙ ground arith

    cycle_resume :
        (t : Task V U) (p : Program V U) (l : EventLoop V U)
        → t.state ≡ State.exec
        → l.shared.heap.to_wake ≡ []
        → cycle c (pair sleeper (record t { ctx = some p }) 1 l)
          ≡ after_slice c (exec c t.id p (pair sleeper (record t { ctx = some p }) 1 l))
    unfolding cycle resume schedule
    cycle_resume t p l s z =
        let t' = record t { ctx = some p } in
        ap (λ o. o >>= schedule c) (process_sync_quiet c (pair sleeper t' 1 l) z refl)
        ∙ ap (λ q. run_task c q t' (pair sleeper t' 1 l)) s

    sync_wakes :
        (t : Task V U) (h : Heap V) (u : U) (l : EventLoop V U)
        → h.to_wake ≡ m.id ∷ []
        → process_sync (pair sleeper t 1 (holding c (record { heap = h; user = u }) l))
          ≡ Outcome.ok (pair roused t 1 (holding c (drained h u) l))
    unfolding process_sync wake_each wake
    sync_wakes t h u l z = rw (z) (ground arith)

    clean_up_inner :
        (t : Task V U) (h : Heap V) (u : U) (l : EventLoop V U) (q : Ref) (f : Future V)
        → t.result_future ≡ some q
        → l.main_task_id ≡ some m.id
        → m.id ≢ t.id
        → find q h ≡ some f
        → f.state.completed ≡ true
        → clean_up_task t (pair roused t 1 (holding c (drained h u) l))
          ≡ Outcome.ok (
              solo c roused 1
                (holding c (drained h u) (record l { stacks = free t.stack.0 l.stacks })))
    unfolding clean_up_task is_main cancel_pending find
    clean_up_inner t h u l q f rf mi ne e d = ground (arith, rf, mi, ne, e, d)

    -- The inner task is gone, and the outer one is roused.
    cycle_wakes :
        (t : Task V U) (h : Heap V) (u : U) (l : EventLoop V U) (q : Ref) (f : Future V)
        → t.state ≡ State.done
        → t.result_future ≡ some q
        → l.main_task_id ≡ some m.id
        → m.id ≢ t.id
        → find q h ≡ some f
        → f.state.completed ≡ true
        → h.to_wake ≡ m.id ∷ []
        → cycle c (pair sleeper t 1 (holding c (record { heap = h; user = u }) l))
          ≡ Outcome.ok (
              solo c roused 1
                (holding c (drained h u) (record l { stacks = free t.stack.0 l.stacks })))
    unfolding cycle schedule
    cycle_wakes t h u l q f s rf mi ne e d z =
        ap (λ o. o >>= schedule c) (sync_wakes t h u l z)
        ∙ ap (λ x. run_task c x t (pair roused t 1 (holding c (drained h u) l))) s
        ∙ clean_up_inner t h u l q f rf mi ne e d

    -- The inner task gets to what follows its block.
    pub reaches :
        (b : Block V U) (rest : V → Program V U) (fuel : ℕ) (t : Task V U) (h : Heap V) (u : U)
        (l : EventLoop V U)
        → t.state ≡ State.exec
        → h.to_wake ≡ []
        → let (v, u') = call b u in
          let p : Shared V U = record { heap = h; user = u } in
          let p' : Shared V U = record { heap = h; user = u' } in
          (x : Option (Program V U)) × (drive c
              (turns b u fuel)
              (after_slice c (exec c t.id (body b rest) (pair sleeper t 1 (holding c p l))))
            ≡ drive c fuel (
                after_slice c
                  (exec c t.id (rest v) (pair sleeper (record t { ctx = x }) 1 (holding c p' l)))))
    unfolding after_slice exec modify_at
    reaches (returns v) rest fuel t h u l s z = (t.ctx, refl)
    reaches (acts f b) rest fuel t h u l s z = reaches (b u) rest fuel t h (f u) l s z
    reaches (pauses b) rest fuel t h u l s z =
        let p = body b rest in
        let t' = record t { ctx = some p } in
        let l' = holding c (record { heap = h; user = u }) l in
        let n = turns b u fuel in
        let (x, e) = reaches b rest fuel t' h u l s z in
        (
          x,
          run_until-cycle c (suc n) (pair sleeper t' 2 l') refl
              ∙ ap (drive c (suc n)) (cycle_pass t' l' z)
              ∙ run_until-cycle c n (pair sleeper t' 1 l') refl
              ∙ ap (drive c n) (cycle_resume t p l' s z)
              ∙ e,
        )

    -- Two cycles: the inner task, which is done, is deleted, and the outer one goes on, alone.
    pub lets_go :
        (fuel : ℕ) (t : Task V U) (h : Heap V) (u : U) (l : EventLoop V U) (q : Ref) (g : Future V)
        → t.state ≡ State.done
        → t.result_future ≡ some q
        → l.main_task_id ≡ some m.id
        → m.id ≢ t.id
        → find q h ≡ some g
        → g.state.completed ≡ true
        → h.to_wake ≡ m.id ∷ []
        → drive c
            (suc (suc fuel))
            (Outcome.ok (pair sleeper t 1 (holding c (record { heap = h; user = u }) l)))
          ≡ drive c fuel (
              after_slice c (
                exec c m.id w (
                  solo c roused 0
                    (holding c (drained h u) (record l { stacks = free t.stack.0 l.stacks })))))
    unfolding find
    lets_go fuel t h u l q g s rf mi ne e d z =
        let l' = holding c (drained h u) (record l { stacks = free t.stack.0 l.stacks }) in
        run_until-cycle c (suc fuel)
          (pair sleeper t 1 (holding c (record { heap = h; user = u }) l)) refl
        ∙ ap (drive c (suc fuel)) (cycle_wakes t h u l q g s rf mi ne e d z)
        ∙ run_until-cycle c fuel (solo c roused 1 l') refl
        ∙ ap (drive c fuel) (cycle-exec c roused w l' refl refl)
