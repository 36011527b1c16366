-- ===== src/ThreadPool/Rules.antt =====
-- The steps of the thread pool of include/async/pool.h as a relation, with one rule for each thing
-- that can happen.
use asyncxx.Base.{ℕ, suc, ◌+◌, ◌≡◌, List, [], ◌∷◌, ◌++◌, some, true, map, get_elem?, set}
use asyncxx.ThreadPool.{
  Pool, Phase, Action, push, notify_worker, check, sleep, wake_up, end_task, clear_queue,
  set_finish, set_terminate, notify_workers, join, all_gone, at_top, to_sleep, asleep, in_task,
  gone, flag_set, joining, returned, wake, move, flag_finish, flag_terminate, flag_stopped,
}
use asyncxx.Flags.{get_flag, set_flag}

module _ {ℓ} {T : Type ℓ} where
  abbrev pub At : Pool T → ℕ → Phase T → Type ℓ
  At s i p = get_elem? s.threads i ≡ some p

  pub data Step (s : Pool T) : Action T → Pool T → Type ℓ where
    pushes :
        {task : T}
        → Step s
            (push task)
            (record s { queue = s.queue ++ task ∷ []; to_notify = s.to_notify + 1 })
    notifies :
        {i n : ℕ}
        → s.to_notify ≡ suc n
        → At s i asleep
        → Step s (notify_worker i) (record s { threads = set s.threads i at_top; to_notify = n })
    notifies_nobody :
        {i n : ℕ} → s.to_notify ≡ suc n → Step s (notify_worker i) (record s { to_notify = n })
    takes :
        {i : ℕ} {task : T} {rest : List T}
        → At s i at_top
        → s.queue ≡ task ∷ rest
        → Step s (check i) (record s {
          threads = set s.threads i (in_task task);
          queue = rest;
          started = s.started ++ task ∷ [];
        })
    terminates :
        {i : ℕ}
        → At s i at_top
        → get_flag flag_terminate s.flags ≡ true
        → Step s (check i) (move i gone s)
    finishes : {i : ℕ} → At s i at_top → s.queue ≡ [] → Step s (check i) (move i gone s)
    tires : {i : ℕ} → At s i at_top → Step s (check i) (move i to_sleep s)
    sleeps : {i : ℕ} → At s i to_sleep → Step s (sleep i) (move i asleep s)
    wakes_up : {i : ℕ} → At s i asleep → Step s (wake_up i) (move i at_top s)
    ends : {i : ℕ} {task : T} → At s i (in_task task) → Step s (end_task i) (move i at_top s)
    clears : Step s clear_queue (record s { queue = [] })
    raises_finish :
        Step s set_finish
          (record s { flags = set_flag flag_finish true s.flags; caller = flag_set })
    raises_terminate :
        Step s set_terminate
          (record s { flags = set_flag flag_terminate true s.flags; caller = flag_set })
    notifies_all :
        s.caller ≡ flag_set
        → Step s notify_workers (record s { threads = map wake s.threads; caller = joining })
    joins :
        all_gone s.threads ≡ true
        → Step s join (record s {
          threads = [];
          flags = set_flag flag_stopped true s.flags;
          caller = returned;
        })
