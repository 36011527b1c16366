-- ===== src/Tests/Channels.antt =====
-- Queues, events and futures at work.
use asyncxx.Base.{ℕ, zero, suc, ◌≡◌, refl, false, List, [], ◌∷◌, ◌++◌, some, arith, length}
use asyncxx.Api.{ok, err, cancelled}
use asyncxx.Event.Ensure.{ensure_ends}
use asyncxx.Event.Laws
use asyncxx.Event.Laws.{run_in_line, waits, one, all}
use asyncxx.Event.{Event, ensure_notify_one}
use asyncxx.Future.Delivery.{Finds, await_complete}
use asyncxx.Future.{Future, Heap, wakes, save_waiter_at, complete_at, cancel_at, after_wait, find}
use asyncxx.Queue.Clear.{Cleared, clear-run}
use asyncxx.Queue.Fifo.{Served}
use asyncxx.Queue.History.{Call, puts, gets, awaits, values, get-put_fifo}
use asyncxx.Queue.History
use asyncxx.Queue.{new, clear}
use asyncxx.Tests.Fixtures.{no_futures}

-- `async_q_multi_consumer` of src/tests/queue.cc, with one more consumer.
abbrev consumers : List (Call ℕ)
consumers = gets 1 ∷ awaits 0 1 ∷ gets 2 ∷ awaits 1 2 ∷ puts 42 ∷ puts 69 ∷ gets 3 ∷ []

get-put_fifo_example :
    let (fs, q', h') = History.run 0 consumers new no_futures in Served fs (values consumers) q' h'
get-put_fifo_example = get-put_fifo 0 consumers no_futures

clear-run_example :
    let (fs, q', h') = History.run 0 consumers new no_futures in
    let (q'', h'') = clear q' h' in
    (q''.queue ≡ []) × (q''.waiters ≡ []) × Cleared fs (values consumers) h''
clear-run_example = clear-run 0 consumers no_futures

-- `async_event_multi` of src/tests/event.cc, with a late waiter.
abbrev line : List Laws.Call
line = waits 1 ∷ waits 2 ∷ one ∷ waits 3 ∷ all ∷ one ∷ waits 4 ∷ []

run_in_line_example :
    let (ev', l') = Laws.run wakes line (record { list = [] }) [] in
    (l' ++ ev'.list ≡ 1 ∷ 2 ∷ 3 ∷ 4 ∷ []) × (length l' ≡ 3)
run_in_line_example = run_in_line wakes line (record { list = [] }) []

-- The other tasks put task 7 in line during the second yield, number 1.
abbrev late : ℕ → Event × List ℕ → Event × List ℕ
late zero s = s
late (suc i) s = (record { list = 7 ∷ 8 ∷ [] }, s.1)

ensure_ends_example :
    ensure_notify_one wakes late 3 0 (record { list = [] }, [])
    ≡ some (record { list = 8 ∷ [] }, 7 ∷ [])
ensure_ends_example =
    ensure_ends wakes late 2 3 0 (record { list = [] }, []) 7 (8 ∷ []) (omega arith)
      (refl, (refl, tt)) refl

abbrev pending : Future ℕ
pending = record {
  state = record { completed = false; cancelled = false; waiters = 4 ∷ [] };
  result = 0;
}

abbrev heap : Heap ℕ
heap = record { futures = pending ∷ []; to_wake = [] }

await_complete_example :
    let h' = save_waiter_at 0 5 heap in
    Finds 0 (complete_at 0 42 h') (λ g. after_wait g ≡ ok 42)
    × ((complete_at 0 42 h').to_wake ≡ 4 ∷ 5 ∷ [])
    × Finds 0 (cancel_at 0 h') (λ g. after_wait g ≡ err cancelled)
    × ((cancel_at 0 h').to_wake ≡ 4 ∷ 5 ∷ [])
    × Finds 0 (cancel_at 0 (complete_at 0 42 h')) (λ g. after_wait g ≡ err cancelled)
    × ((cancel_at 0 (complete_at 0 42 h')).to_wake ≡ 4 ∷ 5 ∷ 4 ∷ 5 ∷ [])
unfolding find
await_complete_example = await_complete 0 5 42 heap pending refl refl
