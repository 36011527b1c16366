-- ===== src/Tests/Meetings.antt =====
-- Tasks that meet at a queue and at an event, with a number as the program's own data.
use asyncxx.Base.{ℕ, ◌+◌, ◌*◌, ◌≡◌, refl, false, some, arith}
use asyncxx.Event
use asyncxx.Queue
use asyncxx.Loop.Types.{EventLoop, Outcome, new}
use asyncxx.Async.{run}
use asyncxx.Async.Sequential.{IsIdle}
use asyncxx.Async.Exchange.{Queued, exchange}
use asyncxx.Async.Exchange.Stored.{exchange_lem}
use asyncxx.Async.Handshake.{Evented, handshake}
use asyncxx.Async.Handshake.Signalled.{handshake_lem}
use asyncxx.Tests.Fixtures.{config}
use asyncxx.Tests.Mains.{counter}

abbrev unqueued : EventLoop ℕ (Queued ℕ ℕ)
unqueued = new 0 (Queue.new, 0)

unqueued-IsIdle : IsIdle unqueued
unfolding new
unqueued-IsIdle = record {
  running = refl;
  no_task = refl;
  at_front = refl;
  none_to_start = refl;
  none_to_wake = refl;
}

-- The main task adds what it gets to what the producer has counted.
exchange_lem_example :
    (m : EventLoop ℕ (Queued ℕ ℕ)) × (run config 8 (exchange 0 counter (λ v u. v + u)) unqueued
      ≡ some (Outcome.ok m))
    × (m.shared.user ≡ (Queue.new, 44))
    × IsIdle m
unfolding new
exchange_lem_example =
    exchange_lem config 0 counter (λ v u. v + u) 8 unqueued unqueued-IsIdle (omega arith)

abbrev eventless : EventLoop ℕ (Evented ℕ)
eventless = new 0 (Event.new, 0)

eventless-IsIdle : IsIdle eventless
unfolding new
eventless-IsIdle = record {
  running = refl;
  no_task = refl;
  at_front = refl;
  none_to_start = refl;
  none_to_wake = refl;
}

-- With `notifyOne`.
handshake_lem_example :
    (m : EventLoop ℕ (Evented ℕ)) × (run config 8
        (handshake false 0 counter (λ u. u * 10))
        eventless
      ≡ some (Outcome.ok m))
    × (m.shared.user ≡ (Event.new, 20))
    × IsIdle m
unfolding new
handshake_lem_example =
    handshake_lem config false 0 counter (λ u. u * 10) 8 eventless eventless-IsIdle (omega arith)
