-- ===== src/Lib.antt =====
-- asyncxx: an event loop for C++ that runs tasks on stacks of their own, with the primitives through
-- which tasks wait for one another.
--
-- The program's parts, and the files that model them:
--
--   Api          ids, exceptions, and `async::notify` as an interface (include/async/defs.h, exc.h,
--                api.h)
--   FutureState  the flags and waiters of a future (include/async/internal/future_state.h)
--   Future       futures and the memory that shared pointers to them point into
--                (include/async/future.h)
--   Event        include/async/event.h
--   Queue        include/async/queue.h
--   StackPool    include/async/internal/stack_pool.h
--   Task         task control blocks (include/async/task.h)
--   Loop         include/async/loop.h: Types (the state), Sync (`processSync`), Cleanup
--                (`cleanUpTask`, `clear`), Cycle (`addTask`, `cycle`, `runUntilCompleted`), Lookup (tasks
--                by their names), Stacks (the stack pointer), Busy (any number of tasks at once)
--   Async        include/async/async.h: `task`, `await`, `gather`, `notify`, `run`; Threads (`to_thread`,
--                awaited while another thread completes the future);
--                Gather (`gather`, whatever other tasks do), Called (`run` of an asynchronous function),
--                Exchange and Handshake (two tasks with a queue or an event between them);
--                Main (what the macros of include/async/macros.h expand to; its children follow a main
--                task and one that it awaits through the cycles of the loop)
--   Str          `split`, `splitQuoted` and `escape` of include/async/util.h
--   File         include/async/io/file.h over streams of bytes
--   Flags        flag bytes, of include/async/pool.h and io/file.h
--   ThreadPool   include/async/pool.h, as the interleaving of its threads' steps
--   Process      include/async/io/proc.h: Descriptors (the ends of its pipes), and the operations
--   Suite        the tests' framework (src/test.h, src/main.cc)
--   Base         shared lists, tests and library names
--   Tests        concrete runs, several of them those of src/tests/, and an instance of each theorem
--
-- How they interact. A future, an event and a queue reach the loop only by `notify(id)`, which puts an
-- id on `sync.to_wake`; the next `cycle` makes the tasks on that list `EXEC` before it picks the task
-- `current`. The interface `Api.Notifier` is that call, and `Future.wakes` the list that fills it. A
-- queue holds references to the futures that it will complete; the loop cancels the future of a task
-- that ends without completing it.
--
-- Correspondence. A function of the source has its name in snake case. A method returns the new state,
-- an exception is `Result.err` or `Outcome.raised`, and undefined behaviour of the library (a null
-- task, an index past the list, a jump to a stale context) is `Outcome.fault`. A worker
-- (`std::function<void()>` on its own stack) is a tree, `Task.Program`, of what it does between calls
-- of the library; `setjmp` and `longjmp` save and resume the rest of the tree, and `Loop.Cycle.exec`
-- runs it up to its next suspension. `Shared` is the memory that tasks share.
--
-- The thread pool has a model of its own: a step (`ThreadPool.step`) is what one thread does between
-- two points at which another may come in, and an interleaving is a list of steps.
--
-- Bounds. Ids, sizes and addresses are natural numbers: the id counter's wrap after 2^63 tasks is not
-- modelled. A slice of a worker is a finite tree, so a worker that loops without yielding is not
-- modelled. Loops that need not end, `runUntilCompleted` and `ensureNotifyOne`, take fuel, and `none`
-- says that it ran out; theorems say which fuel is enough, or that none is.
--
-- Parameters. The system's allocator (`operator new[]`) is `StackPool.Allocator`: its arrays overlap no
-- live one and are not null. `Loop.Types.Config` adds the build's `ASYNC_CONTINUE_ON_TASK_EXC`.
-- `fopen` and `fdopen`, which are given the mode, are arguments of `File.open_path` and `File.of_fd`.
-- What `fork` returns and how a program ends are arguments of `Process.run`, and `World.ended` is the
-- child that ends first. The files of a process's result are held by that result only. What the other
-- tasks do during a `yield` of `ensureNotifyOne`, or while `gather` waits, is an argument (in Gather.Ends
-- it is which futures they complete); so is how a test of `Suite` ends.
--
-- Not modelled: the inline assembly of include/async/platform/x86_64.h, the other helpers of
-- include/async/util.h, `async_main_ext` (its expansion does not compile), and the texts
-- that the test framework prints.
pub mod Base
pub mod Api
pub mod FutureState
pub mod Future
pub mod Process
pub mod Queue
pub mod Event
pub mod StackPool
pub mod Str
pub mod ThreadPool
pub mod File
pub mod Flags
pub mod Task
pub mod Loop
pub mod Async
pub mod Tests
pub mod Suite
