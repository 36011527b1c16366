-- ===== src/Process.antt =====
-- include/async/io/proc.h. The kernel's answers are arguments: what `fork` returns, and with which
-- status a program that `execvp` loads ends. A status is the number that `waitpid` stores.
pub mod Descriptors
pub mod Ends
pub mod Inherit
pub mod Outcomes
pub mod Released
pub mod Stdin
use asyncxx.Base.{
  ℕ, zero, suc, ◌+◌, ◌-◌, ◌*◌, ◌/◌, ◌%◌, Bool, true, false, ◌&&◌, ◌||◌, not, if◌then◌else◌, ◌==◌,
  List, [], ◌∷◌, ◌++◌, Option, none, some,
}
use mathlib.Core.Option
use asyncxx.Str.{String, split_quoted}
use asyncxx.Process.Descriptors.{
  Pipe, in_pipe, out_pipe, err_pipe, service_pipe, Side, reads, writes, End, Table, has_end,
  drop_end, open_pipe, close_end,
}

-- The files of a process that the parent reads and writes, by the ends that they wrap.
pub record Io : Type 0 where
  pub to_in : Option End
  pub from_out : Option End
  pub from_err : Option End

pub record Result : Type 0 where
  pub ok : Bool
  pub exit_code : ℕ
  pub io : Io

pub data State : Type 0 where
  unstarted init exec done : State

-- A command's arguments, or what a function returns.
pub data Target : Type 0 where
  command : List String → Target
  function : ℕ → Target

-- `pid_t`: 0, -1 or a child's.
pub data Pid : Type 0 where
  no_pid : Pid
  refused : Pid
  child : ℕ → Pid

pub record Process : Type 0 where
  pub state : State
  pub pid : Pid
  pub target : Target
  pub input : String
  pub result : Result

-- `live` is the ends whose number is not -1, and `marker` that the service pipe holds "1".
pub record Pipes : Type 0 where
  pub run : ℕ
  pub live : List End
  pub marker : Bool
  pub input : String

-- The parent's descriptors, its children with the status with which each has ended or will end, and the
-- child that ends first, which is the kernel's answer to a wait for any.
pub record World : Type 0 where
  pub table : Table
  pub children : List (ℕ × ℕ)
  pub ended : ℕ

-- `Process(args, input)` and `Process(fn, input)`
unfoldable pub new : Target → String → Process
new target input = record {
  state = unstarted;
  pid = no_pid;
  target = target;
  input = input;
  result = record {
    ok = false;
    exit_code = 0;
    io = record { to_in = none; from_out = none; from_err = none };
  };
}

-- `Process(command, input)`
unfoldable pub of_command : String → String → Process
unfolding new
of_command text input = new (command (split_quoted text 32)) input

abbrev pub end_of : ℕ → Pipe → Side → End
end_of r p s = record { run = r; pipe = p; side = s }

-- `pipe(out); pipe(err); pipe(in); pipe(service);`
unfoldable pub create : ℕ → String → Table → Pipes × Table
unfolding open_pipe
create r input t = (
  record {
    run = r;
    live =
        end_of r service_pipe reads
        ∷ end_of r service_pipe writes
        ∷ end_of r in_pipe reads
        ∷ end_of r in_pipe writes
        ∷ end_of r err_pipe reads
        ∷ end_of r err_pipe writes
        ∷ end_of r out_pipe reads
        ∷ end_of r out_pipe writes
        ∷ [];
    marker = false;
    input = input;
  },
  open_pipe r service_pipe (open_pipe r in_pipe (open_pipe r err_pipe (open_pipe r out_pipe t))),
)

unfoldable pub close_fd : Pipe → Side → Pipes × Table → Pipes × Table
unfolding close_end has_end
close_fd p s (ps, t) =
    let e = end_of ps.run p s in
    if has_end e ps.live then (record ps { live = drop_end e ps.live }, close_end e t) else (ps, t)

abbrev pub close_both : Pipe → Pipes × Table → Pipes × Table
close_both p x = close_fd p writes (close_fd p reads x)

-- `~Pipes`
unfoldable pub destroy : Pipes × Table → Pipes × Table
unfolding close_fd
destroy x =
    close_both service_pipe (close_both err_pipe (close_both out_pipe (close_both in_pipe x)))

unfoldable pub close_from_child : Pipes × Table → Pipes × Table
unfolding close_fd
close_from_child x =
    close_fd service_pipe reads (close_both err_pipe (close_both out_pipe (close_both in_pipe x)))

-- `dup2` onto the standard numbers, then `closeFromChild`.
unfoldable pub prepare_child : Pipes × Table → Pipes × Table
unfolding close_from_child
prepare_child (ps, t) = close_from_child (
  ps,
  record t {
    stdout = some (end_of ps.run out_pipe writes);
    stderr = some (end_of ps.run err_pipe writes);
    stdin = some (end_of ps.run in_pipe reads);
  },
)

abbrev pub is_empty : String → Bool
is_empty [] = true
is_empty (c ∷ s) = false

-- The input is written before the end is closed.
unfoldable pub prepare_parent : Pipes × Table → Pipes × Table
unfolding close_fd
prepare_parent x =
    let y = close_fd in_pipe reads (close_fd err_pipe writes (close_fd out_pipe writes x)) in
    if is_empty y.0.input then y else close_fd in_pipe writes y

-- `_exit(code)`, as `waitpid` reports it.
abbrev pub exit_status : ℕ → ℕ
exit_status code = code % 256 * 256

-- `WIFEXITED` and `WEXITSTATUS`
abbrev pub exited : ℕ → Bool
exited status = status % 128 == 0

abbrev pub status_code : ℕ → ℕ
status_code status = status / 256 % 256

-- What the child leaves: whether it wrote the marker, and its status. `-1` is `2 ^ 32 - 1`.
unfoldable pub run_target : (List String → Option ℕ) → Target → Bool × ℕ
run_target program (command args) = elim (program args) [
  | none ↦ (true, exit_status 0xffff_ffff)
  | some status ↦ (false, status)
]
run_target program (function code) = (false, exit_status code)

-- `File::fd` of an end: the number is the file's from then on, and -1 in `Pipes`.
abbrev pub hand_over : Pipe → Side → Pipes → Pipes
hand_over p s ps = record ps { live = drop_end (end_of ps.run p s) ps.live }

-- `~File` of a file that only `io` holds: its descriptor is closed, if it is open still.
unfoldable pub close_file : Option End → Table → Table
unfolding close_end
close_file none t = t
close_file (some e) t = close_end e t

-- The files of an earlier run that the assignments to `io->in`, `io->out` and `io->err` let go.
unfoldable pub close_files : Io → Pipes → Table → Table
unfolding close_file has_end
close_files io ps t =
    let t' = if has_end (end_of ps.run in_pipe writes) ps.live then close_file io.to_in t else t in
    close_file io.from_err (close_file io.from_out t')

-- The parent's side of `execute` after a `fork` that worked.
unfoldable pub adopt : Process → Pipes × Table → Process × Pipes × Table
unfolding has_end close_files
adopt p (ps, t) =
    let stdin = end_of ps.run in_pipe writes in
    let to_in = if has_end stdin ps.live then some stdin else p.result.io.to_in in
    (
      record p {
        state = exec;
        result = record p.result {
          io = record {
            to_in = to_in;
            from_out = some (end_of ps.run out_pipe reads);
            from_err = some (end_of ps.run err_pipe reads);
          };
        };
      },
      hand_over err_pipe reads (hand_over out_pipe reads (hand_over in_pipe writes ps)),
      close_files p.result.io ps t,
    )

abbrev pub set_ok : Bool → Process → Process
set_ok b p = record p { result = record p.result { ok = b } }

-- `execute(pipes)`; `locked` says that the calling thread holds the mutex, which is not recursive, and
-- `none` is the thread waiting for itself.
unfoldable pub execute :
    (List String → Option ℕ)
    → Option ℕ
    → Bool
    → Process
    → Pipes
    → World
    → Option (Process × Pipes × World)
unfolding run_target prepare_parent adopt
execute program none locked p ps w =
    if locked then none else some (set_ok false (record p { pid = refused; state = done }), ps, w)
execute program (some pid) locked p ps w =
    let (marked, status) = run_target program p.target in
    let (ps', t) = prepare_parent (record ps { marker = marked }, w.table) in
    let (q, ps'', t') = adopt (set_ok true (record p { pid = child pid })) (ps', t) in
    some (q, ps'', record w { table = t'; children = w.children ++ (pid, status) ∷ [] })

-- The child with a pid, and the others.
unfoldable pub reap : ℕ → List (ℕ × ℕ) → Option (ℕ × List (ℕ × ℕ))
reap pid [] = none
reap pid (c ∷ cs) =
    let others = Option.map (λ o. (o.0, c ∷ o.1)) (reap pid cs) in
    if c.0 == pid then some (c.1, cs) else others

-- `waitpid(pid, &status, 0)`: with -1 any child will do, and the one that ends first is reaped; `none` is
-- the return value -1.
unfoldable pub waitpid : ℕ → Pid → List (ℕ × ℕ) → Option (ℕ × List (ℕ × ℕ))
unfolding reap
waitpid ended (child pid) cs = reap pid cs
waitpid ended _ cs = reap ended cs

abbrev pub record_exit : Bool → ℕ → Process → Process
record_exit marked status p = record p {
  result = record p.result {
    ok = not marked;
    exit_code = if exited status then status_code status else p.result.exit_code;
  };
}

-- `hadMarker()`: reading the marker takes it out of the pipe.
abbrev pub had_marker : Pipes → Bool × Pipes
had_marker ps = (ps.marker, record ps { marker = false })

-- `wait(pipes)`
unfoldable pub wait : Process → Pipes → World → Process × Pipes × World
unfolding waitpid
wait p ps w =
    let (marked, ps') = had_marker ps in
    elim (waitpid w.ended p.pid w.children) [
      | none ↦ (record_exit marked 0 (set_ok false p), ps', w)
      | some (status, others) ↦ (record_exit marked status p, ps', record w { children = others })
    ]

-- The job of `run()` on its thread, up to the end of `pipes`.
abbrev pub finish_run : Option (Process × Pipes × World) → Option (Process × World)
finish_run none = none
finish_run (some (p, ps, w)) =
    let (q, ps', v) = wait p ps w in
    let (ps'', t) = destroy (ps', v.table) in some (q, record v { table = t })

-- `run()`: the mutex is free again when the job runs.
unfoldable pub run :
    (List String → Option ℕ) → Option ℕ → ℕ → Process → World → Option (Process × World)
unfolding execute wait create destroy
run program fork r p w =
    let (ps, t) = create r p.input w.table in
    finish_run (execute program fork false (record p { state = init }) ps (record w { table = t }))

-- `start()`, up to the job that waits.
unfoldable pub start :
    (List String → Option ℕ) → Option ℕ → ℕ → Process → World → Option (Process × Pipes × World)
unfolding execute create
start program fork r p w =
    let (ps, t) = create r p.input w.table in
    execute program fork true (record p { state = init }) ps (record w { table = t })

unfoldable pub is_command : Process → Bool
is_command p = elim p.target [ command args ↦ true | function code ↦ false ]

unfoldable pub is_function : Process → Bool
is_function p = elim p.target [ command args ↦ false | function code ↦ true ]

abbrev pub is_exec : State → Bool
is_exec exec = true
is_exec _ = false

unfoldable pub is_running : Process → Bool
is_running p = is_exec p.state

-- `kill(sig)`: whom the signal is sent to; `none` is `ProcessNotRunningException`.
unfoldable pub kill : Process → Option Pid
kill p = if is_exec p.state then some p.pid else none

-- `chain(proc1, proc2)`, with what `readAll` gives of the first one's output. The result is the
-- result object of the process that ran last.
abbrev pub chain_on :
    (List String → Option ℕ)
    → Option ℕ
    → ℕ
    → String
    → Process
    → Process × World
    → Option (Process × World)
chain_on program fork r output proc2 (q, w) =
    let second = run program fork r (record proc2 { input = output }) w in
    if not q.result.ok || q.result.exit_code == 0 then some (q, w) else second

abbrev pub chain_after :
    (List String → Option ℕ)
    → Option ℕ
    → ℕ
    → String
    → Process
    → Option (Process × World)
    → Option (Process × World)
chain_after program fork r output proc2 none = none
chain_after program fork r output proc2 (some x) = chain_on program fork r output proc2 x

unfoldable pub chain :
    (List String → Option ℕ)
    → Option ℕ × Option ℕ
    → ℕ × ℕ
    → String
    → Process
    → Process
    → World
    → Option (Process × World)
unfolding run
chain program forks rs output proc1 proc2 w =
    chain_after program forks.1 rs.1 output proc2 (run program forks.0 rs.0 proc1 w)
