-- ===== src/Tests/Processes.antt =====
-- Processes at work.
use asyncxx.Base.{ℕ, ◌*◌, ◌≡◌, refl, true, false, List, [], ◌∷◌, Option, none, some, arith}
use asyncxx.Str.{String, split_quoted}
use asyncxx.Process.Descriptors.{in_pipe, out_pipe, err_pipe, reads, writes, has_end, close_end}
use asyncxx.Process.{
  Pipes, start, Process, World, Target, command, function, child, of_command, run, create,
  prepare_child, end_of, is_running, kill, unstarted, no_pid,
}
use asyncxx.Process.Inherit.{run_ends}
use asyncxx.Process.Stdin.{inherited_stdin}
use asyncxx.Process.Outcomes.{exits, returns, missing, run_lem, run_steals}

-- Programs by the length of their argument list: one argument is `true`, two exit with 42, and the
-- others are not found.
abbrev programs : List String → Option ℕ
programs (a ∷ []) = some 0
programs (a ∷ b ∷ []) = some (42 * 256)
programs _ = none

abbrev shell : World
shell = record {
  table = record {
    stdin = none;
    stdout = none;
    stderr = none;
    ends = end_of 1 out_pipe reads ∷ [];
  };
  children = (50, 7 * 256) ∷ [];
  ended = 50;
}

abbrev true_process : Process
true_process = record {
  state = unstarted;
  pid = no_pid;
  target = command ((116 ∷ []) ∷ []);
  input = [];
  result = record {
    ok = false;
    exit_code = 0;
    io = record { to_in = none; from_out = none; from_err = none };
  };
}

-- `Process::create("t")`
create_by_text : of_command (116 ∷ []) [] ≡ true_process
unfolding of_command split_quoted
create_by_text = refl

run_ends_example :
    (q : Process) × (v : World) × (run programs (some 60) 2 true_process shell ≡ some (q, v))
    × (v.table ≡ record {
      stdin = none;
      stdout = none;
      stderr = none;
      ends =
          end_of 2 in_pipe writes
          ∷ end_of 2 err_pipe reads
          ∷ end_of 2 out_pipe reads
          ∷ end_of 1 out_pipe reads
          ∷ [];
    })
run_ends_example = run_ends programs 60 2 true_process shell (ground arith) (tt, tt, tt)

-- The shell starts `true`, and makes ready another process while that one runs.
inherited_stdin_example :
    (q : Process) × (ps : Pipes) × (v : World) × (start programs (some 60) 2 true_process shell
      ≡ some (q, ps, v))
    × ((prepare_child (create 2 [] shell.table)).1.stdin ≡ some (end_of 2 in_pipe reads))
    × (q.result.io.to_in ≡ some (end_of 2 in_pipe writes))
    × (has_end (end_of 2 in_pipe writes) (close_end (end_of 2 in_pipe writes) v.table).ends ≡ false)
    × (has_end (end_of 2 in_pipe writes) (prepare_child (create 3 [] v.table)).1.ends ≡ true)
inherited_stdin_example =
    inherited_stdin programs 60 2 3 true_process shell [] refl (ground arith) (ground arith)
      (ground arith) (tt, tt, tt)

-- A function that returns 256 + 9.
run_lem_example :
    let p = record true_process { target = function 265 } in
    (q : Process) × (v : World) × (run programs (some 60) 2 p shell ≡ some (q, v))
    × (q.result.ok ≡ true)
    × (q.result.exit_code ≡ 9)
    × (v.children ≡ (50, 7 * 256) ∷ [])
    × (is_running q ≡ true)
    × (kill q ≡ some (child 60))
run_lem_example =
    run_lem programs 60 2 (record true_process { target = function 265 }) shell true 9
      (ground arith) (returns {code = 265})

-- `exit 42` and a command that is not found, as in src/tests/proc.cc.
abbrev exit_42 : Target
exit_42 = command ((98 ∷ []) ∷ (99 ∷ []) ∷ [])

run_exit_42 :
    (q : Process) × (v : World) × (run programs
        (some 60)
        2
        (record true_process { target = exit_42 })
        shell
      ≡ some (q, v))
    × (q.result.ok ≡ true)
    × (q.result.exit_code ≡ 42)
run_exit_42 =
    let (q, v, ran, ok, code, left, runs, kills) =
      run_lem programs 60 2 (record true_process { target = exit_42 }) shell true 42 (ground arith)
        (exits {code = 42} (omega arith) refl) in
    (q, v, ran, ok, code)

run_missing :
    (q : Process) × (v : World) × (run programs
        (some 60)
        2
        (record true_process { target = command [] })
        shell
      ≡ some (q, v))
    × (q.result.ok ≡ false)
run_missing =
    let (q, v, ran, ok, code, left, runs, kills) =
      run_lem programs 60 2 (record true_process { target = command [] }) shell false 255
        (ground arith) (missing refl) in
    (q, v, ran, ok)

run_steals_example :
    (q : Process) × (v : World) × (run programs none 2 true_process shell ≡ some (q, v))
    × (q.result.ok ≡ true)
    × (q.result.exit_code ≡ 7)
    × (v.children ≡ [])
run_steals_example = run_steals programs 2 true_process shell (7 * 256) [] [] refl tt refl
