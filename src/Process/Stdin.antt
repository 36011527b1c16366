-- ===== src/Process/Stdin.antt =====
-- What a process of include/async/io/proc.h that is created while another one runs keeps open of the
-- other one's stdin.
use asyncxx.Base.{
  subst, ℕ, ◌≡◌, ◌≢◌, refl, sym, ap, ◌∙◌, Bool, true, false, if◌then◌else◌, List, [], ◌∷◌, ◌++◌,
  Option, some, arith,
}
use asyncxx.Str.{String}
use asyncxx.Process.Descriptors.{
  in_pipe, service_pipe, reads, writes, End, Table, open_pipe, close_end, drop_end, has_end,
}
use asyncxx.Process.{
  Process, Pipes, World, Io, create, prepare_child, prepare_parent, adopt, close_files, set_ok,
  end_of, is_empty, start, init, child, execute, run_target,
}
use asyncxx.Process.Ends.{Foreign, Ends, of_run, shut_list, has, has_end-of_run}
use asyncxx.Process.Released.{Earlier, released, released-Foreign, close_files-holding}
use asyncxx.Process.Inherit.{
  prepare_parent-holding, child_ends, all_ends, unused_by_parent, after_input, stdin_lem,
}

of_run-Foreign :
    (r r' : ℕ) (cs : Ends) (rest : List End)
    → r ≢ r'
    → Foreign r' rest
    → Foreign r' (of_run r cs rest)
of_run-Foreign r r' [] rest n h = h
of_run-Foreign r r' (c ∷ cs) rest n h = (n, of_run-Foreign r r' cs rest n h)

abbrev while_running : String → Ends × Ends
while_running input = after_input (is_empty input) (shut_list unused_by_parent (all_ends, all_ends))

started_table :
    (io : Io) (r : ℕ) (input : String) (marked : Bool) (t : Table)
    → Foreign r t.ends
    → Earlier r io
    → let (ps, u) = create r input t in
      let y = prepare_parent (record ps { marker = marked }, u) in
      close_files io y.0 y.1
      ≡ record t { ends = of_run r (while_running input).1 (released (is_empty input) io t.ends) }
unfolding create open_pipe
started_table io r input marked t h k =
    let made = record (create r input t).0 { marker = marked } in
    let x = while_running input in
    ap (λ y. close_files io y.0 y.1) (prepare_parent-holding made t t.ends (all_ends, all_ends) h)
    ∙ close_files-holding io made t t.ends x k
    ∙ ap (λ b. record t { ends = of_run r x.1 (released b io t.ends) }) (stdin_lem input)

file_kept :
    (r : ℕ) (input : String) (marked : Bool) (t : Table) (old : Option End)
    → input ≡ []
    → Foreign r t.ends
    → let (ps, u) = create r input t in
      let y = prepare_parent (record ps { marker = marked }, u) in
      let e = end_of y.0.run in_pipe writes in
      (if has_end e y.0.live then some e else old) ≡ some (end_of r in_pipe writes)
unfolding create open_pipe
file_kept r input marked t old empty h =
    let made = record (create r input t).0 { marker = marked } in
    let e = end_of r in_pipe writes in
    let to_in = λ (y : Pipes × Table).
      let e = end_of y.0.run in_pipe writes in if has_end e y.0.live then some e else old in
    ap to_in (prepare_parent-holding made t t.ends (all_ends, all_ends) h)
    ∙ ap (λ b. if b then some e else old)
        (has_end-of_run r in_pipe writes (while_running input).0
          ∙ ap (λ s. has in_pipe writes (while_running s).0) empty)

has_end-drop_end : (e : End) (es : List End) → has_end e (drop_end e es) ≡ false
unfolding has_end drop_end
has_end-drop_end e [] = refl
has_end-drop_end e (x ∷ es) = ground (arith, has_end-drop_end e es)

stdin_held :
    (r r' : ℕ) (rest : List End)
    → has_end
        (end_of r in_pipe writes)
        (end_of r' service_pipe writes ∷ of_run r (while_running []).1 rest)
      ≡ true
unfolding has_end
stdin_held r r' rest = ground arith

-- A process that runs and was given no input has its stdin on the reading end of a pipe whose writing end
-- is in its `result.io.in`. A process that is created while it runs inherits that writing end: it has the
-- end open still when the parent's close of the file has taken it from the parent. The pipes of each are
-- new: nothing that was open before, and no file of the first process object, is an end of them.
pub inherited_stdin :
    (program : List String → Option ℕ) (pid r r' : ℕ) (p : Process) (w : World) (input : String)
    → p.input ≡ []
    → r ≢ r'
    → Foreign r w.table.ends
    → Foreign r' w.table.ends
    → Earlier r p.result.io
    → (q : Process) × (ps : Pipes) × (v : World) × (start program (some pid) r p w
        ≡ some (q, ps, v))
      × ((prepare_child (create r p.input w.table)).1.stdin ≡ some (end_of r in_pipe reads))
      × (q.result.io.to_in ≡ some (end_of r in_pipe writes))
      × (has_end (end_of r in_pipe writes) (close_end (end_of r in_pipe writes) v.table).ends
          ≡ false)
      × (has_end (end_of r in_pipe writes) (prepare_child (create r' input v.table)).1.ends ≡ true)
unfolding start execute adopt close_end
inherited_stdin program pid r r' p w input e n h h' k =
    let (ps, u) = create r p.input w.table in
    let (marked, status) = run_target program p.target in
    let (ps', t) = prepare_parent (record ps { marker = marked }, u) in
    let (q, ps'', t') = adopt (set_ok true (record p { state = init; pid = child pid })) (ps', t) in
    let forked : World = record w { table = t'; children = w.children ++ (pid, status) ∷ [] } in
    let rest = released true p.result.io w.table.ends in
    let table =
      started_table p.result.io r p.input marked w.table h k
      ∙ ap
          (λ s. record w.table {
            ends = of_run r (while_running s).1 (released (is_empty s) p.result.io w.table.ends);
          })
          e in
    let kept = ap (λ x. x.ends) table in
    let foreign = subst (Foreign r') (sym kept) (
      of_run-Foreign r r' (while_running []).1 rest n
        (released-Foreign r' true p.result.io w.table.ends h')) in
    (
      q,
      ps'',
      forked,
      refl,
      ap (λ x. x.stdin) (child_ends r p.input w.table h),
      file_kept r p.input marked w.table p.result.io.to_in e h,
      has_end-drop_end (end_of r in_pipe writes) t'.ends,
      ap (λ x. has_end (end_of r in_pipe writes) x.ends) (child_ends r' input t' foreign)
          ∙ ap (λ es. has_end (end_of r in_pipe writes) (end_of r' service_pipe writes ∷ es)) kept
          ∙ stdin_held r r' rest,
    )
