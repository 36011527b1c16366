-- ===== src/Process/Inherit.antt =====
-- Which ends of its pipes a process of include/async/io/proc.h and its parent are left with.
use asyncxx.Base.{
  ℕ, ◌≡◌, refl, ap, ◌∙◌, Bool, true, false, if◌then◌else◌, List, [], ◌∷◌, ◌++◌, Option, none, some,
}
use asyncxx.Str.{String}
use asyncxx.Process.Descriptors.{
  Pipe, in_pipe, out_pipe, err_pipe, service_pipe, Side, reads, writes, End, Table, open_pipe,
}
use asyncxx.Process.{
  Process, Pipes, World, create, close_from_child, prepare_child, prepare_parent, destroy, adopt,
  Io, close_files, hand_over, record_exit, set_ok, close_fd, end_of, is_empty, run, init, child,
  execute, wait, waitpid, run_target,
}
use asyncxx.Process.Ends.{
  Foreign, Ends, of_run, holding, drop, shut, shut_list, close_fd-holding, close_list-holding,
  drop_end-of_run, has,
}
use asyncxx.Process.Released.{Earlier, released, released-Foreign, close_files-holding}

-- As `create` opens them.
abbrev pub all_ends : Ends
all_ends =
    (service_pipe, reads)
    ∷ (service_pipe, writes)
    ∷ (in_pipe, reads)
    ∷ (in_pipe, writes)
    ∷ (err_pipe, reads)
    ∷ (err_pipe, writes)
    ∷ (out_pipe, reads)
    ∷ (out_pipe, writes)
    ∷ []

abbrev pub both : Pipe → Ends → Ends
both p cs = (p, reads) ∷ (p, writes) ∷ cs

-- A prepared child has its pipes as its standard descriptors, and else only the end for the marker and
-- what its parent had open.
pub child_ends :
    (r : ℕ) (input : String) (t : Table)
    → Foreign r t.ends
    → (prepare_child (create r input t)).1 ≡ record {
      stdin = some (end_of r in_pipe reads);
      stdout = some (end_of r out_pipe writes);
      stderr = some (end_of r err_pipe writes);
      ends = end_of r service_pipe writes ∷ t.ends;
    }
unfolding prepare_child close_from_child create open_pipe
child_ends r input t h =
    let ps = (create r input t).0 in
    let std = record t {
      stdin = some (end_of r in_pipe reads);
      stdout = some (end_of r out_pipe writes);
      stderr = some (end_of r err_pipe writes);
    } in
    ap (λ x. x.1)
      (close_list-holding
        (both in_pipe (both out_pipe (both err_pipe ((service_pipe, reads) ∷ [])))) ps std t.ends
        (all_ends, all_ends) h)

-- What the parent keeps: the ends of its files, stdin's only if it is not closed already.
abbrev pub kept : String → Ends
kept [] = (in_pipe, writes) ∷ (err_pipe, reads) ∷ (out_pipe, reads) ∷ []
kept (c ∷ s) = (err_pipe, reads) ∷ (out_pipe, reads) ∷ []

hand_over-holding :
    (p : Pipe) (s : Side) (ps : Pipes) (t : Table) (rest : List End) (x : Ends × Ends)
    → hand_over p s (holding ps t rest x).0 ≡ (holding ps t rest (drop p s x.0, x.1)).0
hand_over-holding p s ps t rest x =
    ap (λ l. record ps { live = l }) (drop_end-of_run ps.run p s x.0 [] tt)

-- The descriptors of the parent between the fork and the end of `pipes`.
abbrev parent_end : Io → Pipes × Table → Pipes × Table
parent_end io (ps, t) = destroy (
  record (hand_over err_pipe reads (hand_over out_pipe reads (hand_over in_pipe writes ps))) {
    marker = false;
  },
  close_files io ps t,
)

parent_end-holding :
    (io : Io) (ps : Pipes) (t : Table) (rest : List End) (x : Ends × Ends)
    → Foreign ps.run rest
    → Earlier ps.run io
    → (parent_end io (holding ps t rest x)).1
      ≡ (holding ps t (released (has in_pipe writes x.0) io rest) (
          shut_list
            (both in_pipe (both out_pipe (both err_pipe (both service_pipe []))))
            (drop err_pipe reads (drop out_pipe reads (drop in_pipe writes x.0)), x.1))).1
unfolding destroy
parent_end-holding io ps t rest x h k =
    let hand = λ (p : Pipe) (s : Side) (q : Pipes). hand_over p s q in
    let rest' = released (has in_pipe writes x.0) io rest in
    let made = holding ps t rest x in
    let handed =
      ap (λ q. hand err_pipe reads (hand out_pipe reads q))
        (hand_over-holding in_pipe writes ps t rest x)
      ∙ ap (hand err_pipe reads)
          (hand_over-holding out_pipe reads ps t rest (drop in_pipe writes x.0, x.1))
      ∙ hand_over-holding err_pipe reads ps t rest
          (drop out_pipe reads (drop in_pipe writes x.0), x.1) in
    ap (λ q. (destroy (record q { marker = false }, close_files io made.0 made.1)).1) handed
    ∙ ap
        (λ u.
          (destroy (
            record (holding ps t rest
                (drop err_pipe reads (drop out_pipe reads (drop in_pipe writes x.0)), x.1)).0 {
                  marker = false;
                },
            u,
          )).1)
        (close_files-holding io ps t rest x k)
    ∙ ap (λ y. y.1)
        (close_list-holding (both in_pipe (both out_pipe (both err_pipe (both service_pipe []))))
          (record ps { marker = false }) t rest'
          (drop err_pipe reads (drop out_pipe reads (drop in_pipe writes x.0)), x.1)
          (released-Foreign ps.run (has in_pipe writes x.0) io rest h))

abbrev pub unused_by_parent : Ends
unused_by_parent = (out_pipe, writes) ∷ (err_pipe, writes) ∷ (in_pipe, reads) ∷ []

abbrev pub after_input : Bool → Ends × Ends → Ends × Ends
after_input none_given x = if none_given then x else shut in_pipe writes x

pub prepare_parent-holding :
    (ps : Pipes) (t : Table) (rest : List End) (x : Ends × Ends)
    → Foreign ps.run rest
    → prepare_parent (holding ps t rest x)
      ≡ holding ps t rest (after_input (is_empty ps.input) (shut_list unused_by_parent x))
unfolding prepare_parent
prepare_parent-holding ps t rest x h =
    let y = shut_list unused_by_parent x in
    ap (λ z. if is_empty z.0.input then z else close_fd in_pipe writes z)
      (close_list-holding unused_by_parent ps t rest x h)
    ∙ elim (is_empty ps.input)
        as (λ b.
          (if b then holding ps t rest y else close_fd in_pipe writes (holding ps t rest y))
          ≡ holding ps t rest (after_input b y)) [
            | true ↦ refl
            | false ↦ close_fd-holding in_pipe writes ps t rest y h
          ]

wait_lem :
    (p : Process) (ps : Pipes) (w : World)
    → ((wait p ps w).1 ≡ record ps { marker = false }) × ((wait p ps w).2.table ≡ w.table)
unfolding wait
wait_lem p ps w = go (waitpid w.ended p.pid w.children)
  where
    left : Option (ℕ × List (ℕ × ℕ)) → Process × Pipes × World
    left none = (record_exit ps.marker 0 (set_ok false p), record ps { marker = false }, w)
    left (some (status, others)) = (
      record_exit ps.marker status p,
      record ps { marker = false },
      record w { children = others },
    )

    go :
        (o : Option (ℕ × List (ℕ × ℕ)))
        → ((left o).1 ≡ record ps { marker = false }) × ((left o).2.table ≡ w.table)
    go none = (refl, refl)
    go (some (status, others)) = (refl, refl)

abbrev handed : Ends × Ends → Ends × Ends
handed x = (drop err_pipe reads (drop out_pipe reads (drop in_pipe writes x.0)), x.1)

abbrev every_pipe : Ends
every_pipe = both in_pipe (both out_pipe (both err_pipe (both service_pipe [])))

kept_lem :
    (input : String)
    → (shut_list every_pipe
        (handed (after_input (is_empty input) (shut_list unused_by_parent (all_ends, all_ends))))).1
      ≡ kept input
kept_lem [] = refl
kept_lem (c ∷ s) = refl

pub stdin_lem :
    (input : String)
    → has in_pipe writes
        (after_input (is_empty input) (shut_list unused_by_parent (all_ends, all_ends))).0
      ≡ is_empty input
stdin_lem [] = refl
stdin_lem (c ∷ s) = refl

parent_ends :
    (io : Io) (r : ℕ) (input : String) (marked : Bool) (t : Table)
    → Foreign r t.ends
    → Earlier r io
    → let (ps, u) = create r input t in
      (parent_end io (prepare_parent (record ps { marker = marked }, u))).1
      ≡ record t { ends = of_run r (kept input) (released (is_empty input) io t.ends) }
unfolding create open_pipe
parent_ends io r input marked t h k =
    let made = record (create r input t).0 { marker = marked } in
    let x = after_input (is_empty input) (shut_list unused_by_parent (all_ends, all_ends)) in
    ap (λ y. (parent_end io y).1) (prepare_parent-holding made t t.ends (all_ends, all_ends) h)
    ∙ parent_end-holding io made t t.ends x h k
    ∙ ap
        (λ b. record t {
          ends = of_run r (shut_list every_pipe (handed x)).1 (released b io t.ends);
        })
        (stdin_lem input)
    ∙ ap (λ cs. record t { ends = of_run r cs (released (is_empty input) io t.ends) })
        (kept_lem input)

-- The pipes of the run are new: nothing that was open before, and no file of the process object, is an
-- end of them. A process that was run leaves its parent with the ends of its files and with what was open before, but
-- for the ends of the files that the same process object held from an earlier run: those of its stdout
-- and stderr are closed, and that of its stdin where the new run has no input. No other descriptor stays
-- open, and no other one is closed.
pub run_ends :
    (program : List String → Option ℕ) (pid r : ℕ) (p : Process) (w : World)
    → Foreign r w.table.ends
    → Earlier r p.result.io
    → (q : Process) × (v : World) × (run program (some pid) r p w ≡ some (q, v))
      × (v.table ≡ record w.table {
        ends = of_run r (kept p.input) (released (is_empty p.input) p.result.io w.table.ends);
      })
unfolding run execute adopt
run_ends program pid r p w h k =
    let (ps, u) = create r p.input w.table in
    let (marked, status) = run_target program p.target in
    let (ps', t) = prepare_parent (record ps { marker = marked }, u) in
    let (q, ps'', t') = adopt (set_ok true (record p { state = init; pid = child pid })) (ps', t) in
    let forked : World = record w { table = t'; children = w.children ++ (pid, status) ∷ [] } in
    let x = wait q ps'' forked in
    let (e, f) = wait_lem q ps'' forked in
    (
      x.0,
      record x.2 { table = (destroy (x.1, x.2.table)).1 },
      refl,
      ap (λ y. (destroy (y, x.2.table)).1) e
          ∙ ap (λ y. (destroy (record ps'' { marker = false }, y)).1) f
          ∙ parent_ends p.result.io r p.input marked w.table h k,
    )
