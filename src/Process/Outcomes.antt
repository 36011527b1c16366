-- ===== src/Process/Outcomes.antt =====
-- What the result of a process of include/async/io/proc.h says of how the process ended.
use asyncxx.Base.{
  ℕ, ◌*◌, ◌/◌, ◌%◌, ◌<◌, ◌≡◌, ◌≢◌, refl, sym, ap, ◌∙◌, Bool, true, false, not, ◌||◌, ◌==◌,
  if◌then◌else◌, List, [], ◌∷◌, ◌++◌, Option, none, some, All, arith,
}
use asyncxx.Str.{String}
use asyncxx.Process.Descriptors.{
  Pipe, in_pipe, out_pipe, err_pipe, Side, reads, writes, Table, has_end, drop_end, close_end,
}
use asyncxx.Process.{
  Process, Pipes, World, Target, command, function, init, exec, done, child, refused, create,
  destroy, prepare_parent, adopt, run, start, execute, wait, waitpid, reap, run_target, exited,
  status_code, record_exit, set_ok, end_of, close_fd, is_empty, is_exec, is_running, kill, chain,
  chain_after, chain_on,
}

reap-append :
    (pid status : ℕ) (cs : List (ℕ × ℕ))
    → All (λ c. c.0 ≢ pid) cs
    → reap pid (cs ++ (pid, status) ∷ []) ≡ some (status, cs)
unfolding reap
reap-append pid status [] h = ground arith
reap-append pid status (c ∷ cs) h = ground (arith, h.0, reap-append pid status cs h.1)

abbrev marker_of : Pipes × Table → Bool
marker_of x = x.0.marker

close_fd-marker : (p : Pipe) (s : Side) (x : Pipes × Table) → (close_fd p s x).0.marker ≡ x.0.marker
unfolding close_fd
close_fd-marker p s (ps, t) =
    let e = end_of ps.run p s in
    elim (has_end e ps.live)
      as (λ b.
        marker_of (if b then (record ps { live = drop_end e ps.live }, close_end e t) else (ps, t))
        ≡ ps.marker) [ true ↦ refl | false ↦ refl ]

prepare_parent-marker : (x : Pipes × Table) → (prepare_parent x).0.marker ≡ x.0.marker
unfolding prepare_parent
prepare_parent-marker x =
    let a = close_fd out_pipe writes x in
    let b = close_fd err_pipe writes a in
    let y = close_fd in_pipe reads b in
    let same =
      close_fd-marker in_pipe reads b
      ∙ close_fd-marker err_pipe writes a
      ∙ close_fd-marker out_pipe writes x in
    elim (is_empty y.0.input)
      as (λ e. marker_of (if e then y else close_fd in_pipe writes y) ≡ x.0.marker) [
        | true ↦ same
        | false ↦ close_fd-marker in_pipe writes y ∙ same
      ]

wait-found :
    (p : Process) (ps : Pipes) (w : World) (status : ℕ) (others : List (ℕ × ℕ))
    → waitpid w.ended p.pid w.children ≡ some (status, others)
    → wait p ps w ≡ (
      record_exit ps.marker status p,
      record ps { marker = false },
      record w { children = others },
    )
unfolding wait
wait-found p ps w status others e = rw (wait, e) refl

run_status :
    (program : List String → Option ℕ) (pid r : ℕ) (p : Process) (w : World)
    → All (λ c. c.0 ≢ pid) w.children
    → let (marked, status) = run_target program p.target in
      (q : Process) × (v : World) × (run program (some pid) r p w ≡ some (q, v))
      × (q.result.ok ≡ not marked)
      × (q.result.exit_code ≡ (if exited status then status_code status else p.result.exit_code))
      × (q.state ≡ exec)
      × (q.pid ≡ child pid)
      × (v.children ≡ w.children)
unfolding run execute adopt waitpid
run_status program pid r p w h =
    let (ps, u) = create r p.input w.table in
    let (marked, status) = run_target program p.target in
    let made : Pipes × Table = (record ps { marker = marked }, u) in
    let (ps', t) = prepare_parent made in
    let (q, ps'', t') = adopt (set_ok true (record p { state = init; pid = child pid })) (ps', t) in
    let forked : World = record w { table = t'; children = w.children ++ (pid, status) ∷ [] } in
    let x = wait q ps'' forked in
    let e = wait-found q ps'' forked status w.children (reap-append pid status w.children h) in
    (
      x.0,
      record x.2 { table = (destroy (x.1, x.2.table)).1 },
      refl,
      ap (λ y. y.0.result.ok) e ∙ ap not (prepare_parent-marker made),
      ap (λ y. y.0.result.exit_code) e,
      ap (λ y. y.0.state) e,
      ap (λ y. y.0.pid) e,
      ap (λ y. y.2.children) e,
    )

-- How a child ends, and what is said of it: `old` is the exit code that the process object held before.
pub data Ends (program : List String → Option ℕ) (old : ℕ) : Target → Bool → ℕ → Type 0 where
  -- The command is found and exits with a code.
  exits :
      {args : List String} {code : ℕ}
      → code < 256
      → program args ≡ some (code * 256)
      → Ends program old (command args) true code
  -- The command is found and dies of a signal.
  killed :
      {args : List String} {status : ℕ}
      → 0 < status % 128
      → program args ≡ some status
      → Ends program old (command args) true old
  -- The command is not found.
  missing : {args : List String} → program args ≡ none → Ends program old (command args) false 255
  -- The function returns.
  returns : {code : ℕ} → Ends program old (function code) true (code % 256)

-- The status that a child leaves says as much.
Ends-status :
    (program : List String → Option ℕ) (old : ℕ) (target : Target) (ok : Bool) (code : ℕ)
    → Ends program old target ok code
    → let (marked, status) = run_target program target in
      (not marked ≡ ok) × ((if exited status then status_code status else old) ≡ code)
unfolding run_target
Ends-status program old _ _ _ (exits {args} {code} l e) =
    let whole : code * 256 % 128 ≡ 0 = omega arith in
    let back : code * 256 / 256 % 256 ≡ code = omega arith in
    rw (run_target, e, whole, back) (refl, refl)
Ends-status program old _ _ _ (killed {args} {status} l e) = rw (run_target, e) (refl, ground arith)
Ends-status program old _ _ _ (missing {args} e) = rw (run_target, e) (refl, refl)
Ends-status program old _ _ _ (returns {code}) =
    let whole : code % 256 * 256 % 128 ≡ 0 = omega arith in
    let back : code % 256 * 256 / 256 % 256 ≡ code % 256 = omega arith in
    rw (run_target, whole, back) (refl, refl)

-- What `run()` reports, for a child whose pid no other child of the parent has: it is ok unless the
-- command was not found, the exit code is the low byte of what the command or the function gave, the
-- code held before if a signal ended it, and 255 if it was not found. The child is reaped and no
-- other, and yet the process object goes on saying that it runs, and `kill` to signal the pid.
pub run_lem :
    (program : List String → Option ℕ) (pid r : ℕ) (p : Process) (w : World) (ok : Bool) (code : ℕ)
    → All (λ c. c.0 ≢ pid) w.children
    → Ends program p.result.exit_code p.target ok code
    → (q : Process) × (v : World) × (run program (some pid) r p w ≡ some (q, v))
      × (q.result.ok ≡ ok)
      × (q.result.exit_code ≡ code)
      × (v.children ≡ w.children)
      × (is_running q ≡ true)
      × (kill q ≡ some (child pid))
unfolding is_running kill
run_lem program pid r p w ok code h ends =
    let (q, v, ran, a, b, state, who, left) = run_status program pid r p w h in
    let (a', b') = Ends-status program p.result.exit_code p.target ok code ends in
    (
      q,
      v,
      ran,
      a ∙ a',
      b ∙ b',
      left,
      ap is_exec state,
      ap (λ st. if is_exec st then some q.pid else none) state ∙ ap some who,
    )

reap-middle :
    (pid status : ℕ) (cs ds : List (ℕ × ℕ))
    → All (λ c. c.0 ≢ pid) cs
    → reap pid (cs ++ (pid, status) ∷ ds) ≡ some (status, cs ++ ds)
unfolding reap
reap-middle pid status [] ds h = ground arith
reap-middle pid status (c ∷ cs) ds h = ground (arith, h.0, reap-middle pid status cs ds h.1)

-- Where `fork` fails, `run()` waits for any child: of the children of other processes it reaps the one
-- that ends first, which is none of its own, and if that exits, it reports its exit code as a success.
pub run_steals :
    (program : List String → Option ℕ) (r : ℕ) (p : Process) (w : World) (status : ℕ)
    (before after : List (ℕ × ℕ))
    → w.children ≡ before ++ (w.ended, status) ∷ after
    → All (λ c. c.0 ≢ w.ended) before
    → status % 128 ≡ 0
    → (q : Process) × (v : World) × (run program none r p w ≡ some (q, v))
      × (q.result.ok ≡ true)
      × (q.result.exit_code ≡ status / 256 % 256)
      × (v.children ≡ before ++ after)
unfolding run execute waitpid create
run_steals program r p w status before after e h n =
    let (ps, u) = create r p.input w.table in
    let q = set_ok false (record p { pid = refused; state = done }) in
    let forked : World = record w { table = u } in
    let x = wait q ps forked in
    let found =
      wait-found q ps forked status (before ++ after)
        (ap (waitpid w.ended refused) e ∙ reap-middle w.ended status before after h) in
    let normal : exited status ≡ true = ground arith in
    (
      x.0,
      record x.2 { table = (destroy (x.1, x.2.table)).1 },
      refl,
      ap (λ y. y.0.result.ok) found,
      ap (λ y. y.0.result.exit_code) found
          ∙ ap (λ b. if b then status_code status else p.result.exit_code) normal,
      ap (λ y. y.2.children) found,
    )

-- `start()` holds the mutex while it forks, and waits for itself for ever if that fails; `run()` does
-- not hold it.
pub start_lem :
    (program : List String → Option ℕ) (r : ℕ) (p : Process) (w : World)
    → (start program none r p w ≡ none)
      × ((q : Process) × (v : World) × (run program none r p w ≡ some (q, v)))
      × ((pid : ℕ) → (x : Process × Pipes × World) × (start program (some pid) r p w ≡ some x))
unfolding start run execute
start_lem program r p w = (refl, (_, _, refl), λ pid. (_, refl))

chain_on_lem :
    (program : List String → Option ℕ) (fork : Option ℕ) (r : ℕ) (output : String) (p q : Process)
    (w : World)
    → q.result.ok ≡ true
    → q.result.exit_code ≡ 0
    → chain_on program fork r output p (q, w) ≡ some (q, w)
chain_on_lem program fork r output p q w a b =
    let second = run program fork r (record p { input = output }) w in
    ap (λ c. if not c || q.result.exit_code == 0 then some (q, w) else second) a
    ∙ ap (λ n. if n == 0 then some (q, w) else second) b

-- `chain` on a first process that ends well, with the code 0, does not run the second one: the result
-- is the first one's.
pub chain_lem :
    (program : List String → Option ℕ) (pid : ℕ) (fork : Option ℕ) (r r' : ℕ) (output : String)
    (p p' : Process) (w : World)
    → All (λ c. c.0 ≢ pid) w.children
    → Ends program p.result.exit_code p.target true 0
    → chain program (some pid, fork) (r, r') output p p' w ≡ run program (some pid) r p w
unfolding chain
chain_lem program pid fork r r' output p p' w h ends =
    let (q, v, ran, a, b, left, runs, kills) = run_lem program pid r p w true 0 h ends in
    ap (chain_after program fork r' output p') ran
    ∙ chain_on_lem program fork r' output p' q v a b
    ∙ sym ran
