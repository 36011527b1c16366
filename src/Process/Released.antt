-- ===== src/Process/Released.antt =====
-- The files that a process object of include/async/io/proc.h holds from an earlier run, and the ends
-- that are closed when a new run lets them go.
use asyncxx.Base.{
  arith, ℕ, ◌≡◌, ◌≢◌, refl, ap, ◌∙◌, Bool, true, false, if◌then◌else◌, List, [], ◌∷◌, Option, none,
  some,
}
use asyncxx.Process.Descriptors.{in_pipe, writes, End, Table, close_end, drop_end}
use asyncxx.Process.{Pipes, Io, close_file, close_files}
use asyncxx.Process.Ends.{Foreign, Ends, of_run, holding, has, has_end-of_run}

-- What is left of a list of ends when a file is closed.
abbrev pub without : Option End → List End → List End
without none es = es
without (some e) es = drop_end e es

abbrev Other : ℕ → Option End → Type 0
Other r none = Unit
Other r (some e) = e.run ≢ r

-- The files of a process are of other runs.
abbrev pub Earlier : ℕ → Io → Type 0
Earlier r io = Other r io.to_in × Other r io.from_out × Other r io.from_err

-- The ends of the files of an earlier run, of its stdin only where the new one keeps its own, are closed.
abbrev pub released : Bool → Io → List End → List End
released stdin io es =
    without io.from_err (without io.from_out (if stdin then without io.to_in es else es))

drop_end-of_other :
    (r : ℕ) (e : End) (cs : Ends) (rest : List End)
    → e.run ≢ r
    → drop_end e (of_run r cs rest) ≡ of_run r cs (drop_end e rest)
unfolding drop_end
drop_end-of_other r e [] rest h = refl
drop_end-of_other r e (c ∷ cs) rest h = ground (arith, h, drop_end-of_other r e cs rest h)

drop_end-Others : (r : ℕ) (e : End) (es : List End) → Foreign r es → Foreign r (drop_end e es)
unfolding drop_end
drop_end-Others r e [] h = tt
drop_end-Others r e (x ∷ es) h = ground (arith, h, drop_end-Others r e es h.1)

without-Foreign : (r : ℕ) (o : Option End) (es : List End) → Foreign r es → Foreign r (without o es)
without-Foreign r none es h = h
without-Foreign r (some e) es h = drop_end-Others r e es h

pub released-Foreign :
    (r : ℕ) (b : Bool) (io : Io) (es : List End) → Foreign r es → Foreign r (released b io es)
released-Foreign r true io es h =
    without-Foreign r io.from_err (without io.from_out (without io.to_in es))
      (without-Foreign r io.from_out (without io.to_in es) (without-Foreign r io.to_in es h))
released-Foreign r false io es h =
    without-Foreign r io.from_err (without io.from_out es) (without-Foreign r io.from_out es h)

close_file-holding :
    (o : Option End) (ps : Pipes) (t : Table) (rest : List End) (x : Ends × Ends)
    → Other ps.run o
    → close_file o (holding ps t rest x).1 ≡ (holding ps t (without o rest) x).1
unfolding close_file close_end
close_file-holding none ps t rest x h = refl
close_file-holding (some e) ps t rest x h =
    ap (λ es. record t { ends = es }) (drop_end-of_other ps.run e x.1 rest h)

pub close_files-holding :
    (io : Io) (ps : Pipes) (t : Table) (rest : List End) (x : Ends × Ends)
    → Earlier ps.run io
    → close_files io (holding ps t rest x).0 (holding ps t rest x).1
      ≡ (holding ps t (released (has in_pipe writes x.0) io rest) x).1
unfolding close_files
close_files-holding io ps t rest x (i, o, e) =
    rw (has_end-of_run ps.run in_pipe writes x.0)
      (elim (has in_pipe writes x.0)
        as (λ b.
          close_file io.from_err (
            close_file io.from_out
              (if b then close_file io.to_in (holding ps t rest x).1 else (holding ps t rest x).1))
          ≡ (holding ps t (released b io rest) x).1) [
            | true ↦
                ap (λ u. close_file io.from_err (close_file io.from_out u))
                  (close_file-holding io.to_in ps t rest x i)
                ∙ rest_closed (without io.to_in rest)
            | false ↦ rest_closed rest
          ])
  where
    rest_closed :
        (es : List End)
        → close_file io.from_err (close_file io.from_out (holding ps t es x).1)
          ≡ (holding ps t (without io.from_err (without io.from_out es)) x).1
    rest_closed es =
        ap (close_file io.from_err) (close_file-holding io.from_out ps t es x o)
        ∙ close_file-holding io.from_err ps t (without io.from_out es) x e
