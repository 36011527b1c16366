-- ===== src/Process/Ends.antt =====
-- Closing the ends of the pipes of include/async/io/proc.h, one after the other: since each run's ends
-- are its own, what is closed is told by pipe and side alone.
use asyncxx.Base.{
  ℕ, ◌≡◌, ◌≢◌, refl, ap, ◌∙◌, Bool, true, false, ◌&&◌, ◌==◌, if◌then◌else◌, List, [], ◌∷◌, All,
  arith,
}
use asyncxx.Process.Descriptors.{
  Pipe, Side, End, Table, same_end, same_pipe, same_side, has_end, drop_end, close_end,
}
use asyncxx.Process.{Pipes, close_fd, end_of}

-- No end of this run.
abbrev pub Foreign : ℕ → List End → Type 0
Foreign r = All (λ e. e.run ≢ r)

drop_end-Foreign :
    (r : ℕ) (p : Pipe) (s : Side) (es : List End) → Foreign r es → drop_end (end_of r p s) es ≡ es
unfolding drop_end
drop_end-Foreign r p s [] h = refl
drop_end-Foreign r p s (e ∷ es) h = ground (arith, h.0, drop_end-Foreign r p s es h.1)

abbrev pub Ends : Type 0
Ends = List (Pipe × Side)

-- The ends of one run, by pipe and side.
abbrev pub of_run : ℕ → Ends → List End → List End
of_run r [] rest = rest
of_run r (c ∷ cs) rest = end_of r c.0 c.1 ∷ of_run r cs rest

abbrev pub same : Pipe → Side → Pipe × Side → Bool
same p s c = same_pipe c.0 p && same_side c.1 s

abbrev pub has : Pipe → Side → Ends → Bool
has p s [] = false
has p s (c ∷ cs) = if same p s c then true else has p s cs

abbrev pub drop : Pipe → Side → Ends → Ends
drop p s [] = []
drop p s (c ∷ cs) = if same p s c then drop p s cs else c ∷ drop p s cs

same_end-end_of :
    (r : ℕ) (p : Pipe) (s : Side) (c : Pipe × Side)
    → same_end (end_of r c.0 c.1) (end_of r p s) ≡ same p s c
same_end-end_of r p s c =
    elim (same_pipe c.0 p) as (λ b. (b && (same_side c.1 s && r == r)) ≡ (b && same_side c.1 s)) [
      | true ↦ elim (same_side c.1 s) as (λ b. (b && r == r) ≡ b) [
        | true ↦ ground arith
        | false ↦ refl
      ]
      | false ↦ refl
    ]

pub has_end-of_run :
    (r : ℕ) (p : Pipe) (s : Side) (cs : Ends) → has_end (end_of r p s) (of_run r cs []) ≡ has p s cs
unfolding has_end
has_end-of_run r p s [] = refl
has_end-of_run r p s (c ∷ cs) = rw (same_end-end_of r p s c, has_end-of_run r p s cs) refl

pub drop_end-of_run :
    (r : ℕ) (p : Pipe) (s : Side) (cs : Ends) (rest : List End)
    → Foreign r rest
    → drop_end (end_of r p s) (of_run r cs rest) ≡ of_run r (drop p s cs) rest
unfolding drop_end
drop_end-of_run r p s [] rest h = drop_end-Foreign r p s rest h
drop_end-of_run r p s (c ∷ cs) rest h =
    rw (same_end-end_of r p s c, drop_end-of_run r p s cs rest h)
      (elim (same p s c)
        as (λ b.
          (if b
            then of_run r (drop p s cs) rest
            else end_of r c.0 c.1 ∷ of_run r (drop p s cs) rest)
          ≡ of_run r (if b then drop p s cs else c ∷ drop p s cs) rest) [
            | true ↦ refl
            | false ↦ refl
          ])

-- The pipes of a run with some numbers not -1, in a process with some ends open.
abbrev pub holding : Pipes → Table → List End → Ends × Ends → Pipes × Table
holding ps t rest (live, open_ends) =
    (record ps { live = of_run ps.run live [] }, record t { ends = of_run ps.run open_ends rest })

abbrev pub shut : Pipe → Side → Ends × Ends → Ends × Ends
shut p s (live, open_ends) =
    if has p s live then (drop p s live, drop p s open_ends) else (live, open_ends)

pub close_fd-holding :
    (p : Pipe) (s : Side) (ps : Pipes) (t : Table) (rest : List End) (x : Ends × Ends)
    → Foreign ps.run rest
    → close_fd p s (holding ps t rest x) ≡ holding ps t rest (shut p s x)
unfolding close_fd close_end
close_fd-holding p s ps t rest x h =
    rw
      (
        has_end-of_run ps.run p s x.0,
        drop_end-of_run ps.run p s x.0 [] tt,
        drop_end-of_run ps.run p s x.1 rest h,
      )
      (elim (has p s x.0)
        as (λ b.
          (if b then holding ps t rest (drop p s x.0, drop p s x.1) else holding ps t rest x)
          ≡ holding ps t rest (if b then (drop p s x.0, drop p s x.1) else x)) [
            | true ↦ refl
            | false ↦ refl
          ])

-- Several, one after the other.
abbrev pub close_list : Ends → Pipes × Table → Pipes × Table
close_list [] x = x
close_list (c ∷ cs) x = close_list cs (close_fd c.0 c.1 x)

abbrev pub shut_list : Ends → Ends × Ends → Ends × Ends
shut_list [] x = x
shut_list (c ∷ cs) x = shut_list cs (shut c.0 c.1 x)

pub close_list-holding :
    (cs : Ends) (ps : Pipes) (t : Table) (rest : List End) (x : Ends × Ends)
    → Foreign ps.run rest
    → close_list cs (holding ps t rest x) ≡ holding ps t rest (shut_list cs x)
close_list-holding [] ps t rest x h = refl
close_list-holding (c ∷ cs) ps t rest x h =
    ap (close_list cs) (close_fd-holding c.0 c.1 ps t rest x h)
    ∙ close_list-holding cs ps t rest (shut c.0 c.1 x) h
