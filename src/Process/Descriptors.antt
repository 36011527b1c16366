-- ===== src/Process/Descriptors.antt =====
-- The file descriptors of a process, as far as include/async/io/proc.h uses them. The kernel gives
-- each end of a pipe a number of its own, above the three standard ones, so that an end stands for
-- its number; the standard numbers are slots.
use asyncxx.Base.{ℕ, Bool, true, false, ◌&&◌, ◌==◌, if◌then◌else◌, List, [], ◌∷◌, Option}

pub data Pipe : Type 0 where
  in_pipe out_pipe err_pipe service_pipe : Pipe

-- `p[0]` and `p[1]`.
pub data Side : Type 0 where
  reads writes : Side

-- `run` tells the pipes of one `Pipes` object from those of another.
pub record End : Type 0 where
  pub run : ℕ
  pub pipe : Pipe
  pub side : Side

abbrev pub same_pipe : Pipe → Pipe → Bool
same_pipe in_pipe in_pipe = true
same_pipe out_pipe out_pipe = true
same_pipe err_pipe err_pipe = true
same_pipe service_pipe service_pipe = true
same_pipe _ _ = false

abbrev pub same_side : Side → Side → Bool
same_side reads reads = true
same_side writes writes = true
same_side _ _ = false

abbrev pub same_end : End → End → Bool
same_end a b = same_pipe a.pipe b.pipe && (same_side a.side b.side && a.run == b.run)

unfoldable pub has_end : End → List End → Bool
has_end e [] = false
has_end e (x ∷ xs) = if same_end x e then true else has_end e xs

unfoldable pub drop_end : End → List End → List End
drop_end e [] = []
drop_end e (x ∷ xs) = let rest = drop_end e xs in if same_end x e then rest else x ∷ rest

-- What a process has open.
pub record Table : Type 0 where
  pub stdin : Option End
  pub stdout : Option End
  pub stderr : Option End
  pub ends : List End

-- `pipe(2)`
unfoldable pub open_pipe : ℕ → Pipe → Table → Table
open_pipe r p t = record t {
  ends =
      record { run = r; pipe = p; side = reads }
      ∷ record { run = r; pipe = p; side = writes }
      ∷ t.ends;
}

-- `close(2)`
unfoldable pub close_end : End → Table → Table
unfolding drop_end
close_end e t = record t { ends = drop_end e t.ends }
