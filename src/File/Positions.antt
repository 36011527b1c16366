-- ===== src/File/Positions.antt =====
-- The offset stack of include/async/io/file.h, and the flags that outlive a file.
use asyncxx.Base.{ℕ, ◌<◌, ◌≡◌, refl, ◌∙◌, true, false, List, [], ◌∷◌, Option, some, arith}
use asyncxx.Flags.{get_flag, set_flag, set_flag_lem}
use asyncxx.Str.{String}
use asyncxx.File.{
  File, Stream, done, Offset, seek, push, pop, tell, rewind, size, open_path, close, flag_pipe,
  flag_owner, flag_opened, fseek, with_handle,
}

-- What may happen to an open file between `push` and `pop`.
pub data Move : Type 0 where
  seeks : Offset → Move
  rewinds : Move
  sizes : Move
  reads : (Stream → Stream) → Move

abbrev pub move : Move → File → File
move (seeks ofs) f = (seek ofs f).1
move rewinds f = (rewind f).1
move sizes f = (size f).1
move (reads work) f = (with_handle (λ s. (done tt, work s)) f).1

abbrev pub moves : List Move → File → File
moves [] f = f
moves (m ∷ ms) f = moves ms (move m f)

-- An open file with these offsets.
abbrev pub Open : List ℕ → File → Type 0
Open ofs f = (f.offsets ≡ ofs) × (s : Stream) × (f.handle ≡ some s)

move-Open : (ofs : List ℕ) (m : Move) (f : File) → Open ofs f → Open ofs (move m f)
unfolding seek rewind size
move-Open ofs (seeks o) f (e, s, h) = rw h (e, fseek o s, refl)
move-Open ofs rewinds f (e, s, h) = rw h (e, (record s { position = 0; at_end = false }), refl)
move-Open ofs sizes f (e, s, h) = rw h (e, _, refl)
move-Open ofs (reads work) f (e, s, h) = rw h (e, work s, refl)

moves-Open : (ofs : List ℕ) (ms : List Move) (f : File) → Open ofs f → Open ofs (moves ms f)
moves-Open ofs [] f h = h
moves-Open ofs (m ∷ ms) f h = moves-Open ofs ms (move m f) (move-Open ofs m f h)

push-Open : (f : File) (s : Stream) → f.handle ≡ some s → Open (s.position ∷ f.offsets) (push f).1
unfolding push tell
push-Open f s h = rw h (refl, s, refl)

-- On an open file `pop` takes the position back to where it was at the last `push`, whatever was
-- read or sought in between, and the older offsets are as before.
pub pop-push :
    (ms : List Move) (f : File) (s : Stream)
    → f.handle ≡ some s
    → (g : File) × (t : Stream) × (pop (moves ms (push f).1) ≡ some (done tt, g))
      × (g.handle ≡ some t)
      × (t.position ≡ s.position)
      × (g.offsets ≡ f.offsets)
unfolding pop seek fseek
pop-push ms f s h =
    let m = moves ms (push f).1 in
    let (e, t, k) = moves-Open (s.position ∷ f.offsets) ms (push f).1 (push-Open f s h) in
    let back = record t { position = s.position; at_end = false } in
    (
      record m { handle = some back; offsets = f.offsets },
      back,
      ground (arith, e, k),
      refl,
      refl,
      refl,
    )

-- `close` leaves the mark of a pipe: a file that was a pipe and is opened on a path reports the
-- size 0, whatever the new file holds.
pub size_after_pipe :
    (fopen : String → String → Option Stream) (name mode : String) (f : File) (s : Stream)
    → f.flags < 256
    → get_flag flag_pipe f.flags ≡ true
    → fopen name mode ≡ some s
    → (size (open_path fopen name mode f).1).0 ≡ done 0
unfolding size open_path close
size_after_pipe fopen name mode f s b p e =
    let shut = set_flag_lem false 1 2 f.flags (omega arith) (omega arith) b in
    let owned =
      set_flag_lem true 0 2 (set_flag flag_opened false f.flags) (omega arith) (omega arith)
        shut.0 in
    let marked =
      set_flag_lem true 1 2 (set_flag flag_owner true (set_flag flag_opened false f.flags))
        (omega arith) (omega arith) owned.0 in
    let pipe = marked.1 ∙ owned.1 ∙ shut.1 ∙ p in rw e (ground (arith, pipe))
