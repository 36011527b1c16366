-- ===== src/File.antt =====
-- include/async/io/file.h. A C stream is its bytes, the position, the end-of-file mark and what its
-- mode and state allow. `fopen` and `fdopen` are arguments, which are given the mode. The bodies that `to_thread` runs are
-- functions of the stream at the time when they run. Positions are those of a stream that can seek.
pub mod Reading
pub mod Chunks
pub mod Positions
pub mod Lines
pub mod Calls
use asyncxx.Base.{
  ◌||◌, ℕ, zero, suc, ◌+◌, ◌-◌, Bool, true, false, ◌&&◌, not, if◌then◌else◌, ◌==◌, ltb, leb, List,
  [], ◌∷◌, ◌++◌, Option, none, some, length,
}
use asyncxx.Flags.{get_flag, set_flag}
use asyncxx.Str.{String, take, drop}

-- `broken` says that every read fails, and `read_only` that every write does: by the mode of the stream
-- or by an error. `appends` is the mode "a".
pub record Stream : Type 0 where
  pub bytes : String
  pub position : ℕ
  pub at_end : Bool
  pub broken : Bool
  pub read_only : Bool
  pub appends : Bool

pub data FileError : Type 0 where
  open_failed : FileError
  not_opened : FileError
  read_failed : FileError
  write_failed : FileError

pub data Try (A : Type 0) : Type 0 where
  done : A → Try A
  failed : FileError → Try A

-- The C library's calls.
unfoldable pub fread : ℕ → Stream → String × Stream
fread n s =
    let buf = take n (drop s.position s.bytes) in
    if s.broken then ([], s) else (
      buf,
      record s { position = s.position + length buf; at_end = s.at_end || ltb (length buf) n },
    )

abbrev pub zeros : ℕ → String
zeros zero = []
zeros (suc n) = 0 ∷ zeros n

-- The first `n` bytes of a file, behind whose end the bytes are 0.
abbrev pub padded : ℕ → String → String
padded n s = take n s ++ zeros (n - length s)

-- Overwrites from a position on, and fills what lies between the end and the position.
abbrev pub written : ℕ → String → Stream → Stream
written p text s = record s {
  bytes = padded p s.bytes ++ (text ++ drop (p + length text) s.bytes);
  position = p + length text;
}

-- What it returns is the number of items, 0 for an empty item and where the write fails.
unfoldable pub fwrite : String → Stream → ℕ × Stream
fwrite [] s = (0, s)
fwrite (c ∷ text) s =
    let p = if s.appends then length s.bytes else s.position in
    if s.read_only then (0, s) else (1, written p (c ∷ text) s)

-- A place from the start, or so many bytes before the end.
pub data Offset : Type 0 where
  from_start : ℕ → Offset
  before_end : ℕ → Offset

-- `fseek`; it fails, and moves nothing, in front of the start.
unfoldable pub fseek : Offset → Stream → Stream
fseek (from_start n) s = record s { position = n; at_end = false }
fseek (before_end n) s =
    if leb n (length s.bytes) then record s { position = length s.bytes - n; at_end = false } else s

abbrev pub flag_owner : ℕ
flag_owner = 1

abbrev pub flag_opened : ℕ
flag_opened = 2

abbrev pub flag_pipe : ℕ
flag_pipe = 4

pub record File : Type 0 where
  pub filename : String
  pub handle : Option Stream
  pub flags : ℕ
  pub offsets : List ℕ

unfoldable pub close : File → File
close f = record f {
  handle = if get_flag flag_owner f.flags then none else f.handle;
  filename = [];
  flags = set_flag flag_opened false f.flags;
}

abbrev pub opened : Option Stream → File → Try Unit × File
opened none f = (failed open_failed, record f { handle = none })
opened (some s) f = (
  done tt,
  record f {
    handle = some s;
    flags = set_flag flag_opened true (set_flag flag_owner true f.flags);
  },
)

-- `open(filename, mode)`
unfoldable pub open_path :
    (String → String → Option Stream) → String → String → File → Try Unit × File
unfolding close
open_path fopen filename mode f =
    opened (fopen filename mode) (record (close f) { filename = filename })

abbrev pub marked_pipe : Try Unit × File → Try Unit × File
marked_pipe (done u, f) = (done u, record f { flags = set_flag flag_pipe true f.flags })
marked_pipe (failed e, f) = (failed e, f)

-- `File(fd, mode)`: `name` is the number as a text, and `fdopen` is given the mode.
unfoldable pub of_fd : (String → Option Stream) → String → String → Try Unit × File
of_fd fdopen name mode =
    marked_pipe
      (opened (fdopen mode) (record { filename = name; handle = none; flags = 0; offsets = [] }))

unfoldable pub disown : File → File
disown f = record f { flags = set_flag flag_owner false f.flags }

-- A call that throws `FileNotOpenedException` when there is no handle, and else works on the stream.
abbrev pub with_handle : {A : Type 0} → (Stream → Try A × Stream) → File → Try A × File
with_handle work f = elim f.handle [
  | none ↦ (failed not_opened, f)
  | some s ↦ (let (r, s') = work s in (r, record f { handle = some s' }))
]

abbrev pub rewound : Stream → Stream
rewound s = record s { position = 0; at_end = false }

-- It leaves the position at the start.
unfoldable pub size : File → Try ℕ × File
size f =
    with_handle
      (λ s. if get_flag flag_pipe f.flags then (done 0, s) else (done (length s.bytes), rewound s))
      f

unfoldable pub rewind : File → Try Unit × File
rewind = with_handle λ s. (done tt, rewound s)

unfoldable pub end : File → Try Bool × File
end = with_handle λ s. (done s.at_end, s)

unfoldable pub tell : File → Try ℕ × File
tell = with_handle λ s. (done s.position, s)

unfoldable pub seek : Offset → File → Try Unit × File
unfolding fseek
seek ofs = with_handle λ s. (done tt, fseek ofs s)

abbrev pub pushed : Try ℕ × File → Try Unit × File
pushed (done n, f) = (done tt, record f { offsets = n ∷ f.offsets })
pushed (failed e, f) = (failed e, f)

-- `offsets`, the last one pushed first.
unfoldable pub push : File → Try Unit × File
unfolding tell
push f = pushed (tell f)

abbrev pub popped : Try Unit × File → Try Unit × File
popped (done u, f) = (done u, record f { offsets = elim f.offsets [ [] ↦ [] | n ∷ ns ↦ ns ] })
popped (failed e, f) = (failed e, f)

-- `none` is the undefined `back()` of an empty vector.
unfoldable pub pop : File → Option (Try Unit × File)
unfolding seek
pop f = elim f.offsets [ [] ↦ none | n ∷ ns ↦ some (popped (seek (from_start n) f)) ]

-- `readInner(n, check)`
unfoldable pub read_inner : ℕ → Bool → Stream → Try String × Stream
unfolding fread
read_inner n check s =
    let (buf, s') = fread n s in
    if n == 0
    then (done [], s)
    else (if check && not (length buf == n) then (failed read_failed, s') else (done buf, s'))

-- What the two instances of `readInnerBuffered` do with a chunk: a string is appended to, a vector
-- of bytes is inserted into at its beginning.
pub data Container : Type 0 where
  string : Container
  byte_vector : Container

abbrev pub add_chunk : Container → String → String → String
add_chunk string result chunk = result ++ chunk
add_chunk byte_vector result chunk = chunk ++ result

-- `readInnerBuffered`, with a buffer of `capacity` bytes; `none` says that the fuel ran out.
unfoldable pub read_buffered : Container → ℕ → ℕ → String → Stream → Option (Try String × Stream)
unfolding fread
read_buffered c capacity zero result s = none
read_buffered c capacity (suc fuel) result s =
    let (chunk, s') = fread capacity s in
    let result' = add_chunk c result chunk in
    let rest = read_buffered c capacity fuel result' s' in
    if ltb (length chunk) capacity
    then (if s'.at_end
        then some (done result', s')
        else (if s'.broken then some (failed read_failed, s') else rest))
    else rest

-- `write(s)`
unfoldable pub write : String → Stream → Try Unit × Stream
unfolding fwrite
write text s =
    let (n, s') = fwrite text s in if n == 1 then (done tt, s') else (failed write_failed, s')
