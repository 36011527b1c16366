-- ===== src/File/Calls.antt =====
-- The calls of include/async/io/file.h that read and write in another thread. A call looks at the
-- handle, and gives the job that `to_thread` takes, or throws; the job works on the stream as it is
-- when the thread runs it. `none` says that the job's fuel ran out.
pub mod All
use asyncxx.Base.{ℕ, Bool, true, false, if◌then◌else◌, [], Option, none, some}
use asyncxx.Flags.{get_flag}
use asyncxx.Str.{String}
use asyncxx.File.{
  File, Stream, FileError, Try, done, failed, not_opened, flag_pipe, size, read_inner,
  read_buffered, Container, string, byte_vector, write, close, open_path,
}
use asyncxx.File.Lines.{read_line}

abbrev pub Job : Type 0 → Type 0
Job A = Stream → Option (Try A × Stream)

-- `ASYNC_IO_FILE_BUFFERED_READ_SIZE`
abbrev pub buffered_read_size : ℕ
buffered_read_size = 4096

-- `assertThrow(handle, FileNotOpenedException()); return async::to_thread(...);`
abbrev pub guarded : {A : Type 0} → Job A → File → Try (Job A)
guarded job f = elim f.handle [ none ↦ failed not_opened | some s ↦ done job ]

-- `read(n)` and `readBytes(n)`
unfoldable pub read : ℕ → File → Try (Job String)
read n = guarded λ s. some (read_inner n true s)

-- `write(s)` and `writeBytes(buf)`
unfoldable pub write_text : String → File → Try (Job Unit)
write_text text = guarded λ s. some (write text s)

abbrev pub line_read : Option (String × Stream) → Option (Try String × Stream)
line_read none = none
line_read (some (line, s)) = some (done line, s)

-- `readLine()`
unfoldable pub read_one_line : ℕ → File → Try (Job String)
read_one_line fuel = guarded λ s. line_read (read_line fuel [] s)

-- `readInner<T>(size(), false)`; `size` is called before the job is made, and may throw.
abbrev pub sized : Try ℕ × File → Try (Job String) × File
sized (done n, f) = (done (λ s. some (read_inner n false s)), f)
sized (failed e, f) = (failed e, f)

-- `readAll()` and `readAllBytes()`, by the container that they fill.
unfoldable pub read_all : Container → ℕ → File → Try (Job String) × File
unfolding size
read_all c fuel f =
    if get_flag flag_pipe f.flags
    then (guarded (read_buffered c buffered_read_size fuel []) f, f)
    else sized (size f)

-- `File()`
abbrev pub unopened : File
unopened = record { filename = []; handle = none; flags = 0; offsets = [] }

-- `File(filename, mode)`
unfoldable pub open_new : (String → String → Option Stream) → String → String → Try Unit × File
unfolding open_path
open_new fopen filename mode = open_path fopen filename mode unopened

-- What a job leaves in the file.
abbrev pub after_job : {A : Type 0} → File → Option (Try A × Stream) → Option (Try A × File)
after_job f none = none
after_job f (some (r, s)) = some (r, record f { handle = some s })

-- A job that the thread runs at once.
abbrev pub run_job : {A : Type 0} → Job A → File → Option (Try A × File)
run_job job f = elim f.handle [ none ↦ some (failed not_opened, f) | some s ↦ after_job f (job s) ]
