-- ===== src/Tests/Files.antt =====
-- Files at work.
use asyncxx.Base.{◌≡◌, refl, true, false, [], ◌∷◌, Option, none, some, arith}
use asyncxx.Flags.{get_flag}
use asyncxx.Str.{String}
use asyncxx.File.{
  File, Stream, done, failed, write_failed, write, read_inner, read_buffered, string, byte_vector,
  from_start, fseek,
}
use asyncxx.File.Reading.{read_inner-write, read_buffered_string}
use asyncxx.File.Calls.{Job, read_all, run_job}
use asyncxx.File.Calls.All.{read_all_lem}
use asyncxx.File.Lines.{read_line, read_line_lem}
use asyncxx.File.Chunks.{read_buffered_vector}

abbrev sample : Stream
sample = record {
  bytes = 1 ∷ 2 ∷ 3 ∷ 4 ∷ 5 ∷ [];
  position = 1;
  at_end = false;
  broken = false;
  read_only = false;
  appends = false;
}

read_inner-write_example :
    let (r, s') = write (8 ∷ 9 ∷ []) sample in
    (r ≡ done tt) × ((read_inner 2 true (fseek (from_start 1) s')).0 ≡ done (8 ∷ 9 ∷ []))
read_inner-write_example = read_inner-write (8 ∷ 9 ∷ []) sample refl refl refl (omega arith)

-- Writing nothing throws.
write_nothing : write [] sample ≡ (failed write_failed, sample)
unfolding write
write_nothing = refl

read_buffered_string_example :
    read_buffered string 2 5 [] sample
    ≡ some (done (2 ∷ 3 ∷ 4 ∷ 5 ∷ []), record sample { position = 5; at_end = true })
read_buffered_string_example =
    read_buffered_string 2 5 [] sample refl (omega arith) (omega arith) (omega arith)

-- The bytes of the same stream read into a vector come in the reverse order of the chunks.
read_buffered_vector_example :
    read_buffered byte_vector 2 5 [] sample
    ≡ some (done (4 ∷ 5 ∷ 2 ∷ 3 ∷ []), record sample { position = 5; at_end = true })
read_buffered_vector_example =
    read_buffered_vector 2 5 [] sample refl (omega arith) (omega arith) (omega arith)

abbrev opened_sample : File
opened_sample = record { filename = 97 ∷ []; handle = some sample; flags = 3; offsets = 7 ∷ [] }

abbrev disk : String → Option Stream
disk name = some sample

-- The position 1 does not matter.
read_all_lem_example :
    (job : Job String) × (g : File) × (t : Stream) × (read_all string 6 opened_sample
      ≡ (done job, g))
    × (run_job job g
        ≡ some (done (1 ∷ 2 ∷ 3 ∷ 4 ∷ 5 ∷ []), record opened_sample { handle = some t }))
    × (t.position ≡ 5)
    × (t.bytes ≡ sample.bytes)
unfolding get_flag
read_all_lem_example =
    read_all_lem opened_sample sample 6 refl refl (λ e. omega arith) (omega arith)

abbrev pipe : File
pipe = record { filename = []; handle = none; flags = 5; offsets = [] }

-- "hi", a new line and "x".
abbrev two_lines : Stream
two_lines = record {
  bytes = 104 ∷ 105 ∷ 10 ∷ 120 ∷ [];
  position = 0;
  at_end = false;
  broken = false;
  read_only = false;
  appends = false;
}

read_line_lem_example :
    read_line 5 [] two_lines ≡ some (104 ∷ 105 ∷ [], record two_lines { position = 3 })
read_line_lem_example =
    read_line_lem (104 ∷ 105 ∷ []) (120 ∷ []) 5 [] two_lines refl (ground arith) (omega arith) refl
