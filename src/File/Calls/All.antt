-- ===== src/File/Calls/All.antt =====
-- `readAll` of include/async/io/file.h.
use asyncxx.Base.{
  Bool-cases, inl, inr, ◌⊎◌, ◌∷◌, ℕ, ◌<◌, ◌≤◌, ◌≡◌, refl, ◌∙◌, true, false, [], some, length, arith,
  if◌then◌else◌,
}
use asyncxx.Flags.{get_flag}
use asyncxx.Str.{String, drop}
use asyncxx.File.{
  rewound, File, Stream, Try, done, flag_pipe, size, string, read_buffered, read_inner, fread,
}
use asyncxx.File.Reading.{read_buffered_string, take_long}
use asyncxx.File.Calls.{Job, read_all, run_job, buffered_read_size}

list_cases : (s : String) → (s ≡ []) ⊎ (0 < length s)
list_cases [] = inl refl
list_cases (x ∷ s) = inr (omega arith)

-- What `readAll` is to read.
abbrev pub content : File → Stream → String
content f s = if get_flag flag_pipe f.flags then drop s.position s.bytes else s.bytes

run_job_lem :
    {A : Type 0} (job : Job A) (f : File) {s : Stream} {r : Try A} {t : Stream}
    → f.handle ≡ some s
    → job s ≡ some (r, t)
    → run_job job f ≡ some (r, record f { handle = some t })
run_job_lem job f h e = rw (h, e) refl

-- Reading the size of a stream from its start gives its bytes.
whole_read :
    (s : Stream)
    → s.broken ≡ false
    → s.position ≡ 0
    → let (r, t) = read_inner (length s.bytes) false s in
      (r ≡ done s.bytes) × (t.position ≡ length s.bytes) × (t.bytes ≡ s.bytes)
unfolding read_inner fread
whole_read s b z = elim (list_cases s.bytes) [
  | inl e ↦ rw (e, z) (refl, refl, refl)
  | inr h ↦
      let all = take_long (length s.bytes) s.bytes (omega arith) in
      rw (z, b, all) (ground (arith, h))
]

-- `readAll` of an open file, with fuel above the number of its bytes, gives a job. Run at once on a
-- stream that is not broken, the job ends and gives the whole content of a regular file, wherever the
-- position was, and of a pipe, whose position is not behind its bytes, the bytes that are left. The position is then at the end.
pub read_all_lem :
    (f : File) (s : Stream) (fuel : ℕ)
    → f.handle ≡ some s
    → s.broken ≡ false
    → (get_flag flag_pipe f.flags ≡ true → s.position ≤ length s.bytes)
    → length s.bytes < fuel
    → (job : Job String) × (g : File) × (t : Stream) × (read_all string fuel f ≡ (done job, g))
      × (run_job job g ≡ some (done (content f s), record f { handle = some t }))
      × (t.position ≡ length s.bytes)
      × (t.bytes ≡ s.bytes)
unfolding read_all size
read_all_lem f s fuel h b p e = elim (Bool-cases (get_flag flag_pipe f.flags)) [
  | inl y ↦
      let t = record s { position = length s.bytes; at_end = true } in
      let q =
        read_buffered_string buffered_read_size fuel [] s b (p y) (omega arith) (omega arith) in
      (
        read_buffered string buffered_read_size fuel [],
        f,
        t,
        rw (y, h) refl,
        run_job_lem (read_buffered string buffered_read_size fuel []) f h q ∙ rw (y) refl,
        refl,
        refl,
      )
  | inr n ↦
      let t = rewound s in
      let (q, k, j) = whole_read t b refl in
      (
        (λ v. some (read_inner (length s.bytes) false v)),
        record f { handle = some t },
        (read_inner (length s.bytes) false t).1,
        rw (n, h) refl,
        rw (q, n) refl,
        k,
        j,
      )
]
