-- ===== src/File/Chunks.antt =====
-- `readAllBytes` of include/async/io/file.h on a pipe: the bytes come back in the wrong order.
use asyncxx.Base.{
  ℕ, zero, suc, ◌+◌, ◌<◌, ◌≤◌, ◌≡◌, sym, ap, ◌∙◌, true, false, ◌++◌, some, length, arith, leb,
  append_assoc, Bool-cases, inl, inr, if◌then◌else◌,
}
use asyncxx.Str.{String, take, drop}
use asyncxx.Str.Split.{length-drop, drop_add}
use asyncxx.File.{Stream, done, read_buffered, byte_vector}
use asyncxx.File.Reading.{fread_full, fread_short, length-take}

-- The text in pieces of `capacity` bytes, each behind the ones that follow it.
abbrev pub backwards : ℕ → ℕ → String → String
backwards capacity zero s = s
backwards capacity (suc fuel) s =
    let later = backwards capacity fuel (drop capacity s) ++ take capacity s in
    if leb capacity (length s) then later else s

-- On a stream that is not broken, with a buffer of a size other than 0 and any fuel above the number of
-- bytes left, the loop that reads a pipe into a vector of bytes ends. It gives the bytes left in pieces
-- of the buffer's size, the last piece first, in front of what was read before.
pub read_buffered_vector :
    (capacity fuel : ℕ) (result : String) (s : Stream)
    → s.broken ≡ false
    → s.position ≤ length s.bytes
    → 0 < capacity
    → length s.bytes < s.position + fuel
    → read_buffered byte_vector capacity fuel result s
      ≡ some (
        done (backwards capacity fuel (drop s.position s.bytes) ++ result),
        record s { position = length s.bytes; at_end = true },
      )
unfolding read_buffered
read_buffered_vector capacity zero result s b h c f = absurd (omega arith)
read_buffered_vector capacity (suc fuel) result s b h c f =
    let rest = drop s.position s.bytes in
    let left = length-drop s.position s.bytes h in
    elim (Bool-cases (leb capacity (length rest))) [
      | inl full ↦
          let enough : capacity ≤ length rest = ground (arith, full) in
          let chunk = take capacity rest in
          let later =
            read_buffered_vector capacity fuel (chunk ++ result)
              (record s { position = s.position + capacity }) b (omega (arith, left)) c
              (omega arith) in
          let cut : length chunk ≡ capacity = length-take capacity rest enough in
          let joined : backwards capacity fuel (drop (s.position + capacity) s.bytes)
                ++ (chunk ++ result)
              ≡ (backwards capacity fuel (drop capacity rest) ++ chunk) ++ result =
            ap (λ t. backwards capacity fuel t ++ (chunk ++ result))
              (sym (drop_add s.position capacity s.bytes))
            ∙ sym (append_assoc (backwards capacity fuel (drop capacity rest)) chunk result) in
          rw (read_buffered, fread_full capacity s b enough, cut, later, joined, full)
            (ground arith)
      | inr short ↦
          let few : length rest < capacity = ground (arith, short) in
          rw (read_buffered, fread_short capacity s b few h, short) (ground (arith, few))
    ]
