-- ===== src/File/Lines.antt =====
-- `readLine` of include/async/io/file.h, a byte at a time.
use asyncxx.Base.{
  ℕ, zero, suc, ◌+◌, ◌<◌, ◌≡◌, ◌≢◌, sym, ap, ◌∙◌, true, false, [], ◌∷◌, ◌++◌, Option, none, some,
  length, arith, if◌then◌else◌, ◌==◌, append-nil, append_assoc,
}
use asyncxx.Str.{String, drop}
use asyncxx.Str.Split.{drop_add, Without}
use asyncxx.File.{Stream}

-- `none` is `EOF`.
unfoldable pub fgetc : Stream → Option ℕ × Stream
fgetc s = if s.broken then (none, s) else elim (drop s.position s.bytes) [
  | [] ↦ (none, record s { at_end = true })
  | c ∷ rest ↦ (some c, record s { position = s.position + 1 })
]

abbrev pub after_char :
    (String → Stream → Option (String × Stream))
    → String
    → Option ℕ × Stream
    → Option (String × Stream)
after_char go buf (none, s) = some (buf, s)
after_char go buf (some c, s) =
    let rest = go (buf ++ c ∷ []) s in if c == 10 then some (buf, s) else rest

-- The loop of `readLine`; `none` says that the fuel ran out.
unfoldable pub read_line : ℕ → String → Stream → Option (String × Stream)
unfolding fgetc
read_line zero buf s = none
read_line (suc fuel) buf s = after_char (read_line fuel) buf (fgetc s)

fgetc-cons :
    (s : Stream) (c : ℕ) (rest : String)
    → s.broken ≡ false
    → drop s.position s.bytes ≡ c ∷ rest
    → fgetc s ≡ (some c, record s { position = s.position + 1 })
unfolding fgetc
fgetc-cons s c rest b e = ground (arith, b, e)

fgetc-nil :
    (s : Stream)
    → s.broken ≡ false
    → drop s.position s.bytes ≡ []
    → fgetc s ≡ (none, record s { at_end = true })
unfolding fgetc
fgetc-nil s b e = ground (arith, b, e)

read_line-step :
    (x fuel : ℕ) (more buf : String) (s : Stream)
    → s.broken ≡ false
    → 10 ≢ x
    → drop s.position s.bytes ≡ x ∷ more
    → read_line (suc fuel) buf s
      ≡ read_line fuel (buf ++ x ∷ []) (record s { position = s.position + 1 })
unfolding read_line
read_line-step x fuel more buf s b n e = rw (fgetc-cons s x more b e) (ground (arith, n))

drop_tail :
    (x : ℕ) (more : String) (s : Stream)
    → drop s.position s.bytes ≡ x ∷ more
    → drop (s.position + 1) s.bytes ≡ more
drop_tail x more s e = sym (drop_add s.position 1 s.bytes) ∙ ap (drop 1) e

-- On a stream that is not broken, with any fuel above the length of the line, `readLine` ends, gives
-- the bytes up to the next new line, and moves behind the new line.
pub read_line_lem :
    (line rest : String) (fuel : ℕ) (buf : String) (s : Stream)
    → s.broken ≡ false
    → Without 10 line
    → length line < fuel
    → drop s.position s.bytes ≡ line ++ 10 ∷ rest
    → read_line fuel buf s
      ≡ some (buf ++ line, record s { position = s.position + length line + 1 })
unfolding read_line
read_line_lem line rest zero buf s b w f e = absurd (omega arith)
read_line_lem [] rest (suc fuel) buf s b w f e =
    rw (fgetc-cons s 10 rest b e) (ground (arith, append-nil buf))
read_line_lem (x ∷ line) rest (suc fuel) buf s b w f e =
    let next = record s { position = s.position + 1 } in
    let later =
      read_line_lem line rest fuel (buf ++ x ∷ []) next b w.1 (omega arith)
        (drop_tail x (line ++ 10 ∷ rest) s e) in
    read_line-step x fuel (line ++ 10 ∷ rest) buf s b w.0 e
    ∙ later
    ∙ ground (arith, append_assoc buf (x ∷ []) line)

-- On a stream that is not broken and on which no new line is left, with any fuel above the number of
-- bytes left, `readLine` ends, gives those bytes and marks the end.
pub read_line_at_end :
    (line : String) (fuel : ℕ) (buf : String) (s : Stream)
    → s.broken ≡ false
    → Without 10 line
    → length line < fuel
    → drop s.position s.bytes ≡ line
    → read_line fuel buf s
      ≡ some (buf ++ line, record s { position = s.position + length line; at_end = true })
unfolding read_line
read_line_at_end line zero buf s b w f e = absurd (omega arith)
read_line_at_end [] (suc fuel) buf s b w f e = rw (fgetc-nil s b e) (ground (arith, append-nil buf))
read_line_at_end (x ∷ line) (suc fuel) buf s b w f e =
    let next = record s { position = s.position + 1 } in
    let later =
      read_line_at_end line fuel (buf ++ x ∷ []) next b w.1 (omega arith) (drop_tail x line s e) in
    read_line-step x fuel line buf s b w.0 e
    ∙ later
    ∙ ground (arith, append_assoc buf (x ∷ []) line)
