-- ===== src/File/Reading.antt =====
-- What the reads and writes of include/async/io/file.h give.
use asyncxx.Base.{
  Bool-cases, inl, inr, ℕ, zero, suc, ◌+◌, ◌-◌, ◌<◌, ◌≤◌, ◌≡◌, refl, sym, ap, ◌∙◌, true, false, [],
  ◌∷◌, ◌++◌, some, length, arith, leb, append_assoc, ltb, if◌then◌else◌,
}
use asyncxx.Str.{String, take, drop}
use asyncxx.Str.Split.{length-drop, drop_add}
use asyncxx.File.{
  Stream, zeros, padded, written, done, failed, read_failed, fread, fwrite, read_inner,
  read_buffered, write, string, fseek, from_start,
}

take-drop : (n : ℕ) (s : String) → take n s ++ drop n s ≡ s
take-drop zero s = refl
take-drop (suc n) [] = refl
take-drop (suc n) (x ∷ s) = ap (λ t. x ∷ t) (take-drop n s)

pub length-take : (n : ℕ) (s : String) → n ≤ length s → length (take n s) ≡ n
length-take zero s h = refl
length-take (suc n) [] h = elim h [ ]
length-take (suc n) (x ∷ s) h = ap suc (length-take n s (omega arith))

pub take_long : (n : ℕ) (s : String) → length s ≤ n → take n s ≡ s
take_long zero [] h = refl
take_long zero (x ∷ s) h = elim h [ ]
take_long (suc n) [] h = refl
take_long (suc n) (x ∷ s) h = ap (λ t. x ∷ t) (take_long n s (omega arith))

drop-zeros : (n : ℕ) (t : String) → drop n (zeros n ++ t) ≡ t
drop-zeros zero t = refl
drop-zeros (suc n) t = drop-zeros n t

drop-padded : (p : ℕ) (s t : String) → drop p (padded p s ++ t) ≡ t
drop-padded zero [] t = refl
drop-padded zero (x ∷ s) t = let e : 0 - suc (length s) ≡ 0 = omega arith in rw e refl
drop-padded (suc p) [] t = let e : suc p - 0 ≡ suc p = omega arith in rw e (drop-zeros p t)
drop-padded (suc p) (x ∷ s) t =
    let e : suc p - suc (length s) ≡ p - length s = omega arith in rw e (drop-padded p s t)

take_prefix : (s t : String) → take (length s) (s ++ t) ≡ s
take_prefix [] t = refl
take_prefix (x ∷ s) t = ap (λ r. x ∷ r) (take_prefix s t)

write-written :
    (c : ℕ) (text : String) (s : Stream)
    → s.read_only ≡ false
    → s.appends ≡ false
    → write (c ∷ text) s ≡ (done tt, written s.position (c ∷ text) s)
unfolding write fwrite
write-written c text s o a = rw (a, o) refl

-- A text that is not empty, written into a stream that can be read and written and does not append, is
-- what a checked read of its length from the same position gives, also where that position lies behind
-- the end of the file.
pub read_inner-write :
    (text : String) (s : Stream)
    → s.broken ≡ false
    → s.read_only ≡ false
    → s.appends ≡ false
    → 0 < length text
    → let (r, s') = write text s in
      (r ≡ done tt)
      × ((read_inner (length text) true (fseek (from_start s.position) s')).0 ≡ done text)
unfolding read_inner fread fseek
read_inner-write [] s b o a l = elim l [ ]
read_inner-write (c ∷ text) s b o a l =
    let tail = drop (s.position + length (c ∷ text)) s.bytes in
    let found = drop-padded s.position s.bytes ((c ∷ text) ++ tail) in
    let cut = take_prefix (c ∷ text) tail in
    rw (write-written c text s o a) (refl, rw (b, found, cut) (ground arith))

-- A checked read of `n` bytes, `n` not 0, of a stream that is not broken gives the next `n` bytes
-- and moves behind them, or, where fewer are left, throws.
pub read_inner_lem :
    (n : ℕ) (s : Stream)
    → s.broken ≡ false
    → s.position ≤ length s.bytes
    → let (r, s') = read_inner (suc n) true s in
      if ltb (length s.bytes) (s.position + suc n)
      then r ≡ failed read_failed
      else (r ≡ done (take (suc n) (drop s.position s.bytes))) × (s'.position ≡ s.position + suc n)
unfolding read_inner fread
read_inner_lem n s b h =
    let left = length-drop s.position s.bytes h in
    let rest = drop s.position s.bytes in
    elim (Bool-cases (ltb (length s.bytes) (s.position + suc n))) [
      | inl y ↦
          let all : take (suc n) rest ≡ rest = take_long (suc n) rest (ground (arith, y, left)) in
          rw (y, b, all) (ground (arith, left, y))
      | inr y ↦
          let cut : length (take (suc n) rest) ≡ suc n =
            length-take (suc n) rest (ground (arith, y, left)) in
          rw (y, b, cut) (ground (arith, left, y, cut))
    ]

pub fread_full :
    (n : ℕ) (s : Stream)
    → s.broken ≡ false
    → n ≤ length (drop s.position s.bytes)
    → fread n s ≡ (take n (drop s.position s.bytes), record s { position = s.position + n })
unfolding fread
fread_full n s b h =
    let cut = length-take n (drop s.position s.bytes) h in rw (b, cut) (ground arith)

pub fread_short :
    (n : ℕ) (s : Stream)
    → s.broken ≡ false
    → length (drop s.position s.bytes) < n
    → s.position ≤ length s.bytes
    → fread n s ≡ (drop s.position s.bytes, record s { position = length s.bytes; at_end = true })
unfolding fread
fread_short n s b h p =
    let all = take_long n (drop s.position s.bytes) (omega arith) in
    let left = length-drop s.position s.bytes p in rw (b, all) (ground (arith, left))

-- The loop that reads a pipe into a string ends, with any fuel above the number of bytes left, and
-- appends exactly those bytes to what was read before, whatever the size of the buffer, 0 excepted,
-- on a stream that is not broken.
pub read_buffered_string :
    (capacity fuel : ℕ) (result : String) (s : Stream)
    → s.broken ≡ false
    → s.position ≤ length s.bytes
    → 0 < capacity
    → length s.bytes < s.position + fuel
    → read_buffered string capacity fuel result s
      ≡ some (
        done (result ++ drop s.position s.bytes),
        record s { position = length s.bytes; at_end = true },
      )
unfolding read_buffered
read_buffered_string capacity zero result s b h c f = absurd (omega arith)
read_buffered_string capacity (suc fuel) result s b h c f =
    let rest = drop s.position s.bytes in
    let left = length-drop s.position s.bytes h in
    elim (Bool-cases (leb capacity (length rest))) [
      | inl full ↦
          let enough : capacity ≤ length rest = ground (arith, full) in
          let later =
            read_buffered_string capacity fuel (result ++ take capacity rest)
              (record s { position = s.position + capacity }) b (omega (arith, left)) c
              (omega arith) in
          let cut : length (take capacity rest) ≡ capacity = length-take capacity rest enough in
          let joined : (result ++ take capacity rest) ++ drop (s.position + capacity) s.bytes
              ≡ result ++ rest =
            append_assoc result (take capacity rest) (drop (s.position + capacity) s.bytes)
            ∙ ap (λ t. result ++ (take capacity rest ++ t))
                (sym (drop_add s.position capacity s.bytes))
            ∙ ap (λ t. result ++ t) (take-drop capacity rest) in
          rw (read_buffered, fread_full capacity s b enough, cut, later, joined) (ground arith)
      | inr short ↦
          let few : length rest < capacity = ground (arith, short) in
          rw (read_buffered, fread_short capacity s b few h) (ground (arith, few))
    ]
