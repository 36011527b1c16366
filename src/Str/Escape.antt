-- ===== src/Str/Escape.antt =====
-- `escape` of include/async/util.h against a reader of its escape sequences.
use asyncxx.Base.{
  ℕ, ◌+◌, ◌-◌, ◌*◌, ◌/◌, ◌%◌, ◌<◌, ◌≤◌, ◌≡◌, refl, ap, ◌∙◌, if◌then◌else◌, ◌==◌, ltb, [], ◌∷◌, ◌++◌,
  arith, All, All-append,
}
use asyncxx.Str.{String, escape, escape_char, hex_digit}

-- Where the reader stands in an escape sequence.
pub data Mode : Type 0 where
  plain : Mode
  after_backslash : Mode
  after_x : Mode
  after_digit : ℕ → Mode

unfoldable hex_value : ℕ → ℕ
hex_value d = if ltb d 58 then d - 48 else d - 87

-- The character that a letter after a backslash stands for.
unfoldable named : ℕ → ℕ
named c = if c == 110 then 10 else (if c == 114 then 13 else (if c == 116 then 9 else c))

-- Reads an escaped text back.
unfoldable pub decode : Mode → String → String
unfolding hex_value named
decode m [] = []
decode plain (c ∷ s) = if c == 92 then decode after_backslash s else (c ∷ decode plain s)
decode after_backslash (c ∷ s) = if c == 120 then decode after_x s else (named c ∷ decode plain s)
decode after_x (c ∷ s) = decode (after_digit (hex_value c)) s
decode (after_digit h) (c ∷ s) = (h * 16 + hex_value c) ∷ decode plain s

hex_value-hex_digit : (n : ℕ) → n < 16 → hex_value (hex_digit n) ≡ n
unfolding hex_value hex_digit
hex_value-hex_digit n h = ground arith

decode-hex :
    (c : ℕ) (s : String)
    → c < 256
    → decode plain (92 ∷ 120 ∷ hex_digit (c / 16) ∷ hex_digit (c % 16) ∷ s) ≡ c ∷ decode plain s
unfolding decode
decode-hex c s h =
    let hi = hex_value-hex_digit (c / 16) (omega arith) in
    let lo = hex_value-hex_digit (c % 16) (omega arith) in
    ap (λ d. d ∷ decode plain s) (omega (arith, hi, lo))

decode-escape_char :
    (c : ℕ) (s : String) → c < 256 → decode plain (escape_char c ++ s) ≡ c ∷ decode plain s
unfolding decode escape_char named
decode-escape_char c s h = ground (arith, decode-hex c s h)

-- For a text of bytes, reading back its escaped form gives the text, so that `escape` merges no two
-- texts.
pub decode-escape : (s : String) → All (λ c. c < 256) s → decode plain (escape s) ≡ s
unfolding escape decode
decode-escape [] h = refl
decode-escape (c ∷ s) h =
    decode-escape_char c (escape s) h.0 ∙ ap (λ t. c ∷ t) (decode-escape s h.1)

abbrev pub Printable : ℕ → Type 0
Printable c = (32 ≤ c) × (c ≤ 126)

hex_digit-Printable : (n : ℕ) → n < 16 → Printable (hex_digit n)
unfolding hex_digit
hex_digit-Printable n h = ground arith

escape_char-Printable : (c : ℕ) → c < 256 → All Printable (escape_char c)
unfolding escape_char
escape_char-Printable c h =
    let hi = hex_digit-Printable (c / 16) (omega arith) in
    let lo = hex_digit-Printable (c % 16) (omega arith) in ground (arith, hi, lo)

-- Whatever the bytes of a text are, the escaped text has only printable characters.
pub escape-Printable : (s : String) → All (λ c. c < 256) s → All Printable (escape s)
unfolding escape
escape-Printable [] h = tt
escape-Printable (c ∷ s) h =
    All-append Printable (escape_char c) (escape s) (escape_char-Printable c h.0)
      (escape-Printable s h.1)
