-- ===== src/Tests/Texts.antt =====
-- Texts split, quoted and escaped.
use asyncxx.Base.{◌≡◌, refl, List, [], ◌∷◌, some, none, All, arith}
use asyncxx.Str.{String, split, split_quoted, escape}
use asyncxx.Str.Split.{Without, join, split_lem}
use asyncxx.Str.Quoted.{command, split_quoted-command}
use asyncxx.Str.Escape.{decode, plain, decode-escape}

-- "a  b"
abbrev spaced : String
spaced = 97 ∷ 32 ∷ 32 ∷ 98 ∷ []

split_at_spaces : split spaced (32 ∷ []) ≡ some (some ((97 ∷ []) ∷ [] ∷ (98 ∷ []) ∷ []))
unfolding split
split_at_spaces = refl

-- "a::b" split at "::" is "a" and ":b".
split_long_delimiter :
    split (97 ∷ 58 ∷ 58 ∷ 98 ∷ []) (58 ∷ 58 ∷ []) ≡ some (some ((97 ∷ []) ∷ (58 ∷ 98 ∷ []) ∷ []))
unfolding split
split_long_delimiter = refl

-- An empty delimiter throws `std::out_of_range`.
split_empty_delimiter : split (97 ∷ 98 ∷ []) [] ≡ some none
unfolding split
split_empty_delimiter = refl

split_lem_example :
    (toks : List String) × (split spaced (32 ∷ []) ≡ some (some toks))
    × All (Without 32) toks
    × (join 32 toks ≡ spaced)
split_lem_example = split_lem 32 spaced

-- `"a b" "c'"`, with a space behind.
split_quoted-command_example :
    split_quoted (command 32 34 ((97 ∷ 32 ∷ 98 ∷ []) ∷ (99 ∷ 39 ∷ []) ∷ [])) 32
    ≡ (97 ∷ 32 ∷ 98 ∷ []) ∷ (99 ∷ 39 ∷ []) ∷ []
unfolding asyncxx.Str.is_quote
split_quoted-command_example =
    split_quoted-command 32 34 ((97 ∷ 32 ∷ 98 ∷ []) ∷ (99 ∷ 39 ∷ []) ∷ []) refl refl (ground arith)

-- A new line, a letter, a quote and a byte above 126.
abbrev mixed : String
mixed = 10 ∷ 97 ∷ 34 ∷ 200 ∷ []

escape_bytes : escape mixed ≡ 92 ∷ 110 ∷ 97 ∷ 92 ∷ 34 ∷ 92 ∷ 120 ∷ b'c' ∷ b'8' ∷ []
unfolding escape
escape_bytes = refl

-- A single quote stays as it is.
escape_single_quote : escape (39 ∷ []) ≡ 39 ∷ []
unfolding escape
escape_single_quote = refl

decode-escape_example : decode plain (escape mixed) ≡ mixed
decode-escape_example = decode-escape mixed (ground arith)
