-- ===== src/Str.antt =====
-- `async::str` of include/async/util.h. A `std::string` is the list of its bytes; `str[i]` in a loop
-- over all positions is the traversal of the list.
pub mod Split
pub mod Quoted
pub mod Escape
use asyncxx.Base.{
  ℕ, zero, suc, ◌+◌, ◌-◌, ◌/◌, ◌%◌, Bool, true, false, ◌&&◌, ◌||◌, not, if◌then◌else◌, ◌==◌, ltb,
  leb, List, [], ◌∷◌, ◌++◌, Option, none, some, length,
}

abbrev pub String : Type 0
String = List ℕ

abbrev pub drop : ℕ → String → String
drop zero s = s
drop (suc n) [] = []
drop (suc n) (x ∷ s) = drop n s

abbrev pub take : ℕ → String → String
take zero s = []
take (suc n) [] = []
take (suc n) (x ∷ s) = x ∷ take n s

unfoldable pub starts_with : String → String → Bool
starts_with [] s = true
starts_with (c ∷ d) [] = false
starts_with (c ∷ d) (x ∷ s) = c == x && starts_with d s

abbrev pub next_index : Option ℕ → Option ℕ
next_index none = none
next_index (some i) = some (suc i)

-- `str.find(delimiter)`
unfoldable pub find : String → String → Option ℕ
unfolding starts_with
find d [] = if starts_with d [] then some 0 else none
find d (x ∷ s) = if starts_with d (x ∷ s) then some 0 else next_index (find d s)

-- `str.find(delimiter, last)`, as the distance from `last`; `none` is `npos`.
unfoldable pub find_from : String → String → ℕ → Option ℕ
unfolding find
find_from d str last = if leb last (length str) then find d (drop last str) else none

-- The tokens, or the exception that `substr` throws past the end.
abbrev pub Tokens : Type 0
Tokens = Option (List String)

abbrev pub push_front : String → Option Tokens → Option Tokens
push_front tok none = none
push_front tok (some none) = some none
push_front tok (some (some toks)) = some (some (tok ∷ toks))

-- The loop of `split` from `last` on; the outer `none` says that the fuel ran out.
unfoldable pub split_from : ℕ → String → String → ℕ → Option Tokens
unfolding find_from
split_from zero d str last = none
split_from (suc fuel) d str last =
    let go = split_from fuel d str in
    elim (find_from d str last) [
      | some n ↦ push_front (take n (drop last str)) (go (last + n + 1))
      | none ↦ some (if leb last (length str) then some (drop last str ∷ []) else none)
    ]

-- `split(str, delimiter)`; the loop advances `last` by one at least.
unfoldable pub split : String → String → Option Tokens
unfolding split_from
split str d = split_from (length str + 2) d str 0

pub record Quoting : Type 0 where
  pub result : List String
  pub current : String
  pub in_quotes : Bool
  pub quote_char : ℕ

-- `c == '\'' || c == '"' || c == '`'`
unfoldable pub is_quote : ℕ → Bool
is_quote c = c == 39 || c == 34 || c == 96

abbrev pub push_token : String → List String → List String
push_token [] result = result
push_token (x ∷ xs) result = result ++ (x ∷ xs) ∷ []

-- The body of the loop of `splitQuoted`.
unfoldable pub quote_step : ℕ → ℕ → Quoting → Quoting
unfolding is_quote
quote_step delimiter c q =
    if not q.in_quotes
    then (if is_quote c
        then record q { in_quotes = true; quote_char = c }
        else (if c == delimiter
            then record q { result = push_token q.current q.result; current = [] }
            else record q { current = q.current ++ c ∷ [] }))
    else (if c == q.quote_char
        then record q { in_quotes = false; quote_char = 0 }
        else record q { current = q.current ++ c ∷ [] })

unfoldable pub quote_steps : ℕ → String → Quoting → Quoting
unfolding quote_step
quote_steps delimiter [] q = q
quote_steps delimiter (c ∷ s) q = quote_steps delimiter s (quote_step delimiter c q)

unfoldable pub split_quoted : String → ℕ → List String
unfolding quote_steps
split_quoted str delimiter =
    let q =
      quote_steps delimiter str
        (record { result = []; current = []; in_quotes = false; quote_char = 0 }) in
    push_token q.current q.result

-- A digit of `{:02x}`.
unfoldable pub hex_digit : ℕ → ℕ
hex_digit n = if ltb n 10 then 48 + n else 87 + n

unfoldable pub escape_char : ℕ → String
unfolding hex_digit
escape_char c =
    if c == 10
    then 92 ∷ 110 ∷ []
    else (if c == 13
        then 92 ∷ 114 ∷ []
        else (if c == 9
            then 92 ∷ 116 ∷ []
            else (if c == 92
                then 92 ∷ 92 ∷ []
                else (if c == 34
                    then 92 ∷ 34 ∷ []
                    else (if ltb c 32 || ltb 126 c
                        then 92 ∷ 120 ∷ hex_digit (c / 16) ∷ hex_digit (c % 16) ∷ []
                        else c ∷ [])))))

unfoldable pub escape : String → String
unfolding escape_char
escape [] = []
escape (c ∷ s) = escape_char c ++ escape s
