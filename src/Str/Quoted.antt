-- ===== src/Str/Quoted.antt =====
-- `splitQuoted` of include/async/util.h reads back a command line whose arguments are quoted.
use asyncxx.Base.{
  ℕ, ◌<◌, ◌≡◌, ◌≢◌, refl, sym, ap, ◌∙◌, true, false, List, [], ◌∷◌, ◌++◌, arith, All, All-append,
  append-nil, append_assoc, length,
}
use asyncxx.Str.{String, Quoting, is_quote, push_token, quote_step, quote_steps, split_quoted}

-- The arguments, each between quotes and followed by the delimiter.
unfoldable pub command : ℕ → ℕ → List String → String
command delim quote [] = []
command delim quote (arg ∷ args) = quote ∷ arg ++ quote ∷ delim ∷ command delim quote args

abbrev pub Argument : ℕ → String → Type 0
Argument quote arg = (0 < length arg) × All (λ c. c ≢ quote) arg

abbrev between : List String → Quoting
between toks = record { result = toks; current = []; in_quotes = false; quote_char = 0 }

abbrev inside : ℕ → List String → String → Quoting
inside quote toks cur = record {
  result = toks;
  current = cur;
  in_quotes = true;
  quote_char = quote;
}

quote_steps-inside :
    (delim quote : ℕ) (toks : List String) (cur arg rest : String)
    → All (λ c. c ≢ quote) arg
    → quote_steps delim (arg ++ rest) (inside quote toks cur)
      ≡ quote_steps delim rest (inside quote toks (cur ++ arg))
unfolding quote_steps quote_step
quote_steps-inside delim quote toks cur [] rest h =
    ap (λ s. quote_steps delim rest (inside quote toks s)) (sym (append-nil cur))
quote_steps-inside delim quote toks cur (c ∷ arg) rest h =
    let step : quote_step delim c (inside quote toks cur) ≡ inside quote toks (cur ++ c ∷ []) =
      ground (arith, h.0) in
    ap (quote_steps delim (arg ++ rest)) step
    ∙ quote_steps-inside delim quote toks (cur ++ c ∷ []) arg rest h.1
    ∙ ap (λ s. quote_steps delim rest (inside quote toks s)) (append_assoc cur (c ∷ []) arg)

push_token-cons :
    (arg : String) (toks : List String) → 0 < length arg → push_token arg toks ≡ toks ++ arg ∷ []
push_token-cons [] toks h = elim h [ ]
push_token-cons (c ∷ arg) toks h = refl

quote_steps-command :
    (delim quote : ℕ) (toks args : List String)
    → is_quote quote ≡ true
    → is_quote delim ≡ false
    → All (Argument quote) args
    → quote_steps delim (command delim quote args) (between toks) ≡ between (toks ++ args)
unfolding quote_steps command quote_step
quote_steps-command delim quote toks [] q d h = ap between (sym (append-nil toks))
quote_steps-command delim quote toks (arg ∷ args) q d h =
    let rest = command delim quote args in
    let opened : quote_step delim quote (between toks) ≡ inside quote toks [] = ground (arith, q) in
    let closed : quote_step delim delim (quote_step delim quote (inside quote toks arg))
        ≡ between (toks ++ arg ∷ []) =
      ground (arith, d, push_token-cons arg toks h.0.0) in
    ap (quote_steps delim (arg ++ quote ∷ delim ∷ rest)) opened
    ∙ quote_steps-inside delim quote toks [] arg (quote ∷ delim ∷ rest) h.0.1
    ∙ ap (quote_steps delim rest) closed
    ∙ quote_steps-command delim quote (toks ++ arg ∷ []) args q d h.1
    ∙ ap between (append_assoc toks (arg ∷ []) args)

-- Arguments, none of them empty, that are put between quotes of a kind that does not occur in them,
-- with a delimiter behind each, are what `splitQuoted` reads, in order; the delimiter and the other
-- kinds of quotes may occur in them.
pub split_quoted-command :
    (delim quote : ℕ) (args : List String)
    → is_quote quote ≡ true
    → is_quote delim ≡ false
    → All (Argument quote) args
    → split_quoted (command delim quote args) delim ≡ args
unfolding split_quoted
split_quoted-command delim quote args q d h =
    ap (λ s. push_token s.current s.result) (quote_steps-command delim quote [] args q d h)

abbrev pub NonEmpty : List String → Type 0
NonEmpty = All (λ tok. 0 < length tok)

push_token-NonEmpty :
    (cur : String) (toks : List String) → NonEmpty toks → NonEmpty (push_token cur toks)
push_token-NonEmpty [] toks h = h
push_token-NonEmpty (c ∷ cur) toks h =
    All-append (λ tok. 0 < length tok) toks ((c ∷ cur) ∷ []) h (omega arith, tt)

quote_step-NonEmpty :
    (delim c : ℕ) (q : Quoting) → NonEmpty q.result → NonEmpty (quote_step delim c q).result
unfolding quote_step
quote_step-NonEmpty delim c q h = ground (arith, h, push_token-NonEmpty q.current q.result h)

quote_steps-NonEmpty :
    (delim : ℕ) (s : String) (q : Quoting)
    → NonEmpty q.result
    → NonEmpty (quote_steps delim s q).result
unfolding quote_steps
quote_steps-NonEmpty delim [] q h = h
quote_steps-NonEmpty delim (c ∷ s) q h =
    quote_steps-NonEmpty delim s (quote_step delim c q) (quote_step-NonEmpty delim c q h)

-- No token of any text is empty.
pub split_quoted-NonEmpty : (delim : ℕ) (s : String) → NonEmpty (split_quoted s delim)
unfolding split_quoted
split_quoted-NonEmpty delim s =
    let q = quote_steps delim s (between []) in
    push_token-NonEmpty q.current q.result (quote_steps-NonEmpty delim s (between []) tt)
