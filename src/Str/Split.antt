-- ===== src/Str/Split.antt =====
-- `split` of include/async/util.h. With a delimiter of one character it is the inverse of joining.
use asyncxx.Base.{
  ℕ, zero, suc, ◌+◌, ◌<◌, ◌≤◌, ◌≡◌, ◌≢◌, refl, sym, ap, ◌∙◌, if◌then◌else◌, ◌==◌, List, [], ◌∷◌,
  ◌++◌, Option, none, some, length, arith, All,
}
use asyncxx.Str.{String, drop, take, starts_with, find, find_from, next_index, split, split_from}

-- The tokens of a text, read from left to right: a new one begins behind each delimiter.
abbrev pub onto_first : ℕ → List String → List String
onto_first c [] = (c ∷ []) ∷ []
onto_first c (tok ∷ toks) = (c ∷ tok) ∷ toks

unfoldable pub tokens : ℕ → String → List String
tokens c [] = [] ∷ []
tokens c (x ∷ s) = let rest = tokens c s in if c == x then [] ∷ rest else onto_first x rest

-- What `find` says of the first token.
abbrev FirstToken : ℕ → String → Option ℕ → Type 0
FirstToken c s none = tokens c s ≡ s ∷ []
FirstToken c s (some n) = (n < length s) × (tokens c s ≡ take n s ∷ tokens c (drop (suc n) s))

find-FirstToken : (c : ℕ) (s : String) → FirstToken c s (find (c ∷ []) s)
unfolding find starts_with tokens
find-FirstToken c [] = refl
find-FirstToken c (x ∷ s) = shift (find (c ∷ []) s) (find-FirstToken c s)
  where
    shift :
        (o : Option ℕ)
        → FirstToken c s o
        → FirstToken c (x ∷ s) (if starts_with (c ∷ []) (x ∷ s) then some 0 else next_index o)
    shift none h = ground (arith, h)
    shift (some n) h = ground (arith, h.0, h.1)

abbrev pub join : ℕ → List String → String
join c [] = []
join c (tok ∷ []) = tok
join c (tok ∷ toks) = tok ++ c ∷ join c toks

pub length-drop : (n : ℕ) (s : String) → n ≤ length s → length (drop n s) + n ≡ length s
length-drop zero s h = omega arith
length-drop (suc n) [] h = elim h [ ]
length-drop (suc n) (x ∷ s) h = omega (arith, length-drop n s (omega arith))

drop-nil : (n : ℕ) → drop n [] ≡ []
drop-nil zero = refl
drop-nil (suc n) = refl

pub drop_add : (m n : ℕ) (s : String) → drop n (drop m s) ≡ drop (m + n) s
drop_add zero n s = let e : n ≡ 0 + n = omega arith in ap (λ k. drop k s) e
drop_add (suc m) n [] = drop-nil n ∙ sym (drop-nil (suc m + n))
drop_add (suc m) n (x ∷ s) =
    let e : suc (m + n) ≡ suc m + n = omega arith in drop_add m n s ∙ ap (λ k. drop k (x ∷ s)) e

find_from_inside :
    (d str : String) (last : ℕ) → last ≤ length str → find_from d str last ≡ find d (drop last str)
unfolding find_from
find_from_inside d str last h = ground arith

split_from-tokens :
    (c : ℕ) (fuel : ℕ) (str : String) (last : ℕ)
    → last ≤ length str
    → length str < last + fuel
    → split_from fuel (c ∷ []) str last ≡ some (some (tokens c (drop last str)))
unfolding split_from
split_from-tokens c zero str last h f = absurd (omega arith)
split_from-tokens c (suc fuel) str last h f =
    go (find (c ∷ []) (drop last str)) (find-FirstToken c (drop last str))
      (find_from_inside (c ∷ []) str last h) (split_from-tokens c fuel str)
  where
    go :
        (o : Option ℕ)
        → FirstToken c (drop last str) o
        → find_from (c ∷ []) str last ≡ o
        → ((next : ℕ)
            → next ≤ length str
            → length str < next + fuel
            → split_from fuel (c ∷ []) str next ≡ some (some (tokens c (drop next str))))
        → split_from (suc fuel) (c ∷ []) str last ≡ some (some (tokens c (drop last str)))
    go none t e ih = rw (split_from, e) (ground (arith, t))
    go (some n) t e ih =
        let l = length-drop last str h in
        let rest = ih (last + n + 1) (omega (arith, t.0, l)) (omega arith) in
        let shifted : drop (last + n + 1) str ≡ drop (suc n) (drop last str) =
          ap (λ k. drop k str) (omega arith) ∙ sym (drop_add last (suc n) str) in
        rw (split_from, e, rest, shifted) (cc (t.1))

split-tokens : (c : ℕ) (s : String) → split s (c ∷ []) ≡ some (some (tokens c s))
unfolding split
split-tokens c s = split_from-tokens c (length s + 2) s 0 (omega arith) (omega arith)

join-onto_first :
    (c x : ℕ) (toks : List String) → 0 < length toks → join c (onto_first x toks) ≡ x ∷ join c toks
join-onto_first c x [] h = elim h [ ]
join-onto_first c x (tok ∷ []) h = refl
join-onto_first c x (tok ∷ tok' ∷ toks) h = refl

join-nil : (c : ℕ) (toks : List String) → 0 < length toks → join c ([] ∷ toks) ≡ c ∷ join c toks
join-nil c [] h = elim h [ ]
join-nil c (tok ∷ toks) h = refl

some_token : (c : ℕ) (s : String) → 0 < length (tokens c s)
unfolding tokens
some_token c [] = omega arith
some_token c (x ∷ s) = ground (arith, some_token c s)

join-tokens : (c : ℕ) (s : String) → join c (tokens c s) ≡ s
unfolding tokens
join-tokens c [] = refl
join-tokens c (x ∷ s) =
    let n = some_token c s in
    ground (arith, join-tokens c s, join-onto_first c x (tokens c s) n, join-nil c (tokens c s) n)

abbrev pub Without : ℕ → String → Type 0
Without c = All (λ x. c ≢ x)

tokens_unbroken : (c : ℕ) (s : String) → Without c s → tokens c s ≡ s ∷ []
unfolding tokens
tokens_unbroken c [] h = refl
tokens_unbroken c (x ∷ s) h = ground (arith, h.0, tokens_unbroken c s h.1)

tokens-append :
    (c : ℕ) (tok s : String) → Without c tok → tokens c (tok ++ c ∷ s) ≡ tok ∷ tokens c s
unfolding tokens
tokens-append c [] s h = ground arith
tokens-append c (x ∷ tok) s h = ground (arith, h.0, tokens-append c tok s h.1)

tokens-join :
    (c : ℕ) (tok : String) (toks : List String)
    → All (Without c) (tok ∷ toks)
    → tokens c (join c (tok ∷ toks)) ≡ tok ∷ toks
tokens-join c tok [] h = tokens_unbroken c tok h.0
tokens-join c tok (tok' ∷ toks) h =
    tokens-append c tok (join c (tok' ∷ toks)) h.0 ∙ ap (tok ∷◌) (tokens-join c tok' toks h.1)

Without-tokens : (c : ℕ) (s : String) → All (Without c) (tokens c s)
unfolding tokens
Without-tokens c [] = (tt, tt)
Without-tokens c (x ∷ s) = go (tokens c s) (Without-tokens c s)
  where
    go :
        (toks : List String)
        → All (Without c) toks
        → All (Without c) (if c == x then [] ∷ toks else onto_first x toks)
    go [] h = ground arith
    go (tok ∷ toks) h = ground (arith, h.0, h.1)

-- Splitting any text at a character ends with tokens in which the character does not occur and
-- which, joined by the character, give the text back.
pub split_lem :
    (c : ℕ) (s : String)
    → (toks : List String) × (split s (c ∷ []) ≡ some (some toks))
      × All (Without c) toks
      × (join c toks ≡ s)
split_lem c s = (tokens c s, split-tokens c s, Without-tokens c s, join-tokens c s)

-- Tokens, one at least, in which a character does not occur are what splitting their join gives.
pub split-join :
    (c : ℕ) (tok : String) (toks : List String)
    → All (Without c) (tok ∷ toks)
    → split (join c (tok ∷ toks)) (c ∷ []) ≡ some (some (tok ∷ toks))
split-join c tok toks h =
    split-tokens c (join c (tok ∷ toks)) ∙ ap (λ r. some (some r)) (tokens-join c tok toks h)
