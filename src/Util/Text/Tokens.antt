-- ===== src/Util/Text/Tokens.antt =====
-- The tokens of src/libserver/util/Util.cpp and the string they come from.
use alicia_server.Common.{
  ℕ, zero, suc, ◌+◌, ◌≡◌, ◌<◌, ◌⊎◌, inl, inr, refl, ap, ◌∙◌, sym, arith, List, [], ◌∷◌, ◌++◌, false,
  none, some, length, take, drop, member, eq-cases, length-append,
}
use alicia_server.Util.Text.{find, tokenize_rest, tokenize_string}

-- The string with the delimiter between tokens.
unfoldable pub join : (delimiter : ℕ) → List ℕ → List (List ℕ) → List ℕ
join delimiter first [] = first
join delimiter first (token ∷ tokens) = first ++ delimiter ∷ join delimiter token tokens

-- Tokens without the delimiter.
abbrev pub AreFree : (delimiter : ℕ) → List (List ℕ) → Type 0
AreFree delimiter [] = Unit {0}
AreFree delimiter (token ∷ tokens) = (member delimiter token ≡ false) × AreFree delimiter tokens

find-append :
    (delimiter : ℕ) (token rest : List ℕ)
    → member delimiter token ≡ false
    → find delimiter (token ++ delimiter ∷ rest) ≡ some (length token)
unfolding find
find-append delimiter [] rest free = ground arith
find-append delimiter (c ∷ cs) rest free = ground (arith, free, find-append delimiter cs rest)

find_free :
    (delimiter : ℕ) (value : List ℕ) → member delimiter value ≡ false → find delimiter value ≡ none
unfolding find
find_free delimiter [] free = refl
find_free delimiter (c ∷ cs) free = ground (arith, free, find_free delimiter cs)

take-length : (token rest : List ℕ) → take (length token) (token ++ rest) ≡ token
take-length [] rest = refl
take-length (c ∷ cs) rest = ap (λ (l : List ℕ). c ∷ l) (take-length cs rest)

drop-length : (c : ℕ) (token rest : List ℕ) → drop (suc (length token)) (token ++ c ∷ rest) ≡ rest
drop-length c [] rest = refl
drop-length c (d ∷ ds) rest = drop-length c ds rest

rest_found :
    (fuel delimiter i : ℕ) (value : List ℕ)
    → find delimiter value ≡ some i
    → tokenize_rest (suc fuel) delimiter value
      ≡ take i value ∷ tokenize_rest fuel delimiter (drop (suc i) value)
unfolding tokenize_rest
rest_found fuel delimiter i value e = ground (arith, e)

rest_last :
    (fuel delimiter : ℕ) (value : List ℕ)
    → find delimiter value ≡ none
    → tokenize_rest (suc fuel) delimiter value ≡ value ∷ []
unfolding tokenize_rest
rest_last fuel delimiter value e = ground (arith, e)

tokenize_rest-join :
    (fuel delimiter : ℕ) (first : List ℕ) (tokens : List (List ℕ))
    → AreFree delimiter (first ∷ tokens)
    → length (join delimiter first tokens) < fuel
    → tokenize_rest fuel delimiter (join delimiter first tokens) ≡ first ∷ tokens
unfolding join
tokenize_rest-join zero delimiter first tokens free enough = absurd (omega arith)
tokenize_rest-join (suc fuel) delimiter first [] free enough =
    rest_last fuel delimiter first (find_free delimiter first free.0)
tokenize_rest-join (suc fuel) delimiter first (token ∷ tokens) free enough =
    let rest = join delimiter token tokens in
    rest_found fuel delimiter (length first) _ (find-append delimiter first rest free.0)
    ∙ rw (take-length first (delimiter ∷ rest)) (
        rw (drop-length delimiter first rest) (
          ap (λ (ts : List (List ℕ)). first ∷ ts)
            (tokenize_rest-join fuel delimiter token tokens free.1
              (omega (arith, length-append first (delimiter ∷ rest))))))

-- A string that joins tokens without the delimiter, one at least, is taken apart into these tokens.
pub tokenize_string-join :
    (delimiter : ℕ) (first : List ℕ) (tokens : List (List ℕ))
    → AreFree delimiter (first ∷ tokens)
    → tokenize_string delimiter (join delimiter first tokens) ≡ first ∷ tokens
unfolding tokenize_string
tokenize_string-join delimiter first tokens free =
    tokenize_rest-join (length (join delimiter first tokens) + 1) delimiter first tokens free
      (omega arith)

find-cases :
    (delimiter : ℕ) (value : List ℕ)
    → ((find delimiter value ≡ none) × (member delimiter value ≡ false))
      ⊎ ((token : List ℕ) × (rest : List ℕ) × (value ≡ token ++ delimiter ∷ rest)
          × (member delimiter token ≡ false))
unfolding find
find-cases delimiter [] = inl (refl, refl)
find-cases delimiter (c ∷ cs) = elim (eq-cases c delimiter) [
  | inl e ↦ inr ([], cs, rw (e) refl, refl)
  | inr ne ↦ elim (find-cases delimiter cs) [
    | inl (f, free) ↦ inl (ground (arith, f, ne), ground (arith, free, ne))
    | inr (token, rest, e, free) ↦
        inr (c ∷ token, rest, ap (λ (l : List ℕ). c ∷ l) e, ground (arith, free, ne))
  ]
]

-- Every string joins tokens without the delimiter.
joined :
    (fuel delimiter : ℕ) (value : List ℕ)
    → length value < fuel
    → (first : List ℕ) × (tokens : List (List ℕ)) × (value ≡ join delimiter first tokens)
      × AreFree delimiter (first ∷ tokens)
unfolding join
joined zero delimiter value enough = absurd (omega arith)
joined (suc fuel) delimiter value enough = elim (find-cases delimiter value) [
  | inl (f, free) ↦ (value, [], refl, (free, tt))
  | inr (token, rest, e, free) ↦
      let total = ap length e in
      let (first, tokens, same, others) =
        joined fuel delimiter rest (omega (arith, length-append token (delimiter ∷ rest), total)) in
      (token, first ∷ tokens, e ∙ ap (λ (l : List ℕ). token ++ delimiter ∷ l) same, (free, others))
]

-- Every string is taken apart into a token at least, and tokens that do not have the delimiter; with
-- the delimiter between them they are the string.
pub join-tokenize_string :
    (delimiter : ℕ) (value : List ℕ)
    → (first : List ℕ) × (tokens : List (List ℕ)) × (tokenize_string delimiter value
        ≡ first ∷ tokens)
      × (join delimiter first tokens ≡ value)
      × AreFree delimiter (first ∷ tokens)
join-tokenize_string delimiter value =
    let (first, tokens, e, free) = joined (length value + 1) delimiter value (omega arith) in
    (
      first,
      tokens,
      ap (tokenize_string delimiter) e ∙ tokenize_string-join delimiter first tokens free,
      sym e,
      free,
    )
