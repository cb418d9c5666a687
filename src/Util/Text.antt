-- ===== src/Util/Text.antt =====
-- TokenizeString of src/libserver/util/Util.cpp, on the characters of a string as numbers. A search
-- from a position is a search in the rest of the string from there.
pub mod Tokens
use alicia_server.Common.{
  ℕ, zero, suc, ◌+◌, List, [], ◌∷◌, ◌++◌, Bool, Option, none, some, ◌==◌, if◌then◌else◌, length,
  take, drop,
}

-- std::string::find of a character
unfoldable pub find : (delimiter : ℕ) → List ℕ → Option ℕ
find delimiter [] = none
find delimiter (c ∷ cs) =
    let rest = elim (find delimiter cs) as (λ x. Option ℕ) [
      | none ↦ none
      | some i ↦ some (i + 1)
    ] in
    if c == delimiter then some 0 else rest

-- the loop of TokenizeString on the rest of the string; the fuel bounds its rounds
unfoldable pub tokenize_rest : (fuel delimiter : ℕ) → List ℕ → List (List ℕ)
tokenize_rest zero delimiter value = []
tokenize_rest (suc fuel) delimiter value = elim (find delimiter value) [
  | none ↦ value ∷ []
  | some i ↦ take i value ∷ tokenize_rest fuel delimiter (drop (suc i) value)
]

-- TokenizeString; each round takes a character at least
unfoldable pub tokenize_string : (delimiter : ℕ) → List ℕ → List (List ℕ)
tokenize_string delimiter value = tokenize_rest (length value + 1) delimiter value
