-- ===== src/Common/Map.antt =====
-- std::unordered_map and std::map with number keys, as association lists. A key that is already
-- there keeps its place, a new one goes to the end. No theorem rests on the order of iteration,
-- which C++ leaves open for std::unordered_map.
use Prim.Native.Nat.{ℕ, suc, ◌+◌, ◌≤◌}
use mathlib.Core.Path.{◌≡◌, refl}
use mathlib.Core.Bool.{Bool, true, false}
use mathlib.Core.List.{List, [], ◌∷◌}
use mathlib.Core.Option.{Option, none, some}
use native.Mathlib.Omega.{arith}
use alicia_server.Common.Tests.{◌==◌, if◌then◌else◌, is_some}

abbrev pub Map {ℓ} : Type ℓ → Type ℓ
Map V = List (ℕ × V)

module _ {ℓ} {V : Type ℓ} where
  -- find
  unfoldable pub lookup : ℕ → Map V → Option V
  lookup k [] = none
  lookup k ((held, stored) ∷ m) = if held == k then some stored else lookup k m

  -- contains
  unfoldable pub contains : ℕ → Map V → Bool
  unfolding lookup
  contains k m = is_some (lookup k m)

  -- insert_or_assign
  unfoldable pub insert : ℕ → V → Map V → Map V
  insert k v [] = (k, v) ∷ []
  insert k v ((held, stored) ∷ m) = if held == k then (k, v) ∷ m else (held, stored) ∷ insert k v m

  -- erase
  unfoldable pub erase : ℕ → Map V → Map V
  erase k [] = []
  erase k ((held, stored) ∷ m) =
      let rest = erase k m in if held == k then rest else (held, stored) ∷ rest

  -- size
  unfoldable pub size : Map V → ℕ
  size [] = 0
  size (e ∷ m) = suc (size m)

  pub lookup-insert :
      (changed key : ℕ) (value : V) (entries : Map V)
      → lookup key (insert changed value entries)
        ≡ (if changed == key then some value else lookup key entries)
  unfolding insert lookup
  lookup-insert changed key value [] = refl
  lookup-insert changed key value (entry ∷ entries) =
      ground (arith, lookup-insert changed key value entries)

  pub contains-insert :
      (changed key : ℕ) (value : V) (entries : Map V)
      → contains key (insert changed value entries)
        ≡ (if changed == key then true else contains key entries)
  unfolding contains
  contains-insert changed key value entries =
      ground (arith, lookup-insert changed key value entries)

  pub lookup-erase :
      (k j : ℕ) (m : Map V) → lookup j (erase k m) ≡ (if k == j then none else lookup j m)
  unfolding lookup erase
  lookup-erase k j [] = ground arith
  lookup-erase k j ((i, w) ∷ m) = ground (arith, lookup-erase k j m)

  pub size-insert :
      (k : ℕ) (v : V) (m : Map V)
      → size (insert k v m) ≡ (if contains k m then size m else size m + 1)
  unfolding size insert contains
  size-insert k v [] = omega arith
  size-insert k v ((i, w) ∷ m) = ground (arith, size-insert k v m)

  pub size-erase-le : (k : ℕ) (m : Map V) → size (erase k m) ≤ size m
  unfolding size erase
  size-erase-le k [] = omega arith
  size-erase-le k ((i, w) ∷ m) = ground (arith, size-erase-le k m)

  -- No key occurs twice.
  abbrev pub IsDistinct : Map V → Type 0
  IsDistinct [] = Unit {0}
  IsDistinct ((k, v) ∷ m) = (contains k m ≡ false) × IsDistinct m

  pub insert-IsDistinct : (k : ℕ) (v : V) (m : Map V) → IsDistinct m → IsDistinct (insert k v m)
  unfolding insert contains
  insert-IsDistinct k v [] d = (refl, tt)
  insert-IsDistinct k v ((i, w) ∷ m) d =
      ground (arith, insert-IsDistinct k v m d.1, lookup-insert k i v m)

  pub erase-IsDistinct : (k : ℕ) (m : Map V) → IsDistinct m → IsDistinct (erase k m)
  unfolding erase contains
  erase-IsDistinct k [] d = tt
  erase-IsDistinct k ((i, w) ∷ m) d = ground (arith, erase-IsDistinct k m d.1, lookup-erase k i m)

  erase_absent : (k : ℕ) (m : Map V) → contains k m ≡ false → erase k m ≡ m
  unfolding erase contains
  erase_absent k [] h = refl
  erase_absent k ((i, w) ∷ m) h = ground (arith, erase_absent k m)

  pub size-erase :
      (k : ℕ) (m : Map V)
      → IsDistinct m
      → size (erase k m) + (if contains k m then 1 else 0) ≡ size m
  unfolding size erase contains
  size-erase k [] d = omega arith
  size-erase k ((i, w) ∷ m) d = ground (arith, size-erase k m d.1, erase_absent k m)

pub ruleset map_laws = (lookup-insert, lookup-erase)
