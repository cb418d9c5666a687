-- ===== src/Ranch/Market/Snapshot/Sorted.antt =====
-- The comparator of CollectMarketSnapshot in src/server/ranch/BreedingMarket.cpp meets what
-- std::ranges::sort asks of it.
use alicia_server.Common.{
  ℕ, ◌≡◌, refl, sym, ◌∙◌, inl, inr, arith, Bool, true, false, Option, none, some, Option-cases, ltb,
}
use alicia_server.Ranch.Market.{BreedingMarket}
use alicia_server.Ranch.Market.Snapshot.{
  SnapshotOrder, Registration, compares, goes_first, records_of, lineage_descending,
  time_left_descending, fee_descending, pregnancy_chance_ascending, pregnancy_chance_descending,
  fee_ascending, time_left_ascending, lineage_ascending,
}

-- a strict weak order
pub record IsStrictWeak {A : Type 0} (less : A → A → Bool) : Type 0 where
  pub irreflexive : (a : A) → less a a ≡ false
  pub transitive : (a b c : A) → less a b ≡ true → less b c ≡ true → less a c ≡ true
  pub cotransitive : (a b c : A) → less a c ≡ true → less a b ≡ false → less b c ≡ true

-- Numbers ascending and descending.
ascending-IsStrictWeak :
    {A : Type 0} (key : A → ℕ) → IsStrictWeak (λ (a b : A). ltb (key a) (key b))
ascending-IsStrictWeak key = record {
  irreflexive = λ a. ground arith;
  transitive = λ a b c e f. ground arith;
  cotransitive = λ a b c e f. ground arith;
}

descending-IsStrictWeak :
    {A : Type 0} (key : A → ℕ) → IsStrictWeak (λ (a b : A). ltb (key b) (key a))
descending-IsStrictWeak key = record {
  irreflexive = λ a. ground arith;
  transitive = λ a b c e f. ground arith;
  cotransitive = λ a b c e f. ground arith;
}

goes_first-IsStrictWeak : (order : SnapshotOrder) → IsStrictWeak (goes_first order)
unfolding goes_first
goes_first-IsStrictWeak lineage_descending = descending-IsStrictWeak (λ a. a.0.lineage)
goes_first-IsStrictWeak lineage_ascending = ascending-IsStrictWeak (λ a. a.0.lineage)
goes_first-IsStrictWeak time_left_descending = descending-IsStrictWeak (λ a. a.1.expires_at)
goes_first-IsStrictWeak time_left_ascending = ascending-IsStrictWeak (λ a. a.1.expires_at)
goes_first-IsStrictWeak fee_descending = descending-IsStrictWeak (λ a. a.1.breeding_charge)
goes_first-IsStrictWeak fee_ascending = ascending-IsStrictWeak (λ a. a.1.breeding_charge)
goes_first-IsStrictWeak pregnancy_chance_descending =
    ascending-IsStrictWeak (λ a. a.0.breeding_count)
goes_first-IsStrictWeak pregnancy_chance_ascending =
    descending-IsStrictWeak (λ a. a.0.breeding_count)

-- Those without a value go last.
abbrev last : {A : Type 0} → (A → A → Bool) → Option A → Option A → Bool
last less none y = false
last less (some a) none = true
last less (some a) (some b) = less a b

module _ {A : Type 0} (less : A → A → Bool) (h : IsStrictWeak less) where
  last-irreflexive : (x : Option A) → last less x x ≡ false
  last-irreflexive none = refl
  last-irreflexive (some a) = h.irreflexive a

  last-transitive :
      (x y z : Option A) → last less x y ≡ true → last less y z ≡ true → last less x z ≡ true
  last-transitive none y z e f = ground arith
  last-transitive (some a) none z e f = ground arith
  last-transitive (some a) (some b) none e f = refl
  last-transitive (some a) (some b) (some c) e f = h.transitive a b c e f

  last-cotransitive :
      (x y z : Option A) → last less x z ≡ true → last less x y ≡ false → last less y z ≡ true
  last-cotransitive none y z e f = ground arith
  last-cotransitive (some a) none z e f = ground arith
  last-cotransitive (some a) (some b) none e f = refl
  last-cotransitive (some a) (some b) (some c) e f = h.cotransitive a b c e f

compares_lem :
    (order : SnapshotOrder) (m : BreedingMarket) (first second : Registration)
    → compares order m first second
      ≡ last (goes_first order) (records_of m first) (records_of m second)
unfolding compares
compares_lem order m first second = elim (Option-cases (records_of m first)) [
  | inl e ↦ rw (e, compares) refl
  | inr (a, e) ↦ elim (Option-cases (records_of m second)) [
    | inl f ↦ rw (e, compares) (rw (f) refl)
    | inr (b, f) ↦ rw (e, compares) (rw (f) refl)
  ]
]

-- In every order, and whichever records are at hand, the comparator is a strict weak order, which
-- std::ranges::sort needs: a registration whose records are missing goes behind all others.
pub compares-IsStrictWeak :
    (order : SnapshotOrder) (m : BreedingMarket) → IsStrictWeak (compares order m)
compares-IsStrictWeak order m =
    let less = goes_first order in
    let h = goes_first-IsStrictWeak order in
    record {
      irreflexive = λ a. compares_lem order m a a ∙ last-irreflexive less h (records_of m a);
      transitive = λ a b c e f.
          compares_lem order m a c
          ∙ last-transitive less h (records_of m a) (records_of m b) (records_of m c)
              (sym (compares_lem order m a b) ∙ e) (sym (compares_lem order m b c) ∙ f);
      cotransitive = λ a b c e f.
          compares_lem order m b c
          ∙ last-cotransitive less h (records_of m a) (records_of m b) (records_of m c)
              (sym (compares_lem order m a c) ∙ e) (sym (compares_lem order m a b) ∙ f);
    }
