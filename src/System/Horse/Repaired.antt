-- ===== src/System/Horse/Repaired.antt =====
-- Repaired lineages of src/server/system/HorseSystem.cpp.
use alicia_server.Common.{
  ℕ, ◌+◌, ◌≡◌, ◌≤◌, ◌⊎◌, inl, inr, refl, sym, ap, ◌∙◌, arith, max, List, [], ◌∷◌, ◌++◌, Bool, true,
  false, Option, none, some, ◌==◌, if◌then◌else◌, member, Option-cases, eq-cases, ==_self, some_eq,
}
use alicia_server.Common.Map.{Map, lookup, lookup-insert}
use alicia_server.Ranch.Genetics.{Horse, recalculate_lineage}
use alicia_server.System.Horse.{Character, repair_lineage, repair_all, repair_lineages}
use alicia_server.System.Horse.Counted.{relined, recalculate_after}

-- What a repair does with the horses: the lineages count as before, and a horse has its lineage raised
-- to what counts where a test is true.
abbrev Raises : (test : ℕ → Bool) → Map Horse → Map Horse → Type 0
Raises test horses done =
    ((u : ℕ) → recalculate_lineage done u ≡ recalculate_lineage horses u)
    × ((u : ℕ) (horse : Horse)
        → lookup u horses ≡ some horse
        → lookup u done
          ≡ some (
              relined
                (if test u then max horse.lineage (recalculate_lineage horses u) else horse.lineage)
                horse))

raised_here :
    (uid : ℕ) (horses : Map Horse) (horse : Horse)
    → lookup uid horses ≡ some horse
    → lookup uid (repair_lineage uid horses).0
      ≡ some (relined (max horse.lineage (recalculate_lineage horses uid)) horse)
unfolding repair_lineage
raised_here uid horses horse found =
    let counted = recalculate_lineage horses uid in
    let stored = lookup-insert uid uid (relined counted horse) horses in
    elim (le-cases counted horse.lineage) [
      | inl le ↦
          let high : max horse.lineage counted ≡ horse.lineage = omega arith in
          rw (high) (ground (arith, found, le))
      | inr more ↦
          let high : max horse.lineage counted ≡ counted = omega arith in
          rw (high) (ground (arith, found, more, stored))
    ]
  where
    le-cases : (a b : ℕ) → (a ≤ b) ⊎ (b + 1 ≤ a)
    le-cases a b = ground arith

raised_once :
    (uid : ℕ) (horses : Map Horse) (u : ℕ) (horse : Horse)
    → lookup u horses ≡ some horse
    → lookup u (repair_lineage uid horses).0
      ≡ some (
          relined
            (if uid == u then max horse.lineage (recalculate_lineage horses u) else horse.lineage)
            horse)
unfolding repair_lineage
raised_once uid horses u horse found = elim (eq-cases uid u) [
  | inl e ↦ rw⁻¹ (e) (rw (==_self uid) (raised_here uid horses horse (rw (e) found)))
  | inr ne ↦ elim (Option-cases (lookup uid horses)) [
    | inl n ↦ ground (arith, n, ne, found)
    | inr (h, there) ↦ ground (
      arith,
      there,
      ne,
      found,
      lookup-insert uid u (relined (recalculate_lineage horses uid) h) horses,
    )
  ]
]

recalculate_once :
    (uid : ℕ) (horses : Map Horse) (u : ℕ)
    → recalculate_lineage (repair_lineage uid horses).0 u ≡ recalculate_lineage horses u
unfolding repair_lineage
recalculate_once uid horses u = elim (Option-cases (lookup uid horses)) [
  | inl n ↦ ground (arith, n)
  | inr (h, there) ↦
      ground (arith, there, recalculate_after uid (recalculate_lineage horses uid) h horses there u)
]

raised_twice :
    (test rest : Bool) (stored counted : ℕ)
    → let once = if test then max stored counted else stored in
      (if rest then max once counted else once)
      ≡ (if if test then true else rest then max stored counted else stored)
raised_twice true true stored counted = omega arith
raised_twice true false stored counted = refl
raised_twice false true stored counted = refl
raised_twice false false stored counted = refl

repair_all-Raises :
    (uids : List ℕ) (horses : Map Horse)
    → Raises (λ u. member u uids) horses (repair_all uids horses).0
unfolding repair_all
repair_all-Raises [] horses = ((λ u. refl), (λ u horse found. found))
repair_all-Raises (uid ∷ uids) horses =
    let here = (repair_lineage uid horses).0 in
    let (counts, raises) = repair_all-Raises uids here in
    (
      λ u. counts u ∙ recalculate_once uid horses u,
      λ u horse found.
          raises u _ (raised_once uid horses u horse found)
          ∙ rw (recalculate_once uid horses u) (
              ap (λ (n : ℕ). some (relined n horse))
                (raised_twice (uid == u) (member u uids) horse.lineage
                  (recalculate_lineage horses u))),
    )

-- A repair of horses whose lineages are no less than what counts.
nothing_to_repair :
    (uids : List ℕ) (horses : Map Horse)
    → ((u : ℕ) (horse : Horse)
        → member u uids ≡ true
        → lookup u horses ≡ some horse
        → recalculate_lineage horses u ≤ horse.lineage)
    → repair_all uids horses ≡ (horses, 0)
unfolding repair_all repair_lineage
nothing_to_repair [] horses high = refl
nothing_to_repair (uid ∷ uids) horses high =
    let rest =
      nothing_to_repair uids horses
        (λ u horse listed found. high u horse (ground (arith, listed)) found) in
    elim (Option-cases (lookup uid horses)) [
      | inl n ↦ ground (arith, n, rest)
      | inr (horse, found) ↦
          ground (arith, found, high uid horse (ground (arith, ==_self uid)) found, rest)
    ]

-- A repair raises the lineage of each horse of a character, and of the mount, to what its ancestry
-- counts, where that is more, and leaves all other horses and their fields as they are.
pub repair_lineages-raised :
    (character : Character) (horses : Map Horse) (uid : ℕ) (horse : Horse)
    → lookup uid horses ≡ some horse
    → let owned = character.horses ++ character.mount_uid ∷ [] in
      lookup uid (repair_lineages (some character) horses).0
      ≡ some (record horse {
        lineage =
            if member uid owned
            then max horse.lineage (recalculate_lineage horses uid)
            else horse.lineage;
      })
unfolding repair_lineages
repair_lineages-raised character horses uid horse found =
    (repair_all-Raises (character.horses ++ character.mount_uid ∷ []) horses).1 uid horse found

absent_once :
    (uid : ℕ) (horses : Map Horse) (u : ℕ)
    → lookup u horses ≡ none
    → lookup u (repair_lineage uid horses).0 ≡ none
unfolding repair_lineage
absent_once uid horses u e = elim (Option-cases (lookup uid horses)) [
  | inl n ↦ ground (arith, n, e)
  | inr (h, there) ↦ elim (eq-cases uid u) [
    | inl same ↦ cc
    | inr ne ↦ ground (
      arith,
      there,
      ne,
      e,
      lookup-insert uid u (relined (recalculate_lineage horses uid) h) horses,
    )
  ]
]

absent_all :
    (uids : List ℕ) (horses : Map Horse) (u : ℕ)
    → lookup u horses ≡ none
    → lookup u (repair_all uids horses).0 ≡ none
unfolding repair_all
absent_all [] horses u e = e
absent_all (uid ∷ uids) horses u e =
    absent_all uids (repair_lineage uid horses).0 u (absent_once uid horses u e)

repaired_high :
    (uids : List ℕ) (horses : Map Horse) (u : ℕ) (horse : Horse)
    → member u uids ≡ true
    → lookup u (repair_all uids horses).0 ≡ some horse
    → recalculate_lineage (repair_all uids horses).0 u ≤ horse.lineage
repaired_high uids horses u horse listed found =
    let (counts, raises) = repair_all-Raises uids horses in
    elim (Option-cases (lookup u horses)) [
      | inl n ↦ absurd (some_is_not_none (sym found ∙ absent_all uids horses u n))
      | inr (h, there) ↦
          let high : (if member u uids
                then max h.lineage (recalculate_lineage horses u)
                else h.lineage)
              ≡ horse.lineage =
            ap (λ (r : Horse). r.lineage) (some_eq (sym (raises u h there) ∙ found)) in
          ground (arith, high, listed, counts u)
    ]
  where
    some_is_not_none : some horse ≡ none → ⊥
    some_is_not_none e = cc

-- A second repair finds nothing more to do: it counts no horse and changes none, whatever the
-- ancestries are and whichever horses are at hand.
pub repair_lineages-again :
    (character : Option Character) (horses : Map Horse)
    → let done = (repair_lineages character horses).0 in repair_lineages character done ≡ (done, 0)
unfolding repair_lineages
repair_lineages-again none horses = refl
repair_lineages-again (some character) horses =
    let owned = character.horses ++ character.mount_uid ∷ [] in
    nothing_to_repair owned (repair_all owned horses).0 (repaired_high owned horses)
