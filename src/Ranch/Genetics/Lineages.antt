-- ===== src/Ranch/Genetics/Lineages.antt =====
-- Lineages in src/server/ranch/Genetics.cpp when records are missing.
use alicia_server.Common.{ℕ, ◌+◌, ◌≡◌, ◌≢◌, ◌≤◌, ◌⊎◌, inl, inr, refl, arith, some, Option-cases}
use alicia_server.Common.Map.{Map, lookup}
use alicia_server.Ranch.Genetics.{
  Horse, Part, invalid_uid, read_part, read_grandparents, build_ancestry, parent_share,
  grandparent_share, calculate_lineage,
}

-- Every horse that one map has at hand the other has alike.
abbrev pub IsWithin : Map Horse → Map Horse → Type 0
IsWithin few more =
    (uid : ℕ) (horse : Horse) → lookup uid few ≡ some horse → lookup uid more ≡ some horse

module _ (few more : Map Horse) (within : IsWithin few more) where
  read_part_within :
      (uid : ℕ) (part : Part)
      → (read_part few uid part ≡ 0) ⊎ (read_part few uid part ≡ read_part more uid part)
  unfolding read_part
  read_part_within uid part = elim (Option-cases (lookup uid few)) [
    | inl e ↦ inl (ground (arith, e))
    | inr (horse, e) ↦ inr (ground (arith, e, within uid horse e))
  ]

  grandparents_within :
      (uid : ℕ)
      → (read_grandparents few uid ≡ (invalid_uid, invalid_uid))
        ⊎ (read_grandparents few uid ≡ read_grandparents more uid)
  unfolding read_grandparents
  grandparents_within uid = elim (Option-cases (lookup uid few)) [
    | inl e ↦ inl (ground (arith, e))
    | inr (horse, e) ↦ inr (ground (arith, e, within uid horse e))
  ]

  module _ (skin_tid : ℕ) (real : skin_tid ≢ 0) where
    parent_share-le : (uid : ℕ) → parent_share few skin_tid uid ≤ parent_share more skin_tid uid
    unfolding parent_share
    parent_share-le uid = ground (arith, real, read_part_within uid Part.skin)

    grandparent_share-le :
        (uid : ℕ) → grandparent_share few skin_tid uid ≤ grandparent_share more skin_tid uid
    unfolding grandparent_share
    grandparent_share-le uid = ground (arith, real, read_part_within uid Part.skin)

    no_grandparent : grandparent_share few skin_tid invalid_uid ≡ 0
    unfolding grandparent_share
    no_grandparent = refl

    grandparents_share-le :
        (uid : ℕ)
        → let mine = read_grandparents few uid in
          let all = read_grandparents more uid in
          grandparent_share few skin_tid mine.0 + grandparent_share few skin_tid mine.1
          ≤ grandparent_share more skin_tid all.0 + grandparent_share more skin_tid all.1
    grandparents_share-le uid = elim (grandparents_within uid) [
      | inl e ↦ rw (e) (omega (arith, no_grandparent))
      | inr e ↦ rw (e) (
          omega (
            arith,
            grandparent_share-le (read_grandparents more uid).0,
            grandparent_share-le (read_grandparents more uid).1,
          ))
    ]

-- A lineage never falls when more horses are at hand than before: for a coat other than the one that
-- stands for none, what is counted with fewer records is counted with more.
pub calculate_lineage-le :
    (few more : Map Horse) (foal_skin_tid mare_uid stallion_uid : ℕ)
    → foal_skin_tid ≢ 0
    → IsWithin few more
    → calculate_lineage few foal_skin_tid mare_uid stallion_uid
      ≤ calculate_lineage more foal_skin_tid mare_uid stallion_uid
unfolding calculate_lineage build_ancestry
calculate_lineage-le few more foal_skin_tid mare_uid stallion_uid real within = omega (
  arith,
  parent_share-le few more within foal_skin_tid real mare_uid,
  parent_share-le few more within foal_skin_tid real stallion_uid,
  grandparents_share-le few more within foal_skin_tid real mare_uid,
  grandparents_share-le few more within foal_skin_tid real stallion_uid,
)
