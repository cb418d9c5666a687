-- ===== src/System/Horse/Counted.antt =====
-- What a lineage counts by src/server/ranch/Genetics.cpp when the lineage of a horse changes.
use alicia_server.Common.{ℕ, ◌≡◌, inl, inr, arith, some, Option-cases, eq-cases}
use alicia_server.Common.Map.{Map, lookup, insert, lookup-insert}
use alicia_server.Ranch.Genetics.{
  Horse, Part, read_part, read_grandparents, build_ancestry, parent_share, grandparent_share,
  calculate_lineage, recalculate_lineage,
}

-- A horse with another lineage.
abbrev pub relined : ℕ → Horse → Horse
relined lineage horse = record horse { lineage = lineage }

module _ (uid lineage : ℕ) (horse : Horse) (horses : Map Horse)
    (found : lookup uid horses ≡ some horse) where
  abbrev after : Map Horse
  after = insert uid (relined lineage horse) horses

  read_part_after : (u : ℕ) (part : Part) → read_part after u part ≡ read_part horses u part
  unfolding read_part
  read_part_after u Part.skin =
      ground (arith, lookup-insert uid u (relined lineage horse) horses, found, eq-cases uid u)
  read_part_after u Part.mane =
      ground (arith, lookup-insert uid u (relined lineage horse) horses, found, eq-cases uid u)
  read_part_after u Part.tail =
      ground (arith, lookup-insert uid u (relined lineage horse) horses, found, eq-cases uid u)

  grandparents_after : (u : ℕ) → read_grandparents after u ≡ read_grandparents horses u
  unfolding read_grandparents
  grandparents_after u =
      ground (arith, lookup-insert uid u (relined lineage horse) horses, found, eq-cases uid u)

  share_after :
      (skin_tid u : ℕ)
      → (parent_share after skin_tid u ≡ parent_share horses skin_tid u)
        × (grandparent_share after skin_tid u ≡ grandparent_share horses skin_tid u)
  unfolding parent_share grandparent_share
  share_after skin_tid u = ground (arith, read_part_after u Part.skin)

  calculate_after :
      (skin_tid mare_uid stallion_uid : ℕ)
      → calculate_lineage after skin_tid mare_uid stallion_uid
        ≡ calculate_lineage horses skin_tid mare_uid stallion_uid
  unfolding calculate_lineage build_ancestry
  calculate_after skin_tid mare_uid stallion_uid =
      let mine = read_grandparents horses mare_uid in
      let his = read_grandparents horses stallion_uid in
      rw (grandparents_after mare_uid, grandparents_after stallion_uid)
        (omega (
          arith,
          (share_after skin_tid mare_uid).0,
          (share_after skin_tid stallion_uid).0,
          (share_after skin_tid mine.0).1,
          (share_after skin_tid mine.1).1,
          (share_after skin_tid his.0).1,
          (share_after skin_tid his.1).1,
        ))

  pub recalculate_after : (u : ℕ) → recalculate_lineage after u ≡ recalculate_lineage horses u
  unfolding recalculate_lineage
  recalculate_after u = elim (eq-cases uid u) [
    | inl e ↦ rw⁻¹ (e) (
        ground (
          arith,
          lookup-insert uid uid (relined lineage horse) horses,
          found,
          calculate_after horse.skin_tid horse.mother horse.father,
        ))
    | inr ne ↦ elim (Option-cases (lookup u horses)) [
      | inl none_there ↦
          ground (arith, lookup-insert uid u (relined lineage horse) horses, ne, none_there)
      | inr (h, there) ↦ ground (
        arith,
        lookup-insert uid u (relined lineage horse) horses,
        ne,
        there,
        calculate_after h.skin_tid h.mother h.father,
      )
    ]
  ]
