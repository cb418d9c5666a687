-- ===== src/Ranch/Genetics.antt =====
-- Genetics of src/server/ranch/Genetics.cpp: the ancestry of horses and what depends on it.
--
-- The horses that the data director has at hand are a map by uid. A draw of a random number is an
-- argument. The grades and the stats of foals are in Genetics.Foal.
pub mod Foal
pub mod Sums
pub mod Bucket
pub mod Lineages
mod Tests
use alicia_server.Common.{
  ℕ, ◌+◌, ◌-◌, ◌*◌, ◌%◌, ◌^◌, min, List, [], ◌∷◌, Bool, true, false, Option, none, some, ltb, leb,
  ◌==◌, if◌then◌else◌, get_elem?,
}
use alicia_server.Common.Map.{Map, lookup}
use alicia_server.Ranch.Market.{HorseType}

-- the fields of data::Horse that the calculations and the horse system read; times are in seconds
pub record Horse : Type 0 where
  pub skin_tid : ℕ
  pub mane_tid : ℕ
  pub tail_tid : ℕ
  pub mother : ℕ
  pub father : ℕ
  pub lineage : ℕ
  pub potential_type : ℕ
  pub type : HorseType
  pub date_of_birth : ℕ

-- Genetics::Part
pub data Part : Type 0 where
  skin mane tail : Part

abbrev pub invalid_uid : ℕ
invalid_uid = 0

-- Genetics::Ancestry, the array of grandparents spread out
pub record Ancestry : Type 0 where
  pub mare : ℕ
  pub stallion : ℕ
  pub maternal_grandmother : ℕ
  pub maternal_grandfather : ℕ
  pub paternal_grandmother : ℕ
  pub paternal_grandfather : ℕ

-- the switch of ReadPart
abbrev pub part_of : Part → Horse → ℕ
part_of Part.skin horse = horse.skin_tid
part_of Part.mane horse = horse.mane_tid
part_of Part.tail horse = horse.tail_tid

-- Genetics::ReadPart
unfoldable pub read_part : Map Horse → ℕ → Part → ℕ
read_part horses horse_uid part =
    if horse_uid == invalid_uid
    then 0
    else elim (lookup horse_uid horses) [ none ↦ 0 | some horse ↦ part_of part horse ]

-- the lambda readGrandparents: the mother and the father of a parent
unfoldable pub read_grandparents : Map Horse → ℕ → ℕ × ℕ
read_grandparents horses parent_uid =
    if parent_uid == invalid_uid
    then (invalid_uid, invalid_uid)
    else elim (lookup parent_uid horses) [
      | none ↦ (invalid_uid, invalid_uid)
      | some parent ↦ (parent.mother, parent.father)
    ]

-- Genetics::BuildAncestry
unfoldable pub build_ancestry : Map Horse → (mare_uid stallion_uid : ℕ) → Ancestry
build_ancestry horses mare_uid stallion_uid = record {
  mare = mare_uid;
  stallion = stallion_uid;
  maternal_grandmother = (read_grandparents horses mare_uid).0;
  maternal_grandfather = (read_grandparents horses mare_uid).1;
  paternal_grandmother = (read_grandparents horses stallion_uid).0;
  paternal_grandfather = (read_grandparents horses stallion_uid).1;
}

-- Genetics::RollInheritedDonor, with what RollPercent rolls
unfoldable pub roll_inherited_donor : (roll : ℕ) → Ancestry → ℕ
roll_inherited_donor roll ancestry =
    if ltb roll 10
    then ancestry.mare
    else if ltb roll 20
    then ancestry.stallion
    else if ltb roll 25
    then ancestry.maternal_grandmother
    else if ltb roll 30
    then ancestry.maternal_grandfather
    else if ltb roll 35
    then ancestry.paternal_grandmother
    else if ltb roll 40
    then ancestry.paternal_grandfather
    else invalid_uid

-- what a parent with the coat adds to the lineage
unfoldable pub parent_share : Map Horse → (skin_tid uid : ℕ) → ℕ
parent_share horses skin_tid uid = if read_part horses uid Part.skin == skin_tid then 2 else 0

-- what a grandparent with the coat adds to the lineage
unfoldable pub grandparent_share : Map Horse → (skin_tid uid : ℕ) → ℕ
grandparent_share horses skin_tid uid =
    if uid == invalid_uid then 0 else if read_part horses uid Part.skin == skin_tid then 1 else 0

-- Genetics::CalculateLineage
unfoldable pub calculate_lineage : Map Horse → (foal_skin_tid mare_uid stallion_uid : ℕ) → ℕ
calculate_lineage horses foal_skin_tid mare_uid stallion_uid =
    let ancestry = build_ancestry horses mare_uid stallion_uid in
    min
      (1
        + parent_share horses foal_skin_tid ancestry.mare
        + parent_share horses foal_skin_tid ancestry.stallion
        + grandparent_share horses foal_skin_tid ancestry.maternal_grandmother
        + grandparent_share horses foal_skin_tid ancestry.maternal_grandfather
        + grandparent_share horses foal_skin_tid ancestry.paternal_grandmother
        + grandparent_share horses foal_skin_tid ancestry.paternal_grandfather)
      9

-- Genetics::RecalculateLineage, without the requests for the records that are missing
unfoldable pub recalculate_lineage : Map Horse → ℕ → ℕ
recalculate_lineage horses horse_uid = elim (lookup horse_uid horses) [
  | none ↦ 0
  | some horse ↦ calculate_lineage horses horse.skin_tid horse.mother horse.father
]

-- registry::Coat::Tier
pub data Tier : Type 0 where
  common uncommon rare : Tier

-- the lambda countPotential
unfoldable pub count_potential : Map Horse → ℕ → ℕ
count_potential horses uid = if uid == invalid_uid then 0 else elim (lookup uid horses) [
  | none ↦ 0
  | some horse ↦ if ltb 0 horse.potential_type then 1 else 0
]

abbrev pub tier_bonus : Tier → ℕ
tier_bonus Tier.rare = 10
tier_bonus Tier.uncommon = 5
tier_bonus Tier.common = 0

-- Genetics::PotentialResult
pub record PotentialResult : Type 0 where
  pub type : ℕ
  pub level : ℕ
  pub value : ℕ

abbrev pub no_potential : PotentialResult
no_potential = record { type = 0; level = 0; value = 0 }

-- Genetics::CalculateFoalPotential, with what RollPercent rolls and the index that is drawn
unfoldable pub calculate_foal_potential :
    Map Horse
    → (potential_types : List ℕ) → Tier
    → (roll draw mare_uid stallion_uid : ℕ) → PotentialResult
calculate_foal_potential horses potential_types tier roll draw mare_uid stallion_uid =
    let parents_with_potential =
      count_potential horses mare_uid + count_potential horses stallion_uid in
    let probability = 5 + tier_bonus tier + parents_with_potential * 10 in
    if leb probability roll then no_potential else elim (get_elem? potential_types draw) [
      | none ↦ no_potential
      | some type ↦ record { type = type % 2 ^ 8; level = 1; value = 0 }
    ]

abbrev pub max_pregnancy_chance : ℕ
max_pregnancy_chance = 30

-- the bonus in percent of StallionCoatBonusMultiplier
unfoldable pub stallion_coat_bonus :
    (inheritance_rate_bonus_unit mare_combo pregnancy_chance stallion_lineage : ℕ) → ℕ
stallion_coat_bonus inheritance_rate_bonus_unit mare_combo pregnancy_chance stallion_lineage =
    let combo_bonus = mare_combo * inheritance_rate_bonus_unit % 2 ^ 32 in
    let pregnancy_bonus = max_pregnancy_chance - min pregnancy_chance max_pregnancy_chance in
    let lineage_bonus = if ltb 1 stallion_lineage then stallion_lineage - 1 else 0 in
    min ((combo_bonus + pregnancy_bonus + lineage_bonus) % 2 ^ 32) 100
