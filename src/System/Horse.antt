-- ===== src/System/Horse.antt =====
-- HorseSystem of src/server/system/HorseSystem.cpp over the horses that the data director has at
-- hand, a map by uid. Times are in seconds.
pub mod Matured
pub mod Counted
pub mod Repaired
mod Tests
use alicia_server.Common.{
  ℕ, ◌+◌, List, [], ◌∷◌, ◌++◌, Bool, true, false, Option, none, some, leb, if◌then◌else◌,
}
use alicia_server.Common.Map.{Map, lookup, insert, contains}
use alicia_server.Ranch.Market.{HorseType}
use alicia_server.Ranch.Genetics.{Horse, recalculate_lineage}

-- the fields of data::Character that the system reads
pub record Character : Type 0 where
  pub horses : List ℕ
  pub mount_uid : ℕ

abbrev pub foal_grow_up_duration : ℕ
foal_grow_up_duration = 3600

abbrev pub is_foal : HorseType → Bool
is_foal HorseType.foal = true
is_foal HorseType.adult = false
is_foal HorseType.stallion = false
is_foal HorseType.rent = false

-- std::unordered_map::emplace
abbrev pub emplace : ℕ → ℕ → Map ℕ → Map ℕ
emplace key value entries = if contains key entries then entries else insert key value entries

-- what PromoteMaturedFoals does with a foal that has a record
unfoldable pub promote : (now horse_uid : ℕ) → Horse → Map Horse × Map ℕ → Map Horse × Map ℕ
promote now horse_uid horse (horses, maturing_foals) =
    let grown_up = horse.date_of_birth + foal_grow_up_duration in
    if is_foal horse.type
    then (if leb grown_up now
        then (insert horse_uid (record horse { type = HorseType.adult }) horses, maturing_foals)
        else (horses, emplace horse_uid grown_up maturing_foals))
    else (horses, maturing_foals)

-- the loop of PromoteMaturedFoals
unfoldable pub promote_all : (now : ℕ) → List ℕ → Map Horse × Map ℕ → Map Horse × Map ℕ
promote_all now [] state = state
promote_all now (horse_uid ∷ horse_uids) state =
    let next : Map Horse × Map ℕ = elim (lookup horse_uid state.0) [
      | none ↦ state
      | some horse ↦ promote now horse_uid horse state
    ] in
    promote_all now horse_uids next

-- HorseSystem::PromoteMaturedFoals of a character that is at hand or not
unfoldable pub promote_matured_foals : (now : ℕ) → Option Character → Map Horse → Map Horse × Map ℕ
promote_matured_foals now none horses = (horses, [])
promote_matured_foals now (some character) horses = promote_all now character.horses (horses, [])

-- what RepairLineages does with a horse
unfoldable pub repair_lineage : ℕ → Map Horse → Map Horse × ℕ
repair_lineage horse_uid horses = elim (lookup horse_uid horses) [
  | none ↦ (horses, 0)
  | some horse ↦
      let recalculated = recalculate_lineage horses horse_uid in
      if leb recalculated horse.lineage
      then (horses, 0)
      else (insert horse_uid (record horse { lineage = recalculated }) horses, 1)
]

-- the loop of RepairLineages
unfoldable pub repair_all : List ℕ → Map Horse → Map Horse × ℕ
repair_all [] horses = (horses, 0)
repair_all (horse_uid ∷ horse_uids) horses =
    let (here, repaired) = repair_lineage horse_uid horses in
    let (rest, repaired_count) = repair_all horse_uids here in (rest, repaired + repaired_count)

-- HorseSystem::RepairLineages of a character that is at hand or not
unfoldable pub repair_lineages : Option Character → Map Horse → Map Horse × ℕ
repair_lineages none horses = (horses, 0)
repair_lineages (some character) horses =
    repair_all (character.horses ++ character.mount_uid ∷ []) horses
