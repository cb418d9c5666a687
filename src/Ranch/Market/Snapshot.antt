-- ===== src/Ranch/Market/Snapshot.antt =====
-- BreedingMarket::CollectMarketSnapshot of src/server/ranch/BreedingMarket.cpp: the filter and the
-- comparator. std::ranges::sort itself is not modelled. A set of the filter is a list.
pub mod Selected
pub mod Sorted
use alicia_server.Common.{
  ℕ, ◌+◌, ◌*◌, ◌%◌, ◌^◌, List, [], ◌∷◌, Bool, true, false, not, ◌&&◌, ◌||◌, Option, none, some, ltb,
  leb, ◌==◌, if◌then◌else◌, member, is_some,
}
use alicia_server.Common.Map.{Map, lookup}
use alicia_server.Ranch.Market.{BreedingMarket, Horse, Stallion}

pub data SnapshotOrder : Type 0 where
  lineage_descending time_left_descending fee_descending pregnancy_chance_ascending
        pregnancy_chance_descending fee_ascending time_left_ascending lineage_ascending :
      SnapshotOrder

-- SnapshotFilter::Stat, without None, which is `none` below
pub data Stat : Type 0 where
  agility ambition rush endurance courage : Stat

pub record SnapshotFilter : Type 0 where
  pub grade : ℕ
  pub coats : List ℕ
  pub manes : List ℕ
  pub tails : List ℕ
  pub first_preferred_stat : Option Stat
  pub second_preferred : Option Stat

-- the shapes of the manes and the tails that HorseRegistry has
pub record HorseRegistry : Type 0 where
  pub manes : Map ℕ
  pub tails : Map ℕ

-- HorseRegistry::GetMane and HorseRegistry::GetTail, for the shape
abbrev pub shape_of : Map ℕ → ℕ → ℕ
shape_of shapes tid = elim (lookup tid shapes) [ none ↦ 1 | some shape ↦ shape ]

pub record Registration : Type 0 where
  pub horse_uid : ℕ
  pub stallion_uid : ℕ

abbrev pub is_stat : Stat → Stat → Bool
is_stat agility agility = true
is_stat ambition ambition = true
is_stat rush rush = true
is_stat endurance endurance = true
is_stat courage courage = true
is_stat _ _ = false

abbrev pub is_preferred : Option Stat → Stat → Bool
is_preferred none stat = false
is_preferred (some preferred) stat = is_stat preferred stat

-- totalStats
unfoldable pub total_stats : Horse → ℕ
total_stats horse =
    (horse.agility + horse.courage + horse.rush + horse.endurance + horse.ambition) % 2 ^ 32

-- the lambda statValue
unfoldable pub stat_value : Horse → Stat → ℕ
stat_value horse agility = horse.agility
stat_value horse ambition = horse.ambition
stat_value horse rush = horse.rush
stat_value horse endurance = horse.endurance
stat_value horse courage = horse.courage

-- the lambda requiredSharePercent
unfoldable pub required_share_percent : SnapshotFilter → Stat → ℕ
required_share_percent filter stat =
    (if is_preferred filter.first_preferred_stat stat then 38 else 0)
    + (if is_preferred filter.second_preferred stat then 38 else 0)

-- the lambda meetsShare
unfoldable pub meets_share : SnapshotFilter → Horse → Option Stat → Bool
meets_share filter horse none = true
meets_share filter horse (some stat) =
    leb (required_share_percent filter stat * total_stats horse % 2 ^ 32)
      (stat_value horse stat * 100 % 2 ^ 32)

-- an empty set of the filter lets everything through
abbrev pub lets_through : List ℕ → ℕ → Bool
lets_through [] tid = true
lets_through (x ∷ xs) tid = member tid (x ∷ xs)

-- isMatch
unfoldable pub is_match : HorseRegistry → SnapshotFilter → Horse → Bool
is_match registry filter horse =
    (filter.grade == 0 || horse.grade % 2 ^ 8 == filter.grade)
    && lets_through filter.coats horse.skin_tid
    && lets_through filter.manes (shape_of registry.manes horse.mane_tid)
    && lets_through filter.tails (shape_of registry.tails horse.tail_tid)
    && meets_share filter horse filter.first_preferred_stat
    && meets_share filter horse filter.second_preferred

-- the loop of CollectMarketSnapshot
unfoldable pub select : HorseRegistry → SnapshotFilter → BreedingMarket → Map ℕ → List Registration
select registry filter m [] = []
select registry filter m ((horse_uid, stallion_uid) ∷ registrations) =
    let rest = select registry filter m registrations in
    elim (lookup stallion_uid m.stallions) [
      | none ↦ rest
      | some stallion ↦ elim (lookup horse_uid m.horses) [
        | none ↦ rest
        | some horse ↦
            (if is_match registry filter horse
              then record { horse_uid = horse_uid; stallion_uid = stallion_uid } ∷ rest
              else rest)
      ]
    ]

-- what the comparator compares of two registrations whose records are there
unfoldable pub goes_first : SnapshotOrder → (Horse × Stallion) → (Horse × Stallion) → Bool
goes_first lineage_descending a b = ltb b.0.lineage a.0.lineage
goes_first lineage_ascending a b = ltb a.0.lineage b.0.lineage
goes_first time_left_descending a b = ltb b.1.expires_at a.1.expires_at
goes_first time_left_ascending a b = ltb a.1.expires_at b.1.expires_at
goes_first fee_descending a b = ltb b.1.breeding_charge a.1.breeding_charge
goes_first fee_ascending a b = ltb a.1.breeding_charge b.1.breeding_charge
goes_first pregnancy_chance_descending a b = ltb a.0.breeding_count b.0.breeding_count
goes_first pregnancy_chance_ascending a b = ltb b.0.breeding_count a.0.breeding_count

-- the records of a registration
abbrev pub records_of : BreedingMarket → Registration → Option (Horse × Stallion)
records_of m r = elim (lookup r.horse_uid m.horses) [
  | none ↦ none
  | some horse ↦ elim (lookup r.stallion_uid m.stallions) [
    | none ↦ none
    | some stallion ↦ some (horse, stallion)
  ]
]

-- the comparator of CollectMarketSnapshot
unfoldable pub compares : SnapshotOrder → BreedingMarket → Registration → Registration → Bool
compares order m first second = elim (records_of m first) [
  | none ↦ false
  | some a ↦ elim (records_of m second) [ none ↦ true | some b ↦ goes_first order a b ]
]
