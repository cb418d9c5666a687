-- ===== src/Ranch/Market.antt =====
-- The stallions of BreedingMarket, in src/server/ranch/BreedingMarket.cpp.
--
-- The records of the data director are maps by uid: a record that is not there is one that the
-- director does not have at hand. A call finds the same records from its beginning to its end. A
-- stallion record whose deletion was asked for stays until the director deletes it. A fee and the
-- carrots of a character are not negative here; a negative fee is below every range. `letters` are
-- the letters that the messenger was asked for, without their text.
pub mod Ending
pub mod Registered
pub mod Limit
pub mod Events
pub mod Paid
pub mod Expired
pub mod Snapshot
mod Tests
use alicia_server.Common.{
  ℕ, ◌+◌, ◌-◌, ◌*◌, ◌/◌, ◌%◌, ◌^◌, List, [], ◌∷◌, ◌++◌, Bool, true, false, ◌||◌, Option, none, some,
  ltb, leb, ◌==◌, if◌then◌else◌, member,
}
use alicia_server.Common.Map.{Map, lookup, insert, erase, contains}
use alicia_server.System.Reward.{Reward, RewardType, breeding, Records, create_reward, invalid_uid}

-- data::Horse::Type
pub data HorseType : Type 0 where
  adult foal stallion rent : HorseType

-- the fields of data::Horse that the market reads
pub record Horse : Type 0 where
  pub type_ : HorseType
  pub grade : ℕ
  pub lineage : ℕ
  pub breeding_count : ℕ
  pub skin_tid : ℕ
  pub mane_tid : ℕ
  pub tail_tid : ℕ
  pub agility : ℕ
  pub courage : ℕ
  pub rush : ℕ
  pub endurance : ℕ
  pub ambition : ℕ

-- the fields of data::Character that the market reads
pub record Character : Type 0 where
  pub carrots : ℕ
  pub horses : List ℕ

-- data::Stallion
pub record Stallion : Type 0 where
  pub horse_uid : ℕ
  pub owner_uid : ℕ
  pub breeding_charge : ℕ
  pub times_mated : ℕ
  pub registered_at : ℕ
  pub expires_at : ℕ

pub record Earnings : Type 0 where
  pub times_mated : ℕ
  pub revenue : ℕ
  pub breeding_fee : ℕ
  pub earnings : ℕ
  pub claim_uid : ℕ

pub record GradeFeeRange : Type 0 where
  pub min : ℕ
  pub max : ℕ

pub record StallionData : Type 0 where
  pub stallion_uid : ℕ
  pub breeding_charge : ℕ

pub record Letter : Type 0 where
  pub character_uid : ℕ
  pub horse_uid : ℕ
  pub earnings : Earnings

-- the registrations, with the records that a call reaches
pub record BreedingMarket : Type 0 where
  pub horse_registrations : Map ℕ
  pub characters : Map Character
  pub horses : Map Horse
  pub stallions : Map Stallion
  pub deletions : List ℕ
  pub rewards : Map Reward
  pub letters : List Letter

abbrev pub max_stallions_per_character : ℕ
max_stallions_per_character = 3

-- MarketDuration, in nanoseconds
abbrev pub market_duration : ℕ
market_duration = 24 * 3600 * 1000000000

-- the loop of CanRegisterStallion
unfoldable pub is_below_limit : Map ℕ → ℕ → List ℕ → Bool
is_below_limit registrations count [] = ltb count max_stallions_per_character
is_below_limit registrations count (horse_uid ∷ horse_uids) =
    let counted = is_below_limit registrations (count + 1) horse_uids in
    let skipped = is_below_limit registrations count horse_uids in
    if contains horse_uid registrations
    then (if leb max_stallions_per_character (count + 1) then false else counted)
    else skipped

-- BreedingMarket::CanRegisterStallion
unfoldable pub can_register_stallion : ℕ → BreedingMarket → Bool
can_register_stallion character_uid m = elim (lookup character_uid m.characters) [
  | none ↦ false
  | some character ↦ is_below_limit m.horse_registrations 0 character.horses
]

-- BreedingMarket::CalculateRegistrationFee: half of the fee, rounded up. Single-precision numbers
-- hold a fee below 2 ^ 24 and its half exactly.
unfoldable pub calculate_registration_fee : ℕ → ℕ
calculate_registration_fee breeding_fee = (breeding_fee + 1) / 2

-- BreedingMarket::GetGradeFeeRange
unfoldable pub get_grade_fee_range : ℕ → Option GradeFeeRange
get_grade_fee_range grade =
    if grade == 4
    then some (record { min = 4000; max = 12000 })
    else (if grade == 5
        then some (record { min = 5000; max = 15000 })
        else (if grade == 6
            then some (record { min = 6000; max = 18000 })
            else (if grade == 7
                then some (record { min = 8000; max = 24000 })
                else (if grade == 8 then some (record { min = 10000; max = 40000 }) else none))))

-- BreedingMarket::RegisterStallion; `created` is the uid of the record that the data director makes
unfoldable pub register_stallion :
    (now created character_uid horse_uid breeding_fee : ℕ) → BreedingMarket → ℕ × BreedingMarket
register_stallion now created character_uid horse_uid breeding_fee m =
    elim (lookup horse_uid m.horses) [
      | none ↦ (invalid_uid, m)
      | some horse ↦ (
        created,
        record m {
          horses = insert horse_uid (record horse { type_ = stallion }) m.horses;
          stallions =
              insert created
                record {
                  horse_uid = horse_uid;
                  owner_uid = character_uid;
                  breeding_charge = breeding_fee;
                  times_mated = 0;
                  registered_at = now;
                  expires_at = now + market_duration;
                }
                m.stallions;
        },
      )
    ]

-- the tests of BreedingMarket::HandleRegisterStallion before the funds: the character, when the
-- stallion may be registered for the fee
unfoldable pub registrant :
    (character_uid horse_uid breeding_fee : ℕ) → BreedingMarket → Option Character
registrant character_uid horse_uid breeding_fee m =
    if contains horse_uid m.horse_registrations
    then none
    else (if can_register_stallion character_uid m
        then elim (lookup horse_uid m.horses) [
          | none ↦ none
          | some horse ↦ elim (lookup character_uid m.characters) [
            | none ↦ none
            | some character ↦
                (if member horse_uid character.horses
                  then elim (get_grade_fee_range horse.grade) [
                    | none ↦ none
                    | some range ↦
                        (if ltb breeding_fee range.min || ltb range.max breeding_fee
                          then none
                          else some character)
                  ]
                  else none)
          ]
        ]
        else none)

-- BreedingMarket::HandleRegisterStallion
unfoldable pub handle_register_stallion :
    (now created character_uid horse_uid breeding_fee : ℕ) → BreedingMarket → Bool × BreedingMarket
handle_register_stallion now created character_uid horse_uid breeding_fee m =
    elim (registrant character_uid horse_uid breeding_fee m) [
      | none ↦ (false, m)
      | some character ↦
          let registration_fee = calculate_registration_fee breeding_fee in
          let paid = record m {
            characters =
                insert character_uid
                  (record character { carrots = character.carrots - registration_fee })
                  m.characters;
          } in
          let registered =
            register_stallion now created character_uid horse_uid breeding_fee paid in
          (if leb registration_fee character.carrots
            then (if registered.0 == invalid_uid then (false, registered.1) else (
              true,
              record (registered.1) {
                horse_registrations = insert horse_uid registered.0 m.horse_registrations;
              },
            ))
            else (false, m))
    ]

-- BreedingMarket::IsRegistered
unfoldable pub is_registered : ℕ → BreedingMarket → Bool
is_registered horse_uid m = contains horse_uid m.horse_registrations
