-- ===== src/System/Reward.antt =====
-- RewardSystem of src/server/system/RewardSystem.cpp, with the fields of data::Reward in
-- include/libserver/data/DataDefinitions.hpp.
--
-- The records of the data director that a call reaches are maps by uid: a record that is not there is
-- one that the director does not have at hand, and `carrots` holds the balances of the characters. A
-- balance is a signed 32-bit number in the source, a number that wraps at 32 bits here.
pub mod Claims
use alicia_server.Common.{
  ℕ, ◌+◌, ◌%◌, ◌^◌, Bool, true, false, not, ◌&&◌, ◌||◌, Option, none, some, [], ltb, ◌==◌,
  if◌then◌else◌,
}
use alicia_server.Common.Map.{Map, lookup, insert}

-- data::Reward::Type
pub data RewardType : Type 0 where
  breeding carnival : RewardType

pub record Reward : Type 0 where
  pub character_uid : ℕ
  pub type_ : RewardType
  pub carrots : ℕ
  pub is_claimed : Bool
  pub created_at : ℕ
  pub claimed_at : ℕ

pub record Records : Type 0 where
  pub rewards : Map Reward
  pub carrots : Map ℕ

abbrev pub invalid_uid : ℕ
invalid_uid = 0

-- RewardSystem::CreateReward; `created` is the claim uid of the record that the data director made, if
-- it did.
unfoldable pub create_reward :
    (now : ℕ) (created : Option ℕ) (character_uid : ℕ)
    → RewardType
    → (carrots : ℕ) → Records
    → ℕ × Records
create_reward now none uid kind carrots s = (invalid_uid, s)
create_reward now (some claim_uid) uid kind carrots s =
    let reward : Reward = record {
      character_uid = uid;
      type_ = kind;
      carrots = carrots;
      is_claimed = false;
      created_at = now;
      claimed_at = 0;
    } in
    (claim_uid, record s { rewards = insert claim_uid reward s.rewards })

-- the grant of the carrots: none where the character's record is not there
unfoldable pub grant : (carrots character_uid : ℕ) → Map ℕ → Option (Map ℕ)
grant carrots uid balances =
    if ltb 0 carrots
    then elim (lookup uid balances) [
      | none ↦ none
      | some balance ↦ some (insert uid ((balance + carrots) % 2 ^ 32) balances)
    ]
    else some balances

-- RewardSystem::ClaimReward
unfoldable pub claim_reward : (now claim_uid character_uid : ℕ) → Records → Bool × Records
claim_reward now claim_uid uid s =
    if claim_uid == invalid_uid || uid == invalid_uid
    then (false, s)
    else elim (lookup claim_uid s.rewards) [
      | none ↦ (false, s)
      | some reward ↦
          (if reward.is_claimed || not (reward.character_uid == uid)
            then (false, s)
            else elim (grant reward.carrots uid s.carrots) [
              | none ↦ (false, s)
              | some balances ↦ (
                true,
                record {
                  rewards =
                      insert claim_uid (record reward { is_claimed = true; claimed_at = now })
                        s.rewards;
                  carrots = balances;
                },
              )
            ])
    ]
