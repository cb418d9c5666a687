-- ===== src/Ranch/Market/Ending.antt =====
-- How a registration ends in src/server/ranch/BreedingMarket.cpp: by its owner or by its time.
--
-- `taxed` is the tax on a revenue, `static_cast<uint32_t>(static_cast<float>(revenue) * taxRate)`, as
-- a function: single-precision numbers are left out.
use alicia_server.Common.{
  ℕ, ◌+◌, ◌-◌, ◌*◌, ◌%◌, ◌^◌, [], ◌∷◌, ◌++◌, Bool, true, false, Option, none, some, ltb,
  if◌then◌else◌, member,
}
use alicia_server.Common.Map.{Map, lookup, insert, erase, contains}
use alicia_server.System.Reward.{breeding, create_reward, invalid_uid}
use alicia_server.Ranch.Market.{BreedingMarket, adult, Stallion, StallionData, Earnings, Letter}

-- What CalculateUnregisterEarnings and UnregisterStallion take from the stallion record.
unfoldable pub gross : Stallion → Earnings
gross s = record {
  times_mated = s.times_mated;
  revenue = s.times_mated * s.breeding_charge % 2 ^ 32;
  breeding_fee = s.breeding_charge;
  earnings = 0;
  claim_uid = invalid_uid;
}

-- BreedingMarket::CalculateUnregisterEarnings
unfoldable pub calculate_unregister_earnings : ℕ → BreedingMarket → Option Earnings
calculate_unregister_earnings horse_uid m = elim (lookup horse_uid m.horse_registrations) [
  | none ↦ none
  | some stallion_uid ↦ elim (lookup stallion_uid m.stallions) [
    | none ↦ none
    | some stallion ↦ elim (lookup horse_uid m.horses) [
      | none ↦ none
      | some horse ↦ some (gross stallion)
    ]
  ]
]

-- BreedingMarket::GetStallionData
unfoldable pub get_stallion_data : ℕ → BreedingMarket → Option StallionData
get_stallion_data horse_uid m = elim (lookup horse_uid m.horse_registrations) [
  | none ↦ none
  | some stallion_uid ↦ elim (lookup stallion_uid m.stallions) [
    | none ↦ none
    | some stallion ↦
        some (record { stallion_uid = stallion_uid; breeding_charge = stallion.breeding_charge })
  ]
]

-- the payout of BreedingMarket::UnregisterStallion: the reward, when the horse was mated, and the
-- letter. The messenger throws where the character's record is not there, and then there is no letter.
unfoldable pub pay_out :
    (ℕ → ℕ)
    → (now : ℕ) → (created : Option ℕ) → (horse_uid : ℕ) → Stallion
    → BreedingMarket
    → BreedingMarket
pay_out taxed now created horse_uid stallion m =
    let earned = gross stallion in
    let net = (earned.revenue + 2 ^ 32 - taxed earned.revenue) % 2 ^ 32 in
    let rewarded =
      if ltb 0 earned.times_mated
      then create_reward now created stallion.owner_uid breeding net
          (record { rewards = m.rewards; carrots = [] })
      else (invalid_uid, record { rewards = m.rewards; carrots = [] }) in
    let letter : Letter = record {
      character_uid = stallion.owner_uid;
      horse_uid = horse_uid;
      earnings = record earned { earnings = net; claim_uid = rewarded.0 };
    } in
    record m {
      rewards = rewarded.1.rewards;
      letters =
          if contains stallion.owner_uid m.characters then m.letters ++ letter ∷ [] else m.letters;
    }

-- BreedingMarket::UnregisterStallion
unfoldable pub unregister_stallion :
    (ℕ → ℕ)
    → (now : ℕ) → (created : Option ℕ) → (horse_uid stallion_uid : ℕ) → BreedingMarket
    → BreedingMarket
unregister_stallion taxed now created horse_uid stallion_uid m =
    elim (lookup stallion_uid m.stallions) [
      | none ↦ m
      | some stallion ↦ elim (lookup horse_uid m.horses) [
        | none ↦ m
        | some horse ↦ record (pay_out taxed now created horse_uid stallion m) {
          horses = insert horse_uid (record horse { type_ = adult }) m.horses;
          deletions = stallion_uid ∷ m.deletions;
        }
      ]
    ]

-- the tests of BreedingMarket::HandleUnregisterStallion: the stallion's uid, when the character may
-- end its registration
unfoldable pub unregistrant : (character_uid horse_uid : ℕ) → BreedingMarket → Option ℕ
unregistrant character_uid horse_uid m = elim (lookup horse_uid m.horse_registrations) [
  | none ↦ none
  | some stallion_uid ↦ elim (lookup character_uid m.characters) [
    | none ↦ none
    | some character ↦
        (if contains stallion_uid m.stallions
          then (if contains horse_uid m.horses
              then (if member horse_uid character.horses then some stallion_uid else none)
              else none)
          else none)
  ]
]

-- BreedingMarket::HandleUnregisterStallion
unfoldable pub handle_unregister_stallion :
    (ℕ → ℕ)
    → (now : ℕ) → (created : Option ℕ) → (character_uid horse_uid : ℕ) → BreedingMarket
    → Bool × BreedingMarket
handle_unregister_stallion taxed now created character_uid horse_uid m =
    elim (unregistrant character_uid horse_uid m) [
      | none ↦ (false, m)
      | some stallion_uid ↦
          let ended = unregister_stallion taxed now created horse_uid stallion_uid m in
          (true, record ended { horse_registrations = erase horse_uid m.horse_registrations })
    ]

-- whether BreedingMarket::RunExpirationCheck collects a registration
unfoldable pub is_expired : (now stallion_uid : ℕ) → BreedingMarket → Bool
is_expired now stallion_uid m = elim (lookup stallion_uid m.stallions) [
  | none ↦ false
  | some stallion ↦ ltb stallion.expires_at now
]

-- the first loop of BreedingMarket::RunExpirationCheck
unfoldable pub collect_expired : ℕ → BreedingMarket → Map ℕ → Map ℕ
collect_expired now m [] = []
collect_expired now m ((horse_uid, stallion_uid) ∷ registrations) =
    let rest = collect_expired now m registrations in
    if is_expired now stallion_uid m then (horse_uid, stallion_uid) ∷ rest else rest

-- the second loop of BreedingMarket::RunExpirationCheck; `created` gives the uids of the rewards
unfoldable pub end_each : (ℕ → ℕ) → ℕ → (ℕ → Option ℕ) → Map ℕ → BreedingMarket → BreedingMarket
end_each taxed now created [] m = m
end_each taxed now created ((horse_uid, stallion_uid) ∷ expired) m =
    let ended = unregister_stallion taxed now (created stallion_uid) horse_uid stallion_uid m in
    end_each taxed now created expired
      (record ended { horse_registrations = erase horse_uid ended.horse_registrations })

-- BreedingMarket::RunExpirationCheck
unfoldable pub run_expiration_check : (ℕ → ℕ) → ℕ → (ℕ → Option ℕ) → BreedingMarket → BreedingMarket
run_expiration_check taxed now created m =
    end_each taxed now created (collect_expired now m m.horse_registrations) m
