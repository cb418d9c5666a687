-- ===== src/Ranch/Market/Paid.antt =====
-- What the end of a registration pays, in src/server/ranch/BreedingMarket.cpp.
use alicia_server.Common.{ℕ, ◌+◌, ◌≡◌, ◌≤◌, ◌⊎◌, false, some}
use alicia_server.Common.Map.{Map, lookup}
use alicia_server.System.Reward.{Reward}
use alicia_server.Ranch.Market.{Stallion}
use alicia_server.Ranch.Market.Ending.{gross}

-- The tax is no more than the revenue.
abbrev pub IsTax : (ℕ → ℕ) → Type 0
IsTax taxed = (revenue : ℕ) → taxed revenue ≤ revenue

-- What the end of a registration gives: no reward for a horse that was never mated, else one for the
-- owner, unclaimed, with the tax as the only difference to the revenue.
abbrev pub Pays : (ℕ → ℕ) → (claim : ℕ) → Stallion → Map Reward → Map Reward → Type 0
Pays taxed claim s before after =
    ((s.times_mated ≡ 0) × (after ≡ before))
    ⊎ ((reward : Reward) × (lookup claim after ≡ some reward)
        × (reward.character_uid ≡ s.owner_uid)
        × (reward.is_claimed ≡ false)
        × (reward.carrots + taxed (gross s).revenue ≡ (gross s).revenue))
