-- ===== src/Ranch/Market/Tests.antt =====
-- The market of stallions at concrete inputs.
use alicia_server.Common.{
  ℕ, ◌+◌, ◌/◌, ◌≡◌, ◌⊎◌, inl, inr, refl, arith, List, [], ◌∷◌, true, false, none, some, eq-cases,
  some_eq,
}
use alicia_server.Common.Map.{lookup, contains}
use alicia_server.Ranch.Market.{BreedingMarket, Horse, Character, adult, handle_register_stallion}
use alicia_server.Ranch.Market.Ending.{run_expiration_check}
use alicia_server.Ranch.Market.Registered.{IsAdmitted, registered, handle_register_stallion-cases}
use alicia_server.Ranch.Market.Limit.{IsLimited, count_registered}
use alicia_server.Ranch.Market.Events.{
  Event, registering, unregistering, checking, happen_all, happen_all-IsLimited,
}
use alicia_server.Ranch.Market.Expired.{kept_at, lookup-run_expiration_check}

abbrev mare : Horse
mare = record {
  type_ = adult;
  grade = 4;
  lineage = 1;
  breeding_count = 0;
  skin_tid = 1;
  mane_tid = 2;
  tail_tid = 3;
  agility = 10;
  courage = 10;
  rush = 80;
  endurance = 0;
  ambition = 0;
}

abbrev owner : Character
owner = record { carrots = 10000; horses = 11 ∷ 12 ∷ [] }

-- One character with two horses, the first of them on the market and mated twice.
abbrev market : BreedingMarket
market = record {
  horse_registrations = (11, 91) ∷ [];
  characters = (1, owner) ∷ [];
  horses = (11, mare) ∷ (12, mare) ∷ [];
  stallions =
      (
        91,
        record {
          horse_uid = 11;
          owner_uid = 1;
          breeding_charge = 5000;
          times_mated = 2;
          registered_at = 0;
          expires_at = 100;
        },
      )
      ∷ [];
  deletions = [];
  rewards = [];
  letters = [];
}

abbrev fifth : ℕ → ℕ
fifth revenue = revenue / 5

the_owner : (c : ℕ) (o : Character) → lookup c market.characters ≡ some o → (c ≡ 1) × (owner ≡ o)
unfolding lookup
the_owner c o e = elim (eq-cases 1 c) [
  | inl i ↦ (ground (arith, i), some_eq (ground (arith, i, e)))
  | inr ne ↦ ground (arith, ne, e)
]

market-IsLimited : IsLimited market
unfolding contains count_registered lookup
market-IsLimited = record {
  limited = λ c o e. rw⁻¹ ((the_owner c o e).1) (omega arith);
  set_like = λ c o e. rw⁻¹ ((the_owner c o e).1) (refl, (refl, tt));
  apart = λ c d horse o other e f ne i.
      absurd (ne (ground (arith, (the_owner c o e).0, (the_owner d other f).0)));
}

handle_register_stallion-cases_example :
    let done = handle_register_stallion 5 92 1 12 6001 market in
    ((¬ IsAdmitted 1 12 6001 market) × (done ≡ (false, market)))
    ⊎ ((a : IsAdmitted 1 12 6001 market) × (done
          ≡ (true, registered 5 92 1 12 6001 a.character a.horse market)))
handle_register_stallion-cases_example =
    handle_register_stallion-cases 5 92 1 12 6001 market (λ e. absurd (omega (arith, e)))

abbrev events : List Event
events =
    registering 5 92 1 12 6001
    ∷ checking 101 (λ uid. some (uid + 1000))
    ∷ unregistering 102 none 1 12
    ∷ []

happen_all-IsLimited_example : IsLimited (happen_all fifth events market)
happen_all-IsLimited_example =
    happen_all-IsLimited fifth events market ((λ e. absurd (omega (arith, e))), tt) market-IsLimited

lookup-run_expiration_check_example :
    lookup 11 (run_expiration_check fifth 101 (λ uid. some uid) market).horse_registrations
    ≡ kept_at 101 market (some 91)
unfolding lookup contains
lookup-run_expiration_check_example =
    lookup-run_expiration_check fifth 101 (λ uid. some uid) market (refl, tt) 11
