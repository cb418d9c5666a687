-- ===== src/Ranch/Market/Events.antt =====
-- Rows of calls on the market of src/server/ranch/BreedingMarket.cpp.
use alicia_server.Common.{
  ℕ, ◌≡◌, ◌≢◌, ◌⊎◌, inl, inr, refl, arith, List, [], ◌∷◌, true, false, Option, none, some,
  Option-cases,
}
use alicia_server.Common.Map.{Map, erase}
use alicia_server.Ranch.Market.{BreedingMarket, handle_register_stallion}
use alicia_server.Ranch.Market.Registered.{handle_register_stallion-cases}
use alicia_server.Ranch.Market.Limit.{
  IsLimited, registered-IsLimited, fewer-IsLimited, count_registered-erase,
}
use alicia_server.Ranch.Market.Ending.{
  unregistrant, pay_out, unregister_stallion, handle_unregister_stallion, end_each,
  run_expiration_check, collect_expired,
}

pub unregister_stallion_keeps :
    (taxed : ℕ → ℕ) (now : ℕ) (created : Option ℕ) (horse stallion : ℕ) (m : BreedingMarket)
    → let after = unregister_stallion taxed now created horse stallion m in
      (after.characters ≡ m.characters) × (after.horse_registrations ≡ m.horse_registrations)
unfolding unregister_stallion pay_out
unregister_stallion_keeps taxed now created horse stallion m = ground arith

-- Ending a registration is refused, and nothing changes, or the stallion is unregistered.
pub handle_unregister_stallion-cases :
    (taxed : ℕ → ℕ) (now : ℕ) (created : Option ℕ) (c horse : ℕ) (m : BreedingMarket)
    → let done = handle_unregister_stallion taxed now created c horse m in
      ((unregistrant c horse m ≡ none) × (done ≡ (false, m)))
      ⊎ ((stallion : ℕ) × (unregistrant c horse m ≡ some stallion)
          × (done ≡ (
            true,
            record (unregister_stallion taxed now created horse stallion m) {
              horse_registrations = erase horse m.horse_registrations;
            },
          )))
unfolding handle_unregister_stallion
handle_unregister_stallion-cases taxed now created c horse m =
    elim (Option-cases (unregistrant c horse m)) [
      | inl e ↦ inl (e, rw (e, handle_unregister_stallion) refl)
      | inr (stallion, e) ↦ inr (stallion, e, rw (e, handle_unregister_stallion) refl)
    ]

-- What clients and the clock do to the market.
pub data Event : Type 0 where
  registering : (now created character_uid horse_uid breeding_fee : ℕ) → Event
  unregistering : (now : ℕ) → (created : Option ℕ) → (character_uid horse_uid : ℕ) → Event
  checking : (now : ℕ) → (ℕ → Option ℕ) → Event

-- The data director gives a stallion record a uid that is not zero.
abbrev pub AreMade : List Event → Type 0
AreMade [] = Unit
AreMade (registering now created c horse fee ∷ events) = (created ≢ 0) × AreMade events
AreMade (event ∷ events) = AreMade events

module _ (taxed : ℕ → ℕ) where
  unfoldable pub happen : Event → BreedingMarket → BreedingMarket
  happen (registering now created c horse fee) m =
      (handle_register_stallion now created c horse fee m).1
  happen (unregistering now created c horse) m =
      (handle_unregister_stallion taxed now created c horse m).1
  happen (checking now created) m = run_expiration_check taxed now created m

  unfoldable pub happen_all : List Event → BreedingMarket → BreedingMarket
  happen_all [] m = m
  happen_all (event ∷ events) m = happen_all events (happen event m)

  end_each-IsLimited :
      (now : ℕ) (created : ℕ → Option ℕ) (expired : Map ℕ) (m : BreedingMarket)
      → IsLimited m
      → IsLimited (end_each taxed now created expired m)
  unfolding end_each
  end_each-IsLimited now created [] m h = h
  end_each-IsLimited now created ((horse, stallion) ∷ expired) m h =
      let ended = unregister_stallion taxed now (created stallion) horse stallion m in
      let kept = unregister_stallion_keeps taxed now (created stallion) horse stallion m in
      end_each-IsLimited now created expired _ (
        fewer-IsLimited m
          (record ended { horse_registrations = erase horse ended.horse_registrations }) kept.0
          (λ horses. rw (kept.1) (count_registered-erase horse m.horse_registrations horses)) h)

  unregister-IsLimited :
      (now : ℕ) (created : Option ℕ) (c horse : ℕ) (m : BreedingMarket)
      → IsLimited m
      → IsLimited (handle_unregister_stallion taxed now created c horse m).1
  unregister-IsLimited now created c horse m h =
      elim (handle_unregister_stallion-cases taxed now created c horse m) [
        | inl (e, f) ↦ rw (f) h
        | inr (stallion, e, f) ↦
            let ended = unregister_stallion taxed now created horse stallion m in
            let kept = unregister_stallion_keeps taxed now created horse stallion m in
            rw (f) (
              fewer-IsLimited m
                (record ended { horse_registrations = erase horse m.horse_registrations }) kept.0
                (λ horses. count_registered-erase horse m.horse_registrations horses) h)
      ]

  register-IsLimited :
      (now created c horse fee : ℕ) (m : BreedingMarket)
      → created ≢ 0
      → IsLimited m
      → IsLimited (handle_register_stallion now created c horse fee m).1
  register-IsLimited now created c horse fee m made h =
      elim (handle_register_stallion-cases now created c horse fee m made) [
        | inl (f, e) ↦ rw (e) h
        | inr (a, e) ↦ rw (e) (registered-IsLimited now created c horse fee m a h)
      ]

  -- No row of registrations, cancellations and expirations gives a character more than three stallions
  -- on the market, when it begins with no more and every horse stands once, in the list of one
  -- character.
  pub happen_all-IsLimited :
      (events : List Event) (m : BreedingMarket)
      → AreMade events
      → IsLimited m
      → IsLimited (happen_all events m)
  unfolding happen_all happen run_expiration_check
  happen_all-IsLimited [] m made h = h
  happen_all-IsLimited (registering now created c horse fee ∷ events) m made h =
      happen_all-IsLimited events _ made.1 (register-IsLimited now created c horse fee m made.0 h)
  happen_all-IsLimited (unregistering now created c horse ∷ events) m made h =
      happen_all-IsLimited events _ made (unregister-IsLimited now created c horse m h)
  happen_all-IsLimited (checking now created ∷ events) m made h =
      happen_all-IsLimited events _ made
        (end_each-IsLimited now created (collect_expired now m m.horse_registrations) m h)
