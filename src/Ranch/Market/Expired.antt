-- ===== src/Ranch/Market/Expired.antt =====
-- Which registrations the expiration check of src/server/ranch/BreedingMarket.cpp ends.
use alicia_server.Common.{
  ℕ, ◌≡◌, refl, ◌∙◌, arith, [], ◌∷◌, Bool, false, Option, none, some, if◌then◌else◌,
}
use alicia_server.Common.Map.{Map, lookup, erase, contains, lookup-erase, IsDistinct}
use alicia_server.Ranch.Market.{BreedingMarket}
use alicia_server.Ranch.Market.Ending.{
  unregister_stallion, is_expired, collect_expired, end_each, run_expiration_check,
}
use alicia_server.Ranch.Market.Events.{unregister_stallion_keeps}

-- what stays of a registration, and what is collected
abbrev pub kept_at : ℕ → BreedingMarket → Option ℕ → Option ℕ
kept_at now m none = none
kept_at now m (some stallion_uid) =
    if is_expired now stallion_uid m then none else some stallion_uid

abbrev collected_at : ℕ → BreedingMarket → Option ℕ → Bool
collected_at now m none = false
collected_at now m (some stallion_uid) = is_expired now stallion_uid m

contains-collect_expired :
    (now horse_uid : ℕ) (m : BreedingMarket) (registrations : Map ℕ)
    → IsDistinct registrations
    → contains horse_uid (collect_expired now m registrations)
      ≡ collected_at now m (lookup horse_uid registrations)
unfolding contains lookup collect_expired
contains-collect_expired now horse_uid m [] d = refl
contains-collect_expired now horse_uid m ((k, s) ∷ registrations) d =
    ground (arith, contains-collect_expired now horse_uid m registrations d.1, d.0)

lookup-end_each :
    (taxed : ℕ → ℕ) (now : ℕ) (created : ℕ → Option ℕ) (horse_uid : ℕ) (expired : Map ℕ)
    (m : BreedingMarket)
    → lookup horse_uid (end_each taxed now created expired m).horse_registrations
      ≡ (if contains horse_uid expired then none else lookup horse_uid m.horse_registrations)
unfolding end_each contains lookup
lookup-end_each taxed now created horse_uid [] m = refl
lookup-end_each taxed now created horse_uid ((k, s) ∷ expired) m =
    let ended = unregister_stallion taxed now (created s) k s m in
    let kept = unregister_stallion_keeps taxed now (created s) k s m in
    lookup-end_each taxed now created horse_uid expired
      (record ended { horse_registrations = erase k ended.horse_registrations })
    ∙ rw (kept.1) (ground (arith, lookup-erase k horse_uid m.horse_registrations))

kept_lem :
    (now : ℕ) (m : BreedingMarket) (o : Option ℕ)
    → (if collected_at now m o then none else o) ≡ kept_at now m o
kept_lem now m none = refl
kept_lem now m (some stallion_uid) = refl

-- The expiration check ends exactly the registrations whose stallion record is at hand and has
-- expired, whether or not the record of the horse is; every other registration stays as it is, so
-- that none that is left is known to have expired.
pub lookup-run_expiration_check :
    (taxed : ℕ → ℕ) (now : ℕ) (created : ℕ → Option ℕ) (m : BreedingMarket)
    → IsDistinct m.horse_registrations
    → (horse_uid : ℕ)
    → lookup horse_uid (run_expiration_check taxed now created m).horse_registrations
      ≡ kept_at now m (lookup horse_uid m.horse_registrations)
unfolding run_expiration_check
lookup-run_expiration_check taxed now created m d horse_uid =
    let expired = collect_expired now m m.horse_registrations in
    lookup-end_each taxed now created horse_uid expired m
    ∙ rw (contains-collect_expired now horse_uid m m.horse_registrations d)
        (kept_lem now m (lookup horse_uid m.horse_registrations))
