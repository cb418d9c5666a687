-- ===== src/Ranch/Market/Snapshot/Selected.antt =====
-- Which registrations CollectMarketSnapshot of src/server/ranch/BreedingMarket.cpp selects.
use alicia_server.Common.{
  ℕ, ◌≡◌, ◌⊎◌, ◌↔◌, refl, sym, ◌∙◌, inl, inr, arith, true, some, Option-cases, some_eq, ap, List,
  [], ◌∷◌, Among, Bool-cases,
}
use mathlib.Core.Path.{subst}
use alicia_server.Common.Map.{Map, lookup}
use alicia_server.Ranch.Market.{BreedingMarket, Horse, Stallion}
use alicia_server.Ranch.Market.Snapshot.{
  HorseRegistry, SnapshotFilter, Registration, is_match, select,
}

-- A registration that the filter lets through, with its records at hand.
abbrev pub IsSelected : HorseRegistry → SnapshotFilter → BreedingMarket → Registration → Type 0
IsSelected registry filter m r =
    (horse : Horse) × (lookup r.horse_uid m.horses ≡ some horse)
    × (is_match registry filter horse ≡ true)
    × ((stallion : Stallion) × (lookup r.stallion_uid m.stallions ≡ some stallion))

module _ (registry : HorseRegistry) (filter : SnapshotFilter) (m : BreedingMarket) where
  -- a registration in front is taken exactly when it is selected
  select-cases :
      (horse_uid stallion_uid : ℕ) (registrations : Map ℕ)
      → let r : Registration = record { horse_uid = horse_uid; stallion_uid = stallion_uid } in
        let all = select registry filter m ((horse_uid, stallion_uid) ∷ registrations) in
        ((¬ IsSelected registry filter m r) × (all ≡ select registry filter m registrations))
        ⊎ (IsSelected registry filter m r × (all ≡ r ∷ select registry filter m registrations))
  unfolding select
  select-cases horse_uid stallion_uid registrations =
      elim (Option-cases (lookup stallion_uid m.stallions)) [
        | inl e ↦ inl (λ (horse, f, g, (stallion, k)). ground (arith, e, k), rw (e, select) refl)
        | inr (s, e) ↦ elim (Option-cases (lookup horse_uid m.horses)) [
          | inl f ↦ inl (λ (horse, k, g, t). ground (arith, f, k), rw (e, select) (rw (f) refl))
          | inr (h, f) ↦ elim (Bool-cases (is_match registry filter h)) [
            | inl g ↦ inr ((h, f, g, (s, e)), rw (e, select) (rw (f) (rw (g) refl)))
            | inr g ↦ inl (
              λ (horse, k, t, u).
                  let same : h ≡ horse = some_eq (sym f ∙ k) in
                  let t2 : is_match registry filter h ≡ true = rw (same) t in ground (arith, g, t2),
              rw (e, select) (rw (f) (rw (g) refl)),
            )
          ]
        ]
      ]

  select_sound :
      (r : Registration) (registrations : Map ℕ)
      → Among r (select registry filter m registrations)
      → Among (r.horse_uid, r.stallion_uid) registrations × IsSelected registry filter m r
  unfolding select
  select_sound r [] h = absurd h
  select_sound r ((horse_uid, stallion_uid) ∷ registrations) h =
      elim (select-cases horse_uid stallion_uid registrations) [
        | inl (f, e) ↦
            let inner : Among r (select registry filter m registrations) = rw⁻¹ e h in
            let rest = select_sound r registrations inner in (inr rest.0, rest.1)
        | inr (f, e) ↦
            let inner : Among r (
                record { horse_uid = horse_uid; stallion_uid = stallion_uid }
                ∷ select registry filter m registrations) =
              subst (λ (l : List Registration). Among r l) e h in
            elim inner [
              | inl same ↦ rw (same) (inl refl, f)
              | inr there ↦ let rest = select_sound r registrations there in (inr rest.0, rest.1)
            ]
      ]

  select_complete :
      (r : Registration) (registrations : Map ℕ)
      → Among (r.horse_uid, r.stallion_uid) registrations
      → IsSelected registry filter m r
      → Among r (select registry filter m registrations)
  select_complete r [] h selected = absurd h
  select_complete r ((horse_uid, stallion_uid) ∷ registrations) h selected =
      elim (select-cases horse_uid stallion_uid registrations) [
        | inl (f, e) ↦ rw (e) (elim h [
          | inl same ↦ absurd (
              f (
                let one : r.horse_uid ≡ horse_uid = ap (λ (p : ℕ × ℕ). p.0) same in
                let two : r.stallion_uid ≡ stallion_uid = ap (λ (p : ℕ × ℕ). p.1) same in
                rw (sym one) (rw (sym two) selected)))
          | inr there ↦ select_complete r registrations there selected
        ])
        | inr (f, e) ↦ rw (e) (elim h [
          | inl same ↦ inl (
              ap
                (λ (p : ℕ × ℕ).
                  let made : Registration = record { horse_uid = p.0; stallion_uid = p.1 } in made)
                same)
          | inr there ↦ inr (select_complete r registrations there selected)
        ])
      ]

  -- A registration is in the snapshot exactly when it is on the market, its stallion record and its
  -- horse record are at hand, and the horse matches the filter.
  pub select-Among :
      (r : Registration) (registrations : Map ℕ)
      → Among r (select registry filter m registrations)
        ↔ (Among (r.horse_uid, r.stallion_uid) registrations × IsSelected registry filter m r)
  select-Among r registrations =
      (select_sound r registrations, λ both. select_complete r registrations both.0 both.1)
