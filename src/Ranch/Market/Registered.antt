-- ===== src/Ranch/Market/Registered.antt =====
-- What a registration on the market of src/server/ranch/BreedingMarket.cpp takes and leaves.
use alicia_server.Common.{
  ℕ, ◌+◌, ◌-◌, ◌≡◌, ◌≢◌, ◌≤◌, ◌⊎◌, inl, inr, sym, ap, some_eq, ◌∙◌, arith, true, false, none, some,
  leb, member, Bool-cases, Option-cases,
}
use alicia_server.Common.Map.{lookup, insert, contains}
use alicia_server.System.Reward.{invalid_uid}
use alicia_server.Ranch.Market.{
  BreedingMarket, Character, Horse, stallion, GradeFeeRange, market_duration, can_register_stallion,
  calculate_registration_fee, get_grade_fee_range, register_stallion, registrant,
  handle_register_stallion,
}

-- What a registration rests on.
pub record IsAdmitted (character_uid horse_uid breeding_fee : ℕ) (m : BreedingMarket) : Type 0 where
  pub character : Character
  pub horse : Horse
  pub range : GradeFeeRange
  pub character_found : lookup character_uid m.characters ≡ some character
  pub horse_found : lookup horse_uid m.horses ≡ some horse
  pub unregistered : contains horse_uid m.horse_registrations ≡ false
  pub below_limit : can_register_stallion character_uid m ≡ true
  pub owned : member horse_uid character.horses ≡ true
  pub graded : get_grade_fee_range horse.grade ≡ some range
  pub fee_min : range.min ≤ breeding_fee
  pub fee_max : breeding_fee ≤ range.max
  pub affordable : calculate_registration_fee breeding_fee ≤ character.carrots

-- The market with the stallion: the fee is taken, the horse is a stallion, its record and its
-- registration are there, and nothing else is touched.
abbrev pub registered :
    (now created character_uid horse_uid breeding_fee : ℕ)
    → Character
    → Horse
    → BreedingMarket
    → BreedingMarket
registered now created character_uid horse_uid breeding_fee character horse m = record m {
  characters =
      insert character_uid
        (record character { carrots = character.carrots - calculate_registration_fee breeding_fee })
        m.characters;
  horses = insert horse_uid (record horse { type_ = stallion }) m.horses;
  stallions =
      insert created
        record {
          horse_uid = horse_uid;
          owner_uid = character_uid;
          breeding_charge = breeding_fee;
          times_mated = 0;
          registered_at = now;
          expires_at = now + market_duration;
        }
        m.stallions;
  horse_registrations = insert horse_uid created m.horse_registrations;
}

registrant-some :
    (character_uid horse_uid breeding_fee : ℕ) (m : BreedingMarket) (character : Character)
    → registrant character_uid horse_uid breeding_fee m ≡ some character
    → calculate_registration_fee breeding_fee ≤ character.carrots
    → IsAdmitted character_uid horse_uid breeding_fee m
unfolding registrant
registrant-some character_uid horse_uid breeding_fee m character e affordable =
    elim (Option-cases (lookup horse_uid m.horses)) [
      | inl f ↦ ground (arith, e, f)
      | inr (horse, f) ↦ elim (Option-cases (get_grade_fee_range horse.grade)) [
        | inl g ↦ ground (arith, e, f, g)
        | inr (range, g) ↦ record {
          character = character;
          horse = horse;
          range = range;
          character_found = ground (arith, e, f, g);
          horse_found = f;
          unregistered = ground (arith, e, f, g);
          below_limit = ground (arith, e, f, g);
          owned = ground (arith, e, f, g);
          graded = g;
          fee_min = ground (arith, e, f, g);
          fee_max = ground (arith, e, f, g);
          affordable = affordable;
        }
      ]
    ]

registrant-none :
    (character_uid horse_uid breeding_fee : ℕ) (m : BreedingMarket)
    → registrant character_uid horse_uid breeding_fee m ≡ none
    → ¬ IsAdmitted character_uid horse_uid breeding_fee m
unfolding registrant
registrant-none character_uid horse_uid breeding_fee m e a = ground (
  arith, e, a.character_found, a.horse_found, a.unregistered, a.below_limit, a.owned, a.graded,
  a.fee_min, a.fee_max,
)

-- A character is admitted with one record.
registrant-character :
    (character_uid horse_uid breeding_fee : ℕ) (m : BreedingMarket) (character : Character)
    → registrant character_uid horse_uid breeding_fee m ≡ some character
    → lookup character_uid m.characters ≡ some character
unfolding registrant
registrant-character character_uid horse_uid breeding_fee m character e = ground (arith, e)

-- What the handler does with an admitted character, and without one.
handle_register_stallion-some :
    (now created character_uid horse_uid breeding_fee : ℕ) (m : BreedingMarket)
    (character : Character) (horse : Horse)
    → created ≢ invalid_uid
    → registrant character_uid horse_uid breeding_fee m ≡ some character
    → lookup horse_uid m.horses ≡ some horse
    → calculate_registration_fee breeding_fee ≤ character.carrots
    → handle_register_stallion now created character_uid horse_uid breeding_fee m
      ≡ (true, registered now created character_uid horse_uid breeding_fee character horse m)
unfolding handle_register_stallion register_stallion
handle_register_stallion-some now created character_uid horse_uid breeding_fee m character horse
      valid e f g =
    ground (arith, e, f, g, valid)

handle_register_stallion_poor :
    (now created character_uid horse_uid breeding_fee : ℕ) (m : BreedingMarket)
    (character : Character)
    → registrant character_uid horse_uid breeding_fee m ≡ some character
    → leb (calculate_registration_fee breeding_fee) character.carrots ≡ false
    → handle_register_stallion now created character_uid horse_uid breeding_fee m ≡ (false, m)
unfolding handle_register_stallion
handle_register_stallion_poor now created character_uid horse_uid breeding_fee m character e f =
    ground (arith, e, f)

handle_register_stallion-none :
    (now created character_uid horse_uid breeding_fee : ℕ) (m : BreedingMarket)
    → registrant character_uid horse_uid breeding_fee m ≡ none
    → handle_register_stallion now created character_uid horse_uid breeding_fee m ≡ (false, m)
unfolding handle_register_stallion
handle_register_stallion-none now created character_uid horse_uid breeding_fee m e =
    ground (arith, e)

-- When the data director makes a record, a request to register either is refused, for exactly the
-- reasons that IsAdmitted names, and then nothing at all changes; or it is accepted, and then the fee
-- is taken from the character and nothing else is touched than the horse, its stallion record and its
-- registration.
pub handle_register_stallion-cases :
    (now created character_uid horse_uid breeding_fee : ℕ) (m : BreedingMarket)
    → created ≢ invalid_uid
    → let done = handle_register_stallion now created character_uid horse_uid breeding_fee m in
      ((¬ IsAdmitted character_uid horse_uid breeding_fee m) × (done ≡ (false, m)))
      ⊎ ((a : IsAdmitted character_uid horse_uid breeding_fee m) × (done ≡ (
        true,
        registered now created character_uid horse_uid breeding_fee a.character a.horse m,
      )))
handle_register_stallion-cases now created character_uid horse_uid breeding_fee m valid =
    elim (Option-cases (registrant character_uid horse_uid breeding_fee m)) [
      | inl e ↦ inl (
        registrant-none character_uid horse_uid breeding_fee m e,
        handle_register_stallion-none now created character_uid horse_uid breeding_fee m e,
      )
      | inr (character, e) ↦
          let found = registrant-character character_uid horse_uid breeding_fee m character e in
          elim (Bool-cases (leb (calculate_registration_fee breeding_fee) character.carrots)) [
            | inr f ↦ inl (
              λ a. ground (arith, f, a.affordable, a.character_found, found),
              handle_register_stallion_poor now created character_uid horse_uid breeding_fee m
                  character e f,
            )
            | inl f ↦
                let paid : calculate_registration_fee breeding_fee ≤ character.carrots =
                  ground (arith, f) in
                let a = registrant-some character_uid horse_uid breeding_fee m character e paid in
                let same : character ≡ a.character = some_eq (sym found ∙ a.character_found) in
                inr (
                  a,
                  handle_register_stallion-some now created character_uid horse_uid breeding_fee m
                        character a.horse valid e a.horse_found paid
                      ∙ ap
                          (λ (c : Character). (
                            true,
                            registered now created character_uid horse_uid breeding_fee c a.horse m,
                          ))
                          same,
                )
          ]
    ]
