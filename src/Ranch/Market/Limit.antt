-- ===== src/Ranch/Market/Limit.antt =====
-- How many stallions a character has on the market of src/server/ranch/BreedingMarket.cpp.
use alicia_server.Common.{
  ◌-◌, ℕ, suc, ◌+◌, ◌≡◌, ◌≢◌, ◌≤◌, inl, inr, refl, sym, arith, List, [], ◌∷◌, true, false, some,
  ltb, if◌then◌else◌, member, IsSetLike, eq-cases,
}
use alicia_server.Common.Map.{
  Map, lookup, insert, erase, contains, lookup-insert, lookup-erase, contains-insert,
}
use alicia_server.Ranch.Market.{
  BreedingMarket, Character, is_below_limit, can_register_stallion, calculate_registration_fee,
}
use alicia_server.Ranch.Market.Registered.{IsAdmitted, registered}

-- how many of the horses are registered
unfoldable pub count_registered : Map ℕ → List ℕ → ℕ
count_registered registrations [] = 0
count_registered registrations (horse_uid ∷ horse_uids) =
    let rest = count_registered registrations horse_uids in
    if contains horse_uid registrations then suc rest else rest

-- The loop with its early return tests the count.
is_below_limit_lem :
    (registrations : Map ℕ) (count : ℕ) (horse_uids : List ℕ)
    → is_below_limit registrations count horse_uids
      ≡ ltb (count + count_registered registrations horse_uids) 3
unfolding is_below_limit count_registered
is_below_limit_lem registrations count [] = ground arith
is_below_limit_lem registrations count (h ∷ hs) = ground (
  arith,
  is_below_limit_lem registrations (count + 1) hs,
  is_below_limit_lem registrations count hs,
)

-- Another horse is registered.
count_registered-insert_other :
    (horse stallion : ℕ) (registrations : Map ℕ) (horse_uids : List ℕ)
    → member horse horse_uids ≡ false
    → count_registered (insert horse stallion registrations) horse_uids
      ≡ count_registered registrations horse_uids
unfolding count_registered
count_registered-insert_other horse stallion registrations [] h = refl
count_registered-insert_other horse stallion registrations (k ∷ hs) h = ground (
  arith,
  count_registered-insert_other horse stallion registrations hs,
  contains-insert horse k stallion registrations,
)

-- A horse that is named once adds at most one.
count_registered-insert :
    (horse stallion : ℕ) (registrations : Map ℕ) (horse_uids : List ℕ)
    → IsSetLike horse_uids
    → count_registered (insert horse stallion registrations) horse_uids
      ≤ suc (count_registered registrations horse_uids)
unfolding count_registered
count_registered-insert horse stallion registrations [] d = omega arith
count_registered-insert horse stallion registrations (k ∷ hs) d = elim (eq-cases horse k) [
  | inl e ↦ ground (
    arith,
    count_registered-insert_other horse stallion registrations hs (rw (e) d.0),
    contains-insert horse k stallion registrations,
  )
  | inr ne ↦ ground (
    arith,
    count_registered-insert horse stallion registrations hs d.1,
    contains-insert horse k stallion registrations,
    ne,
  )
]

pub count_registered-erase :
    (horse : ℕ) (registrations : Map ℕ) (horse_uids : List ℕ)
    → count_registered (erase horse registrations) horse_uids
      ≤ count_registered registrations horse_uids
unfolding count_registered contains
count_registered-erase horse registrations [] = omega arith
count_registered-erase horse registrations (k ∷ hs) =
    ground
      (arith, count_registered-erase horse registrations hs, lookup-erase horse k registrations)

-- Every character has at most three stallions; a horse stands once in the list of one character.
pub record IsLimited (m : BreedingMarket) : Type 0 where
  pub limited :
      (c : ℕ) (owner : Character)
      → lookup c m.characters ≡ some owner
      → count_registered m.horse_registrations owner.horses ≤ 3
  pub set_like :
      (c : ℕ) (owner : Character) → lookup c m.characters ≡ some owner → IsSetLike owner.horses
  pub apart :
      (c d horse : ℕ) (owner other : Character)
      → lookup c m.characters ≡ some owner
      → lookup d m.characters ≡ some other
      → c ≢ d
      → member horse owner.horses ≡ true
      → member horse other.horses ≡ false

-- The records of the characters keep their horses.
old_owner :
    (c d : ℕ) (paid owner other : Character) (m : Map Character)
    → lookup c m ≡ some owner
    → paid.horses ≡ owner.horses
    → lookup d (insert c paid m) ≡ some other
    → (old : Character) × (lookup d m ≡ some old) × (old.horses ≡ other.horses)
old_owner c d paid owner other m e same f = elim (eq-cases c d) [
  | inl i ↦ (owner, rw (sym i) e, ground (arith, same, f, i, lookup-insert c d paid m))
  | inr ne ↦ (other, ground (arith, f, ne, lookup-insert c d paid m), refl)
]

-- A character who may register a stallion has less than three.
below_limit_lem :
    (c : ℕ) (m : BreedingMarket) (owner : Character)
    → can_register_stallion c m ≡ true
    → lookup c m.characters ≡ some owner
    → count_registered m.horse_registrations owner.horses ≤ 2
unfolding can_register_stallion
below_limit_lem c m owner e f =
    ground (arith, e, f, is_below_limit_lem m.horse_registrations 0 owner.horses)

pub registered-IsLimited :
    (now created c horse fee : ℕ) (m : BreedingMarket) (a : IsAdmitted c horse fee m)
    → IsLimited m
    → IsLimited (registered now created c horse fee a.character a.horse m)
registered-IsLimited now created c horse fee m a h =
    let paid : Character = record (a.character) {
      carrots = a.character.carrots - calculate_registration_fee fee;
    } in
    record {
      limited = λ d other e.
          let (old, f, same) =
            old_owner c d paid a.character other m.characters a.character_found refl e in
          elim (eq-cases c d) [
            | inl i ↦
                let mine : lookup c m.characters ≡ some old = rw (i) f in
                rw⁻¹ same (
                  omega (
                    arith,
                    below_limit_lem c m old a.below_limit mine,
                    count_registered-insert horse created m.horse_registrations old.horses
                        (h.set_like c old mine),
                  ))
            | inr ne ↦ rw⁻¹ same (
                rw
                  (count_registered-insert_other horse created m.horse_registrations old.horses
                    (h.apart c d horse a.character old a.character_found f ne a.owned))
                  (h.limited d old f))
          ];
      set_like = λ d other e.
          let (old, f, same) =
            old_owner c d paid a.character other m.characters a.character_found refl e in
          rw⁻¹ same (h.set_like d old f);
      apart = λ d k horse2 owner other e f ne i.
          let (old1, e1, same1) =
            old_owner c d paid a.character owner m.characters a.character_found refl e in
          let (old2, e2, same2) =
            old_owner c k paid a.character other m.characters a.character_found refl f in
          rw⁻¹ same2 (h.apart d k horse2 old1 old2 e1 e2 ne (rw (same1) i));
    }

-- Fewer registrations, and the same characters.
pub fewer-IsLimited :
    (m after : BreedingMarket)
    → after.characters ≡ m.characters
    → ((horses : List ℕ)
        → count_registered after.horse_registrations horses
          ≤ count_registered m.horse_registrations horses)
    → IsLimited m
    → IsLimited after
fewer-IsLimited m after same fewer h = record {
  limited = λ c owner e.
      let old = h.limited c owner (rw⁻¹ same e) in omega (arith, old, fewer owner.horses);
  set_like = λ c owner e. h.set_like c owner (rw⁻¹ same e);
  apart = λ c d horse owner other e f. h.apart c d horse owner other (rw⁻¹ same e) (rw⁻¹ same f);
}
