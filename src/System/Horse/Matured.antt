-- ===== src/System/Horse/Matured.antt =====
-- Foals that have grown up in src/server/system/HorseSystem.cpp.
use mathlib.Core.Path.{subst}
use alicia_server.Common.{
  ℕ, ◌+◌, ◌≡◌, inl, inr, refl, sym, arith, List, [], ◌∷◌, Bool, true, false, none, some, leb, ◌==◌,
  if◌then◌else◌, member, Option-cases, eq-cases, ==_self, Bool-cases,
}
use alicia_server.Common.Map.{Map, lookup, contains, lookup-insert}
use alicia_server.Ranch.Market.{HorseType}
use alicia_server.Ranch.Genetics.{Horse}
use alicia_server.System.Horse.{
  Character, foal_grow_up_duration, is_foal, promote, promote_all, promote_matured_foals,
}

-- The time when a horse is grown up, and whether it is.
abbrev pub grown_up : Horse → ℕ
grown_up horse = horse.date_of_birth + foal_grow_up_duration

-- A foal that is still one at a time.
abbrev pub is_growing : (now : ℕ) → Horse → Bool
is_growing now horse =
    if is_foal horse.type then (if leb (grown_up horse) now then false else true) else false

-- The type of a horse at a time.
abbrev pub type_at : (now : ℕ) → Horse → HorseType
type_at now horse =
    if is_foal horse.type
    then (if leb (grown_up horse) now then HorseType.adult else horse.type)
    else horse.type

abbrev grown : (now : ℕ) → Horse → Horse
grown now horse = record horse { type = type_at now horse }

module _ (now uid : ℕ) where
  -- What is known of a horse in the course of the loop: it is the same, or grown, and the map of the
  -- foals has it with the time when it is grown up, or not at all.
  abbrev IsAt : (touched : Bool) → Horse → Map Horse × Map ℕ → Type 0
  IsAt touched horse state =
      (lookup uid state.0 ≡ some (if touched then grown now horse else horse))
      × (lookup uid state.1 ≡ (
          if touched then (if is_growing now horse then some (grown_up horse) else none) else none))

  promote_here :
      (touched : Bool) (horse : Horse) (horses : Map Horse) (maturing : Map ℕ)
      → IsAt touched horse (horses, maturing)
      → IsAt true horse
          (promote now uid (if touched then grown now horse else horse) (horses, maturing))
  unfolding promote contains
  promote_here true horse horses maturing (there, told) = ground (
    arith,
    there,
    told,
    Bool-cases (is_foal horse.type),
    lookup-insert uid uid (record horse { type = HorseType.adult }) horses,
    lookup-insert uid uid (grown_up horse) maturing,
  )
  promote_here false horse horses maturing (there, told) = ground (
    arith,
    there,
    told,
    Bool-cases (is_foal horse.type),
    lookup-insert uid uid (record horse { type = HorseType.adult }) horses,
    lookup-insert uid uid (grown_up horse) maturing,
  )

  -- A round of the loop.
  abbrev visit : (other : ℕ) → Map Horse × Map ℕ → Map Horse × Map ℕ
  visit other state = elim (lookup other state.0) as (λ x. Map Horse × Map ℕ) [
    | none ↦ state
    | some h ↦ promote now other h state
  ]

  visit_here :
      (touched : Bool) (horse : Horse) (horses : Map Horse) (maturing : Map ℕ)
      → IsAt touched horse (horses, maturing)
      → IsAt (if uid == uid then true else touched) horse (visit uid (horses, maturing))
  visit_here touched horse horses maturing at_step =
      rw (==_self uid) (rw (at_step.0, visit) (promote_here touched horse horses maturing at_step))

  promote_step :
      (touched : Bool) (other : ℕ) (horse : Horse) (state : Map Horse × Map ℕ)
      → IsAt touched horse state
      → IsAt (if other == uid then true else touched) horse (visit other state)
  unfolding promote contains
  promote_step touched other horse (horses, maturing) at_step = elim (eq-cases other uid) [
    | inl e ↦
        subst
          (λ (o : ℕ). IsAt (if o == uid then true else touched) horse (visit o (horses, maturing)))
          (sym e) (visit_here touched horse horses maturing at_step)
    | inr ne ↦ elim (Option-cases (lookup other horses)) [
      | inl n ↦ ground (arith, n, ne, at_step)
      | inr (h, there) ↦ ground (
        arith,
        there,
        ne,
        at_step,
        lookup-insert other uid (record h { type = HorseType.adult }) horses,
        lookup-insert other uid (grown_up h) maturing,
      )
    ]
  ]

  either_way :
      (a b touched : Bool)
      → (if b then true else (if a then true else touched))
        ≡ (if if a then true else b then true else touched)
  either_way true true touched = refl
  either_way true false touched = refl
  either_way false true touched = refl
  either_way false false touched = refl

  promote_all-IsAt :
      (touched : Bool) (uids : List ℕ) (horse : Horse) (state : Map Horse × Map ℕ)
      → IsAt touched horse state
      → IsAt (if member uid uids then true else touched) horse (promote_all now uids state)
  unfolding promote_all
  promote_all-IsAt touched [] horse state at_start = at_start
  promote_all-IsAt touched (other ∷ uids) horse state at_start =
      subst (λ (b : Bool). IsAt b horse (promote_all now uids (visit other state)))
        (either_way (other == uid) (member uid uids) touched)
        (promote_all-IsAt (if other == uid then true else touched) uids horse (visit other state)
          (promote_step touched other horse state at_start))

-- The horses of a character that are foals and old enough become adults; those that are too young
-- stay foals, and these alone are answered, with the time when they are grown up. All other horses are
-- as before, and no other field of a horse changes.
pub promote_matured_foals-each :
    (now : ℕ) (character : Character) (horses : Map Horse) (uid : ℕ) (horse : Horse)
    → lookup uid horses ≡ some horse
    → let done = promote_matured_foals now (some character) horses in
      let owned = member uid character.horses in
      (lookup uid done.0
        ≡ some (record horse { type = if owned then type_at now horse else horse.type }))
      × (lookup uid done.1 ≡ (
          if owned then (if is_growing now horse then some (grown_up horse) else none) else none))
unfolding promote_matured_foals lookup
promote_matured_foals-each now character horses uid horse found =
    let (there, told) =
      promote_all-IsAt now uid false character.horses horse (horses, []) (found, refl) in
    ground (arith, there, told, Bool-cases (member uid character.horses))
