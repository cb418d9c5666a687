-- ===== src/Race/Tracker/Oids.antt =====
-- The object ids of characters: each has its own, and keeps it from race to race.
use alicia_server.Common.{
  ℕ, ◌+◌, ◌^◌, ◌≤◌, ◌<◌, ◌≡◌, ◌≢◌, inl, inr, refl, arith, false, some, List, [], ◌∷◌, Option-cases,
  Bool-cases, ap,
}
use alicia_server.Common.Map.{lookup, contains, insert, lookup-insert}
use alicia_server.Common.Outcome.{returned}
use alicia_server.Race.Tracker.{RaceTracker, Racer, new_racer, character_oid, add_racer, get_racer}
use alicia_server.Race.Tracker.Kept.{Operation, add_racer_op, apply, apply_all, IsKept, apply-cases}

-- Object ids were given out below the next one and to one character each, and a racer has the one that
-- is on record for its character.
pub record Inv (t : RaceTracker) : Type 0 where
  pub started : 1 ≤ t.next_character_oid
  pub below :
      (uid oid : ℕ)
      → lookup uid t.character_oids ≡ some oid
      → (1 ≤ oid) × (oid < t.next_character_oid)
  pub owned :
      (u v oid : ℕ)
      → lookup u t.character_oids ≡ some oid
      → lookup v t.character_oids ≡ some oid
      → u ≡ v
  pub on_record :
      (uid : ℕ) (r : Racer)
      → lookup uid t.racers ≡ some r
      → lookup uid t.character_oids ≡ some r.oid

kept-Inv : (t u : RaceTracker) → IsKept t u → Inv t → Inv u
kept-Inv t u k i = record {
  started = ground (arith, i.started, k.same_next);
  below = λ uid oid e. ground (arith, i.below uid oid, k.same_oids, k.same_next);
  owned = λ a b oid e f. ground (arith, i.owned a b oid, k.same_oids);
  on_record = λ uid r e.
      (let (q, found, same) = k.same_racers uid r e in
        ground (arith, i.on_record uid q found, k.same_oids));
}

joined-Inv :
    (uid oid : ℕ) (t : RaceTracker)
    → Inv t
    → lookup uid t.character_oids ≡ some oid
    → Inv (record t { racers = insert uid (record new_racer { oid = oid }) t.racers })
joined-Inv uid oid t i e = record {
  started = i.started;
  below = i.below;
  owned = i.owned;
  on_record = λ v r f.
      ground
        (arith, lookup-insert uid v (record new_racer { oid = oid }) t.racers, i.on_record v r);
}

-- The object id that AddRacer finds or gives out is on record afterwards.
character_oid-Inv :
    (uid : ℕ) (t : RaceTracker)
    → Inv t
    → t.next_character_oid + 1 < 2 ^ 16
    → Inv (character_oid uid t).1
      × (lookup uid (character_oid uid t).1.character_oids ≡ some (character_oid uid t).0)
unfolding character_oid
character_oid-Inv uid t i h = elim (Option-cases (lookup uid t.character_oids)) [
  | inr (oid, e) ↦ rw (e, character_oid) (i, e)
  | inl e ↦
      rw (e, character_oid)
        (
          record {
            started = ground (arith, i.started);
            below = λ v oid f. ground (
              arith,
              i.started,
              lookup-insert uid v t.next_character_oid t.character_oids,
              i.below v oid,
            );
            owned = λ v w oid f g. ground (
              arith,
              lookup-insert uid v t.next_character_oid t.character_oids,
              lookup-insert uid w t.next_character_oid t.character_oids,
              i.below v oid,
              i.below w oid,
              i.owned v w oid,
            );
            on_record = λ v r f. ground (
              arith,
              lookup-insert uid v t.next_character_oid t.character_oids,
              i.on_record v r f,
            );
          },
          ground (arith, lookup-insert uid uid t.next_character_oid t.character_oids),
        )
]

add_racer-Inv :
    (uid : ℕ) (t : RaceTracker)
    → Inv t
    → t.next_character_oid + 1 < 2 ^ 16
    → Inv (add_racer uid t).1
unfolding add_racer
add_racer-Inv uid t i h =
    let (assigned, recorded) = character_oid-Inv uid t i h in
    elim (Bool-cases (contains uid t.racers)) [
      | inl e ↦ rw (e, add_racer) i
      | inr e ↦
          rw (e, add_racer)
            (joined-Inv uid (character_oid uid t).0 (character_oid uid t).1 assigned recorded)
    ]

add_racer-oid :
    (uid v oid : ℕ) (t : RaceTracker)
    → lookup v t.character_oids ≡ some oid
    → lookup v (add_racer uid t).1.character_oids ≡ some oid
unfolding add_racer character_oid
add_racer-oid uid v oid t e =
    ground (arith, lookup-insert uid v t.next_character_oid t.character_oids)

add_racer-next :
    (uid : ℕ) (t : RaceTracker)
    → t.next_character_oid + 1 < 2 ^ 16
    → (add_racer uid t).1.next_character_oid ≤ t.next_character_oid + 1
unfolding add_racer character_oid
add_racer-next uid t h = ground arith

kept-oid :
    (t u : RaceTracker) (uid oid : ℕ)
    → IsKept t u
    → lookup uid t.character_oids ≡ some oid
    → lookup uid u.character_oids ≡ some oid
kept-oid t u uid oid k e = ground (arith, e, k.same_oids)

-- The number of AddRacer calls among operations.
abbrev pub is_join : Operation → ℕ
is_join (add_racer_op uid) = 1
is_join _ = 0

unfoldable pub joins : List Operation → ℕ
joins [] = 0
joins (o ∷ os) = is_join o + joins os

step-Inv :
    (o : Operation) (t : RaceTracker)
    → Inv t
    → t.next_character_oid + is_join o < 2 ^ 16
    → Inv (apply o t) × ((apply o t).next_character_oid ≤ t.next_character_oid + is_join o)
step-Inv o t i h = elim (apply-cases o t) [
  | inl (v, same) ↦
      (let room : t.next_character_oid + 1 < 2 ^ 16 = ground (arith, h, ap is_join same) in
        rw (same) (add_racer-Inv v t i room, add_racer-next v t room))
  | inr k ↦ (kept-Inv t (apply o t) k i, ground (arith, k.same_next))
]

-- From a tracker that keeps the invariant, a new one for instance, and as long as the next object id
-- and the AddRacer calls to come stay below 65536: no two characters share an object id, none has id 0,
-- and every racer goes by the id on record for it, whatever is added, removed, throttled or cleared.
pub apply_all-Inv :
    (os : List Operation) (t : RaceTracker)
    → Inv t
    → t.next_character_oid + joins os < 2 ^ 16
    → Inv (apply_all os t)
unfolding apply_all joins
apply_all-Inv [] t i h = i
apply_all-Inv (o ∷ os) t i h =
    let next = step-Inv o t i (omega arith) in
    apply_all-Inv os (apply o t) next.0 (ground (arith, next.1))

-- A character that has an object id keeps it through every operation.
pub apply_all-oid :
    (uid oid : ℕ) (os : List Operation) (t : RaceTracker)
    → lookup uid t.character_oids ≡ some oid
    → lookup uid (apply_all os t).character_oids ≡ some oid
unfolding apply_all
apply_all-oid uid oid [] t e = e
apply_all-oid uid oid (o ∷ os) t e = apply_all-oid uid oid os (apply o t) (elim (apply-cases o t) [
  | inl (v, same) ↦ rw (same) (add_racer-oid v uid oid t e)
  | inr k ↦ kept-oid t (apply o t) uid oid k e
])

add_racer_known :
    (uid oid : ℕ) (t : RaceTracker)
    → lookup uid t.character_oids ≡ some oid
    → contains uid t.racers ≡ false
    → let r : Racer = record new_racer { oid = oid } in
      add_racer uid t ≡ (returned r, record t { racers = insert uid r t.racers })
unfolding add_racer character_oid
add_racer_known uid oid t e out = rw (out, e, add_racer, character_oid) refl

alone :
    (uid v : ℕ) (q : Racer) (t : RaceTracker)
    → Inv t
    → lookup uid t.character_oids ≡ some q.oid
    → contains uid t.racers ≡ false
    → lookup v t.racers ≡ some q
    → ⊥
unfolding contains
alone uid v q t i e out f = ground (arith, i.owned uid v q.oid e (i.on_record v q f), out, f)

-- Under the same condition, a racer who comes back, with no matter what in between, races under the
-- object id it had before, and nobody else in the race has it.
pub add_racer-again :
    (uid : ℕ) (r : Racer) (os : List Operation) (t : RaceTracker)
    → Inv t
    → t.next_character_oid + joins os + 1 < 2 ^ 16
    → lookup uid t.racers ≡ some r
    → let later = apply_all os t in
      contains uid later.racers ≡ false
      → (get_racer uid (add_racer uid later).1 ≡ (add_racer uid later).0)
        × ((q : Racer) × ((add_racer uid later).0 ≡ returned q) × (q.oid ≡ r.oid))
        × ((v : ℕ) (q : Racer) → lookup v later.racers ≡ some q → q.oid ≢ r.oid)
unfolding get_racer
add_racer-again uid r os t i h e out =
    let later = apply_all os t in
    let kept = apply_all-oid uid r.oid os t (i.on_record uid r e) in
    let inv = apply_all-Inv os t i (omega arith) in
    let again : Racer = record new_racer { oid = r.oid } in
    rw (add_racer_known uid r.oid later kept out) (
      ground (arith, lookup-insert uid uid again later.racers),
      (again, refl, refl),
      λ v q f same. alone uid v q later inv (ground (arith, kept, same)) out f,
    )
