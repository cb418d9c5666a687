-- ===== src/Ranch/Tracker/Oids.antt =====
-- No two entities of a ranch share an object id.
use alicia_server.Common.{
  ℕ, ◌+◌, ◌%◌, ◌^◌, ◌≤◌, ◌<◌, ◌≡◌, inl, inr, arith, some, List, [], ◌∷◌, Option-cases, length,
}
use alicia_server.Common.Map.{Map, lookup, insert, erase, lookup-insert, lookup-erase}
use alicia_server.Ranch.Tracker.{
  RanchTracker, add_character, remove_character, add_horse, remove_horse,
}

-- The ids of a table lie from 1 to the next id and are each its own key's.
pub record IsIssued (next : ℕ) (m : Map ℕ) : Type 0 where
  pub below : (uid oid : ℕ) → lookup uid m ≡ some oid → (1 ≤ oid) × (oid < next)
  pub owned : (u v oid : ℕ) → lookup u m ≡ some oid → lookup v m ≡ some oid → u ≡ v

-- Both tables are issued, and no character has the id of a horse.
pub record IsTracked (t : RanchTracker) : Type 0 where
  pub started : 1 ≤ t.next_object_id
  pub characters_issued : IsIssued t.next_object_id t.characters
  pub horses_issued : IsIssued t.next_object_id t.horses
  pub apart : (u v oid : ℕ) → lookup u t.characters ≡ some oid → lookup v t.horses ≡ some oid → ⊥

IsIssued-insert :
    (uid next : ℕ) (m : Map ℕ)
    → 1 ≤ next
    → IsIssued next m
    → IsIssued (next + 1) (insert uid next m)
IsIssued-insert uid next m s i = record {
  below = λ v oid e. ground (arith, lookup-insert uid v next m, i.below v oid);
  owned = λ u v oid e f. ground (
    arith,
    lookup-insert uid u next m,
    lookup-insert uid v next m,
    i.below u oid,
    i.below v oid,
    i.owned u v oid,
  );
}

IsIssued-wider : (next : ℕ) (m : Map ℕ) → IsIssued next m → IsIssued (next + 1) m
IsIssued-wider next m i = record {
  below = λ v oid e. ground (arith, i.below v oid);
  owned = i.owned;
}

IsIssued-erase : (uid next : ℕ) (m : Map ℕ) → IsIssued next m → IsIssued next (erase uid m)
IsIssued-erase uid next m i = record {
  below = λ v oid e. ground (arith, lookup-erase uid v m, i.below v oid);
  owned =
      λ u v oid e f. ground (arith, lookup-erase uid u m, lookup-erase uid v m, i.owned u v oid);
}

fits : (n : ℕ) → n < 2 ^ 16 → n % 2 ^ 16 ≡ n
fits n h = omega arith

add_character-IsTracked :
    (uid : ℕ) (t : RanchTracker)
    → IsTracked t
    → t.next_object_id + 1 < 2 ^ 16
    → IsTracked (add_character uid t).1
      × (lookup uid (add_character uid t).1.characters ≡ some (add_character uid t).0)
      × ((add_character uid t).1.next_object_id ≤ t.next_object_id + 1)
unfolding add_character
add_character-IsTracked uid t i h = elim (Option-cases (lookup uid t.characters)) [
  | inr (oid, e) ↦ rw (e, add_character) (i, e, omega arith)
  | inl e ↦
      rw (e, add_character)
        (rw (fits (t.next_object_id + 1) h) (
          record {
            started = omega (arith, i.started);
            characters_issued =
                IsIssued-insert uid t.next_object_id t.characters i.started i.characters_issued;
            horses_issued = IsIssued-wider t.next_object_id t.horses i.horses_issued;
            apart = λ u v oid a b. ground (
              arith,
              lookup-insert uid u t.next_object_id t.characters,
              i.horses_issued.below v oid b,
              i.apart u v oid,
              b,
            );
          },
          ground (arith, lookup-insert uid uid t.next_object_id t.characters),
          omega arith,
        ))
]

add_horse-IsTracked :
    (uid : ℕ) (t : RanchTracker)
    → IsTracked t
    → t.next_object_id + 1 < 2 ^ 16
    → IsTracked (add_horse uid t).1
      × (lookup uid (add_horse uid t).1.horses ≡ some (add_horse uid t).0)
      × ((add_horse uid t).1.next_object_id ≤ t.next_object_id + 1)
unfolding add_horse
add_horse-IsTracked uid t i h = elim (Option-cases (lookup uid t.horses)) [
  | inr (oid, e) ↦ rw (e, add_horse) (i, e, omega arith)
  | inl e ↦
      rw (e, add_horse)
        (rw (fits (t.next_object_id + 1) h) (
          record {
            started = omega (arith, i.started);
            characters_issued = IsIssued-wider t.next_object_id t.characters i.characters_issued;
            horses_issued = IsIssued-insert uid t.next_object_id t.horses i.started i.horses_issued;
            apart = λ u v oid a b. ground (
              arith,
              lookup-insert uid v t.next_object_id t.horses,
              i.characters_issued.below u oid a,
              i.apart u v oid,
              a,
            );
          },
          ground (arith, lookup-insert uid uid t.next_object_id t.horses),
          omega arith,
        ))
]

remove_character-IsTracked :
    (uid : ℕ) (t : RanchTracker) → IsTracked t → IsTracked (remove_character uid t)
unfolding remove_character
remove_character-IsTracked uid t i = record {
  started = i.started;
  characters_issued = IsIssued-erase uid t.next_object_id t.characters i.characters_issued;
  horses_issued = i.horses_issued;
  apart = λ u v oid a b. ground (arith, lookup-erase uid u t.characters, i.apart u v oid, a, b);
}

remove_horse-IsTracked : (uid : ℕ) (t : RanchTracker) → IsTracked t → IsTracked (remove_horse uid t)
unfolding remove_horse
remove_horse-IsTracked uid t i = record {
  started = i.started;
  characters_issued = i.characters_issued;
  horses_issued = IsIssued-erase uid t.next_object_id t.horses i.horses_issued;
  apart = λ u v oid a b. ground (arith, lookup-erase uid v t.horses, i.apart u v oid, a, b);
}

-- the operations that change the tracker
pub data Operation : Type 0 where
  add_character_op remove_character_op add_horse_op remove_horse_op : ℕ → Operation

abbrev pub apply : Operation → RanchTracker → RanchTracker
apply (add_character_op uid) t = (add_character uid t).1
apply (remove_character_op uid) t = remove_character uid t
apply (add_horse_op uid) t = (add_horse uid t).1
apply (remove_horse_op uid) t = remove_horse uid t

unfoldable pub apply_all : List Operation → RanchTracker → RanchTracker
apply_all [] t = t
apply_all (o ∷ os) t = apply_all os (apply o t)

apply-IsTracked :
    (o : Operation) (t : RanchTracker)
    → IsTracked t
    → t.next_object_id + 1 < 2 ^ 16
    → IsTracked (apply o t) × ((apply o t).next_object_id ≤ t.next_object_id + 1)
unfolding remove_character remove_horse
apply-IsTracked (add_character_op uid) t i h =
    let a = add_character-IsTracked uid t i h in (a.0, a.2)
apply-IsTracked (remove_character_op uid) t i h = (remove_character-IsTracked uid t i, omega arith)
apply-IsTracked (add_horse_op uid) t i h = let a = add_horse-IsTracked uid t i h in (a.0, a.2)
apply-IsTracked (remove_horse_op uid) t i h = (remove_horse-IsTracked uid t i, omega arith)

-- Over fewer than 65535 operations no two characters, no two horses, and no character and horse of a
-- ranch come to share an object id, and none has the invalid id 0.
pub apply_all-IsTracked :
    (os : List Operation) (t : RanchTracker)
    → IsTracked t
    → t.next_object_id + length os < 2 ^ 16
    → IsTracked (apply_all os t)
unfolding apply_all
apply_all-IsTracked [] t i h = i
apply_all-IsTracked (o ∷ os) t i h =
    let next = apply-IsTracked o t i (omega arith) in
    apply_all-IsTracked os (apply o t) next.0 (omega (arith, next.1))
