-- ===== src/Race/Tracker/Kept.antt =====
-- The operations of the race tracker as data, and what all of them but AddRacer leave as it is.
use alicia_server.Common.{
  ℕ, ◌≡◌, ◌⊎◌, inl, inr, refl, arith, some, List, [], ◌∷◌, Option-cases, eq-cases,
}
use alicia_server.Common.Map.{lookup, insert, lookup-insert, lookup-erase}
use alicia_server.Race.Tracker.{
  RaceTracker, Racer, add_racer, remove_racer, add_item_deck, remove_item_deck, is_event_throttled,
  add_event_item, remove_event_item, get_next_effect_instance_id_and_increment_by, clear,
}

-- the operations of the tracker that change it
pub data Operation : Type 0 where
  add_racer_op remove_racer_op add_event_item_op remove_item_deck_op : ℕ → Operation
  add_item_deck_op clear_op : Operation
  remove_event_item_op is_event_throttled_op : ℕ → ℕ → Operation
  effect_ids_op : ℕ → Operation

abbrev pub apply : Operation → RaceTracker → RaceTracker
apply (add_racer_op uid) t = (add_racer uid t).1
apply (remove_racer_op uid) t = remove_racer uid t
apply (add_event_item_op uid) t = (add_event_item uid t).1
apply (remove_item_deck_op oid) t = remove_item_deck oid t
apply add_item_deck_op t = (add_item_deck t).1
apply clear_op t = clear t
apply (remove_event_item_op uid oid) t = (remove_event_item uid oid t).1
apply (is_event_throttled_op now event) t = (is_event_throttled now event t).1
apply (effect_ids_op increment) t = (get_next_effect_instance_id_and_increment_by increment t).1

unfoldable pub apply_all : List Operation → RaceTracker → RaceTracker
apply_all [] t = t
apply_all (o ∷ os) t = apply_all os (apply o t)

-- What an operation does to the record of object ids and to the ids of the racers.
pub record IsKept (t u : RaceTracker) : Type 0 where
  pub same_oids : u.character_oids ≡ t.character_oids
  pub same_next : u.next_character_oid ≡ t.next_character_oid
  pub same_racers :
      (uid : ℕ) (r : Racer)
      → lookup uid u.racers ≡ some r
      → (q : Racer) × (lookup uid t.racers ≡ some q) × (q.oid ≡ r.oid)

same-IsKept : (t : RaceTracker) → IsKept t t
same-IsKept t = record { same_oids = refl; same_next = refl; same_racers = λ uid r e. (r, e, refl) }

remove_racer-IsKept : (uid : ℕ) (t : RaceTracker) → IsKept t (remove_racer uid t)
unfolding remove_racer
remove_racer-IsKept uid t = record {
  same_oids = refl;
  same_next = refl;
  same_racers = λ v r e. (r, ground (arith, lookup-erase uid v t.racers), refl);
}

replaced :
    (uid n : ℕ) (q r : Racer) (t : RaceTracker)
    → lookup uid t.racers ≡ some q
    → q.oid ≡ r.oid
    → IsKept t (record t { racers = insert uid r t.racers; next_item_deck_oid = n })
replaced uid n q r t found same = record {
  same_oids = refl;
  same_next = refl;
  same_racers = λ v x e. elim (eq-cases uid v) [
    | inl p ↦ (q, ground (arith, p, found), ground (arith, lookup-insert uid v r t.racers))
    | inr p ↦ (x, ground (arith, lookup-insert uid v r t.racers), refl)
  ];
}

add_event_item-IsKept : (uid : ℕ) (t : RaceTracker) → IsKept t (add_event_item uid t).1
unfolding add_event_item
add_event_item-IsKept uid t = elim (Option-cases (lookup uid t.racers)) [
  | inl e ↦ rw (e, add_event_item) (same-IsKept t)
  | inr (q, e) ↦ rw (e, add_event_item) (replaced uid _ q _ t e refl)
]

remove_event_item-IsKept :
    (uid oid : ℕ) (t : RaceTracker) → IsKept t (remove_event_item uid oid t).1
unfolding remove_event_item
remove_event_item-IsKept uid oid t = elim (Option-cases (lookup uid t.racers)) [
  | inl e ↦ rw (e, remove_event_item) (same-IsKept t)
  | inr (q, e) ↦ rw (e, remove_event_item) (replaced uid _ q _ t e refl)
]

same_fields :
    (t u : RaceTracker)
    → u.character_oids ≡ t.character_oids
    → u.next_character_oid ≡ t.next_character_oid
    → u.racers ≡ t.racers
    → IsKept t u
same_fields t u a b c = record {
  same_oids = a;
  same_next = b;
  same_racers = λ uid r e. (r, ground (arith, c, e), refl);
}

deck-IsKept : (t : RaceTracker) → IsKept t (add_item_deck t).1
unfolding add_item_deck
deck-IsKept t = same_fields t (add_item_deck t).1 (ground arith) (ground arith) (ground arith)

throttled-IsKept : (now event : ℕ) (t : RaceTracker) → IsKept t (is_event_throttled now event t).1
unfolding is_event_throttled
throttled-IsKept now event t =
    same_fields t (is_event_throttled now event t).1 (ground arith) (ground arith) (ground arith)

clear-IsKept : (t : RaceTracker) → IsKept t (clear t)
unfolding clear lookup
clear-IsKept t = record {
  same_oids = refl;
  same_next = refl;
  same_racers = λ uid r e. ground arith;
}

-- What an operation other than AddRacer does, in one place.
pub apply-cases :
    (o : Operation) (t : RaceTracker) → ((uid : ℕ) × (o ≡ add_racer_op uid)) ⊎ IsKept t (apply o t)
unfolding is_event_throttled add_item_deck remove_item_deck
    get_next_effect_instance_id_and_increment_by clear
apply-cases (add_racer_op uid) t = inl (uid, refl)
apply-cases (remove_racer_op uid) t = inr (remove_racer-IsKept uid t)
apply-cases (add_event_item_op uid) t = inr (add_event_item-IsKept uid t)
apply-cases (remove_event_item_op uid oid) t = inr (remove_event_item-IsKept uid oid t)
apply-cases (remove_item_deck_op oid) t =
    inr (same_fields t (remove_item_deck oid t) refl refl refl)
apply-cases add_item_deck_op t = inr (deck-IsKept t)
apply-cases clear_op t = inr (clear-IsKept t)
apply-cases (is_event_throttled_op now event) t = inr (throttled-IsKept now event t)
apply-cases (effect_ids_op increment) t =
    inr (same_fields t (get_next_effect_instance_id_and_increment_by increment t).1 refl refl refl)
