-- ===== src/Race/Tracker/Items.antt =====
-- Item decks and event items: their object ids, and finding and removing them.
use alicia_server.Common.{
  ℕ, ◌+◌, ◌^◌, ◌≤◌, ◌<◌, ◌≡◌, refl, arith, false, none, some, List, [], ◌∷◌, ◌++◌, ◌==◌,
  if◌then◌else◌,
}
use alicia_server.Common.Map.{lookup, contains, insert, lookup-insert, lookup-erase}
use alicia_server.Common.Outcome.{returned, threw, runtime_error}
use alicia_server.Race.Tracker.{
  RaceTracker, Racer, EventItem, ItemDeck, get_racer, add_item_deck, get_item_deck,
  remove_item_deck, add_event_item, find_item, find_event_item, get_event_item, remove_event_item,
  erase_items, invalid_entity_oid, uint16,
}

-- No item deck and no event item has an object id from the next one on.
pub record IsBelow (t : RaceTracker) : Type 0 where
  pub decks : (oid : ℕ) → t.next_item_deck_oid ≤ oid → contains oid t.item_decks ≡ false
  pub events :
      (uid oid : ℕ) (r : Racer)
      → lookup uid t.racers ≡ some r
      → t.next_item_deck_oid ≤ oid
      → find_item oid r.event_items ≡ none

find_item-append :
    (oid : ℕ) (items : List EventItem) (item : EventItem)
    → find_item oid items ≡ none
    → find_item oid (items ++ (item ∷ [])) ≡ (if item.oid == oid then some item else none)
unfolding find_item
find_item-append oid [] item e = refl
find_item-append oid (i ∷ items) item e = ground (arith, find_item-append oid items item)

find_item-erase_items :
    (oid j : ℕ) (items : List EventItem)
    → find_item j (erase_items oid items) ≡ (if oid == j then none else find_item j items)
unfolding find_item erase_items
find_item-erase_items oid j [] = ground arith
find_item-erase_items oid j (i ∷ items) = ground (arith, find_item-erase_items oid j items)

wrap : (n : ℕ) → n < 2 ^ 16 → uint16 n ≡ n
wrap n h = omega arith

add_event_item_eq :
    (uid : ℕ) (r : Racer) (t : RaceTracker)
    → lookup uid t.racers ≡ some r
    → t.next_item_deck_oid + 1 < 2 ^ 16
    → let oid = t.next_item_deck_oid in
      let item : EventItem = record { oid = oid; item_type = 0 } in
      add_event_item uid t ≡ (
        returned item,
        record t {
          racers = insert uid (record r { event_items = r.event_items ++ (item ∷ []) }) t.racers;
          next_item_deck_oid = oid + 1;
        },
      )
unfolding add_event_item
add_event_item_eq uid r t e h = rw (e, add_event_item) (rw (wrap (t.next_item_deck_oid + 1) h) refl)

get_event_item_eq :
    (uid oid : ℕ) (r : Racer) (t : RaceTracker)
    → lookup uid t.racers ≡ some r
    → (find_item oid r.event_items ≡ none
        → (get_event_item uid oid t ≡ threw runtime_error)
          × (find_event_item uid oid t ≡ returned invalid_entity_oid))
      × ((item : EventItem)
          → find_item oid r.event_items ≡ some item
          → get_event_item uid oid t ≡ returned item)
unfolding get_event_item find_event_item get_racer
get_event_item_eq uid oid r t e = (λ f. ground arith, λ item f. ground arith)

removed :
    (uid oid : ℕ) (r : Racer) (t : RaceTracker)
    → lookup uid t.racers ≡ some r
    → lookup uid (remove_event_item uid oid t).1.racers
      ≡ some (record r { event_items = erase_items oid r.event_items })
unfolding remove_event_item
removed uid oid r t e =
    rw (e, remove_event_item)
      (ground (
        arith,
        lookup-insert uid uid (record r { event_items = erase_items oid r.event_items }) t.racers,
      ))

abbrev new_deck : ℕ → ItemDeck
new_deck oid = record {
  oid = oid;
  items = [];
  current_item = 0;
  respawn_time = 0;
  respawn_time_point = 0;
}

add_item_deck_eq :
    (t : RaceTracker)
    → contains t.next_item_deck_oid t.item_decks ≡ false
    → t.next_item_deck_oid + 1 < 2 ^ 16
    → let oid = t.next_item_deck_oid in
      add_item_deck t ≡ (
        returned (new_deck oid),
        record t {
          item_decks = insert oid (new_deck oid) t.item_decks;
          next_item_deck_oid = oid + 1;
        },
      )
unfolding add_item_deck
add_item_deck_eq t absent h =
    rw (absent, add_item_deck) (rw (wrap (t.next_item_deck_oid + 1) h) refl)

deck-IsBelow :
    (t : RaceTracker)
    → IsBelow t
    → let oid = t.next_item_deck_oid in
      IsBelow (record t {
        item_decks = insert oid (new_deck oid) t.item_decks;
        next_item_deck_oid = oid + 1;
      })
unfolding contains
deck-IsBelow t b = record {
  decks = λ j le. ground (
    arith,
    lookup-insert t.next_item_deck_oid j (new_deck t.next_item_deck_oid) t.item_decks,
    b.decks j,
  );
  events = λ uid j r e le. b.events uid j r e (omega arith);
}

item-IsBelow :
    (uid : ℕ) (item : EventItem) (r : Racer) (t : RaceTracker)
    → IsBelow t
    → lookup uid t.racers ≡ some r
    → item.oid ≡ t.next_item_deck_oid
    → IsBelow (record t {
      racers = insert uid (record r { event_items = r.event_items ++ (item ∷ []) }) t.racers;
      next_item_deck_oid = t.next_item_deck_oid + 1;
    })
item-IsBelow uid item r t b e same = record {
  decks = λ j le. b.decks j (omega arith);
  events = λ v j q f le. ground (
    arith,
    lookup-insert uid v (record r { event_items = r.event_items ++ (item ∷ []) }) t.racers,
    b.events uid j r e (omega arith),
    b.events v j q,
    find_item-append j r.event_items item,
  );
}

-- Before the 16-bit ids wrap, AddItemDeck never throws: the new deck has an id that no deck and no
-- event item has, it is found under that id and no longer once it is removed, and ids stay below the
-- next one.
pub add_item_deck-new :
    (t : RaceTracker)
    → IsBelow t
    → t.next_item_deck_oid + 1 < 2 ^ 16
    → let added = (add_item_deck t).1 in
      (deck : ItemDeck) × ((add_item_deck t).0 ≡ returned deck)
      × (contains deck.oid t.item_decks ≡ false)
      × ((uid : ℕ) (r : Racer)
          → lookup uid t.racers ≡ some r
          → find_item deck.oid r.event_items ≡ none)
      × (get_item_deck deck.oid added ≡ returned deck)
      × (get_item_deck deck.oid (remove_item_deck deck.oid added) ≡ threw runtime_error)
      × IsBelow added
unfolding get_item_deck remove_item_deck contains
add_item_deck-new t b h =
    let oid : ℕ = t.next_item_deck_oid in
    let absent = b.decks oid (omega arith) in
    rw (add_item_deck_eq t absent h) (
      new_deck oid,
      refl,
      absent,
      λ uid r e. b.events uid oid r e (omega arith),
      ground (arith, lookup-insert oid oid (new_deck oid) t.item_decks),
      ground (arith, lookup-erase oid oid (insert oid (new_deck oid) t.item_decks)),
      deck-IsBelow t b,
    )

-- An event item that is added for a racer, before the ids wrap, has an id that no item deck and no
-- event item has. The racer finds it under that id, and after it was removed does not: FindEventItem
-- answers the invalid id, and GetEventItem throws. Ids stay below the next one.
pub add_event_item-new :
    (uid : ℕ) (r : Racer) (t : RaceTracker)
    → IsBelow t
    → t.next_item_deck_oid + 1 < 2 ^ 16
    → lookup uid t.racers ≡ some r
    → let added = (add_event_item uid t).1 in
      (item : EventItem) × ((add_event_item uid t).0 ≡ returned item)
      × (contains item.oid t.item_decks ≡ false)
      × (find_item item.oid r.event_items ≡ none)
      × (get_event_item uid item.oid added ≡ returned item)
      × (find_event_item uid item.oid (remove_event_item uid item.oid added).1
          ≡ returned invalid_entity_oid)
      × (get_event_item uid item.oid (remove_event_item uid item.oid added).1 ≡ threw runtime_error)
      × IsBelow added
add_event_item-new uid r t b h e =
    let oid : ℕ = t.next_item_deck_oid in
    let item : EventItem = record { oid = oid; item_type = 0 } in
    let q : Racer = record r { event_items = r.event_items ++ (item ∷ []) } in
    let added : RaceTracker = record t {
      racers = insert uid q t.racers;
      next_item_deck_oid = oid + 1;
    } in
    let new = b.events uid oid r e (omega arith) in
    let there : lookup uid added.racers ≡ some q =
      ground (arith, lookup-insert uid uid q t.racers) in
    let found : find_item oid q.event_items ≡ some item =
      ground (arith, find_item-append oid r.event_items item new) in
    let less : Racer = record q { event_items = erase_items oid q.event_items } in
    let gone =
      (get_event_item_eq uid oid less (remove_event_item uid oid added).1
          (removed uid oid q added there)).0
        (ground (arith, find_item-erase_items oid oid q.event_items)) in
    rw (add_event_item_eq uid r t e h) (
      item,
      refl,
      b.decks oid (omega arith),
      new,
      (get_event_item_eq uid oid q added there).1 item found,
      gone.1,
      gone.0,
      item-IsBelow uid item r t b e refl,
    )
