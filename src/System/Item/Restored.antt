-- ===== src/System/Item/Restored.antt =====
-- A new item of src/server/system/ItemSystem.cpp that is consumed again.
use alicia_server.Common.{
  ℕ, ◌≡◌, inl, inr, refl, ap, ◌∙◌, arith, List, [], ◌∷◌, ◌++◌, true, false, none, some, member,
}
use alicia_server.Common.Map.{Map, lookup, insert, lookup-insert, contains-insert}
use alicia_server.System.Item.{
  Item, Character, ItemCache, invalid_uid, are_at_hand, first_of, search_items, get_item, add_item,
  without, consume_from, consume_item,
}
use alicia_server.System.Item.Held.{first_of-cases}
use alicia_server.System.Item.Consumed.{consume_item_found}

module _ (created : ℕ) (made : Item) where
  without-append :
      (uids : List ℕ) → member created uids ≡ false → without created (uids ++ created ∷ []) ≡ uids
  unfolding without
  without-append [] new = ground arith
  without-append (uid ∷ uids) new = ground (arith, new, without-append uids)

  first_of-append :
      (uids : List ℕ) (items : Map Item)
      → member created uids ≡ false
      → first_of made.tid uids items ≡ none
      → first_of made.tid (uids ++ created ∷ []) (insert created made items) ≡ some created
  unfolding first_of
  first_of-append [] items new e = ground (arith, lookup-insert created created made items)
  first_of-append (uid ∷ uids) items new e =
      ground (arith, new, e, lookup-insert created uid made items, first_of-append uids items)

  are_at_hand-append :
      (uids : List ℕ) (items : Map Item)
      → are_at_hand uids items ≡ true
      → are_at_hand (uids ++ created ∷ []) (insert created made items) ≡ true
  unfolding are_at_hand
  are_at_hand-append [] items e = ground (arith, contains-insert created created made items)
  are_at_hand-append (uid ∷ uids) items e =
      ground (arith, e, contains-insert created uid made items, are_at_hand-append uids items)

-- Where nothing is found in an inventory whose records are at hand, there is nothing.
not_found :
    (tid : ℕ) (uids : List ℕ) (items : Map Item)
    → are_at_hand uids items ≡ true
    → member invalid_uid uids ≡ false
    → search_items tid uids items ≡ invalid_uid
    → first_of tid uids items ≡ none
unfolding search_items
not_found tid uids items at_hand valid e = elim (first_of-cases tid uids items) [
  | inl f ↦ f
  | inr (uid, item, f, m, g, k) ↦
      let zero_uid : uid ≡ invalid_uid = ground (arith, at_hand, f, e) in
      ground (arith, rw (zero_uid) at m, valid)
]

add_item_new :
    (now created tid count : ℕ) (character : Character) (cache : ItemCache)
    → get_item tid character cache ≡ invalid_uid
    → let made : Item = record { tid = tid; count = count; duration = 0; created_at = now } in
      add_item now created tid count character cache ≡ (
        created,
        record character { inventory = character.inventory ++ created ∷ [] },
        record cache { items = insert created made cache.items },
      )
unfolding add_item
add_item_new now created tid count character cache e = ground (arith, e)

get_item-inventory :
    (tid : ℕ) (character : Character) (cache : ItemCache)
    → get_item tid character cache ≡ invalid_uid
    → search_items tid character.inventory cache.items ≡ invalid_uid
unfolding get_item
get_item-inventory tid character cache e = ground (arith, e)

lookup_inserted :
    (created : ℕ) (made : Item) (items : Map Item)
    → lookup created (insert created made items) ≡ some made
lookup_inserted created made items = ground (arith, lookup-insert created created made items)

consume_from_all :
    (count uid : ℕ) (item : Item) (character : Character) (cache : ItemCache)
    → item.count ≡ count
    → let done = consume_from count uid item character cache in
      (done.0.item_consumed ≡ true)
      × (done.1 ≡ record character { inventory = without uid character.inventory })
      × (done.2.deletions ≡ uid ∷ cache.deletions)
unfolding consume_from
consume_from_all count uid item character cache e = ground (arith, e)

-- A character without an item of a kind who is given some and consumes as many ends with the items
-- from before, the consumption succeeds, and the record that was made is to be deleted; the new uid
-- is one that the inventory does not have.
pub add_item-consume_item :
    (now created tid count : ℕ) (character : Character) (cache : ItemCache)
    → get_item tid character cache ≡ invalid_uid
    → are_at_hand character.inventory cache.items ≡ true
    → member invalid_uid character.inventory ≡ false
    → member created character.inventory ≡ false
    → let added = add_item now created tid count character cache in
      let done = consume_item tid count added.1 added.2 in
      (done.0.item_consumed ≡ true)
      × (done.1 ≡ character)
      × (done.2.deletions ≡ created ∷ cache.deletions)
add_item-consume_item now created tid count character cache e at_hand valid new =
    let made : Item = record { tid = tid; count = count; duration = 0; created_at = now } in
    let empty =
      not_found tid character.inventory cache.items at_hand valid
        (get_item-inventory tid character cache e) in
    let made_of = character.inventory ++ created ∷ [] in
    let more = insert created made cache.items in
    let holder : Character = record character { inventory = made_of } in
    let stock : ItemCache = record cache { items = more } in
    let all = consume_from_all count created made holder stock refl in
    rw (add_item_new now created tid count character cache e) (
      rw
        (consume_item_found tid count created made holder stock
          (are_at_hand-append created made character.inventory cache.items at_hand)
          (first_of-append created made character.inventory cache.items new empty)
          (lookup_inserted created made cache.items))
        (
          all.0,
          all.1
              ∙ ap (λ (l : List ℕ). record character { inventory = l })
                  (without-append created made character.inventory new),
          all.2,
        ))
