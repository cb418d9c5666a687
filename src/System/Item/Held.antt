-- ===== src/System/Item/Held.antt =====
-- Looking for items in src/server/system/ItemSystem.cpp.
use alicia_server.Common.{
  ℕ, ◌≡◌, ◌≢◌, ◌↔◌, ◌⊎◌, inl, inr, refl, arith, List, [], ◌∷◌, true, false, none, some, member,
  Option-cases, eq-cases,
}
use alicia_server.Common.Map.{Map, lookup}
use alicia_server.System.Item.{
  Item, Character, ItemCache, invalid_uid, first_of, search_items, get_item, has_item,
  has_item_with_tid,
}

-- An item that is found stands in the list, has its record at hand, and is of the kind.
pub first_of-cases :
    (tid : ℕ) (uids : List ℕ) (items : Map Item)
    → (first_of tid uids items ≡ none)
      ⊎ ((uid : ℕ) × (item : Item) × (first_of tid uids items ≡ some uid)
          × (member uid uids ≡ true)
          × (lookup uid items ≡ some item)
          × (item.tid ≡ tid))
unfolding first_of
first_of-cases tid [] items = inl refl
first_of-cases tid (uid ∷ uids) items = elim (Option-cases (lookup uid items)) [
  | inl e ↦ elim (first_of-cases tid uids items) [
    | inl f ↦ inl (ground (arith, e, f))
    | inr (u, item, f, m, g, k) ↦ inr (u, item, ground (arith, e, f), ground (arith, m), g, k)
  ]
  | inr (item, e) ↦ elim (eq-cases item.tid tid) [
    | inl k ↦ inr (uid, item, ground (arith, e, k), ground arith, e, k)
    | inr ne ↦ elim (first_of-cases tid uids items) [
      | inl f ↦ inl (ground (arith, e, ne, f))
      | inr (u, other, f, m, g, k) ↦
          inr (u, other, ground (arith, e, ne, f), ground (arith, m), g, k)
    ]
  ]
]

search_items_iff :
    (tid : ℕ) (uids : List ℕ) (items : Map Item)
    → member invalid_uid uids ≡ false
    → (search_items tid uids items ≢ invalid_uid) ↔ (has_item_with_tid tid uids items ≡ true)
unfolding search_items has_item_with_tid
search_items_iff tid uids items valid = elim (first_of-cases tid uids items) [
  | inl e ↦ ground (arith, e)
  | inr (uid, item, e, m, g, k) ↦ elim (eq-cases uid invalid_uid) [
    | inl z ↦ ground (arith, rw (z) at m, valid)
    | inr ne ↦ ground (arith, e, ne)
  ]
]

-- When no item has the invalid uid, a character has an item of a kind exactly when GetItem finds one,
-- in the inventory or among the equipment, also when some of the records are not at hand.
pub has_item_iff :
    (tid : ℕ) (character : Character) (cache : ItemCache)
    → member invalid_uid character.inventory ≡ false
    → member invalid_uid character.character_equipment ≡ false
    → (has_item tid character cache ≡ true) ↔ (get_item tid character cache ≢ invalid_uid)
unfolding has_item get_item
has_item_iff tid character cache bag worn = ground (
  arith,
  search_items_iff tid character.inventory cache.items bag,
  search_items_iff tid character.character_equipment cache.items worn,
)
