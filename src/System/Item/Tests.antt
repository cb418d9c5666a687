-- ===== src/System/Item/Tests.antt =====
-- The items at concrete inputs.
use alicia_server.Common.{ℕ, ◌≡◌, ◌⊎◌, refl, All, [], ◌∷◌, true, false}
use alicia_server.Common.Map.{lookup, contains}
use alicia_server.System.Item.{
  Item, Character, ItemCache, are_at_hand, first_of, search_items, get_item, consume_item, add_item,
}
use alicia_server.System.Item.Consumed.{
  IsOther, IsFirst, TakesNothing, TakesSome, TakesAll, consume_item-cases,
}
use alicia_server.System.Item.Restored.{add_item-consume_item}

abbrev feed : Item
feed = record { tid = 41; count = 3; duration = 0; created_at = 10 }

abbrev shampoo : Item
shampoo = record { tid = 42; count = 1; duration = 0; created_at = 10 }

abbrev owner : Character
owner = record { inventory = 5 ∷ 6 ∷ []; character_equipment = [] }

abbrev stock : ItemCache
stock = record { items = (5, feed) ∷ (6, shampoo) ∷ []; deletions = [] }

-- Of three portions of feed one is taken.
consume_item-cases_example :
    (((are_at_hand owner.inventory stock.items ≡ false)
        ⊎ All (IsOther 41 stock.items) owner.inventory)
      × TakesNothing owner stock (consume_item 41 1 owner stock))
    ⊎ ((uid : ℕ) × (item : Item) × IsFirst 41 uid item owner.inventory stock.items
        × (TakesSome 1 uid item owner stock (consume_item 41 1 owner stock)
            ⊎ TakesAll 1 uid item owner stock (consume_item 41 1 owner stock)))
consume_item-cases_example = consume_item-cases 41 1 owner stock

-- A saddle of which the owner has none is given under the uid 7, twice, and consumed.
add_item-consume_item_example :
    let added = add_item 20 7 50 2 owner stock in
    let done = consume_item 50 2 added.1 added.2 in
    (done.0.item_consumed ≡ true) × (done.1 ≡ owner) × (done.2.deletions ≡ 7 ∷ [])
unfolding get_item search_items are_at_hand first_of contains lookup
add_item-consume_item_example = add_item-consume_item 20 7 50 2 owner stock refl refl refl refl
