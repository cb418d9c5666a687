-- ===== src/System/Item.antt =====
-- ItemSystem of src/server/system/ItemSystem.cpp.
--
-- The records that the item cache has at hand are a map by uid, the items of a character two lists of
-- uids. Asking the cache for the records of a list gives nothing when one of them is not at hand. A
-- record whose deletion was asked for stays at hand until the cache deletes it. No record has the uid
-- 0, and the creation of a record succeeds. Times are in seconds.
pub mod Consumed
pub mod Held
pub mod Restored
mod Tests
use alicia_server.Common.{
  ℕ, ◌+◌, ◌-◌, ◌%◌, ◌^◌, List, [], ◌∷◌, ◌++◌, Bool, true, false, Option, none, some, ltb, leb, ◌==◌,
  if◌then◌else◌, member, is_some,
}
use alicia_server.Common.Map.{Map, lookup, insert, contains}

-- data::Item
pub record Item : Type 0 where
  pub tid : ℕ
  pub count : ℕ
  pub duration : ℕ
  pub created_at : ℕ

-- the fields of data::Character that the system uses
pub record Character : Type 0 where
  pub inventory : List ℕ
  pub character_equipment : List ℕ

-- the item cache
pub record ItemCache : Type 0 where
  pub items : Map Item
  pub deletions : List ℕ

pub record ConsumeVerdict : Type 0 where
  pub item_consumed : Bool
  pub item_uid : ℕ
  pub remaining_item_count : ℕ

abbrev pub invalid_uid : ℕ
invalid_uid = 0

abbrev pub no_verdict : ConsumeVerdict
no_verdict = record { item_consumed = false; item_uid = invalid_uid; remaining_item_count = 0 }

-- whether the cache gives the records of a list
unfoldable pub are_at_hand : List ℕ → Map Item → Bool
are_at_hand [] items = true
are_at_hand (uid ∷ uids) items =
    let rest = are_at_hand uids items in if contains uid items then rest else false

-- the first item of a kind in a list
unfoldable pub first_of : ℕ → List ℕ → Map Item → Option ℕ
first_of tid [] items = none
first_of tid (uid ∷ uids) items =
    let rest = first_of tid uids items in
    elim (lookup uid items) [ none ↦ rest | some item ↦ if item.tid == tid then some uid else rest ]

-- the lambda searchItems
unfoldable pub search_items : ℕ → List ℕ → Map Item → ℕ
search_items tid uids items =
    if are_at_hand uids items
    then elim (first_of tid uids items) [ none ↦ invalid_uid | some uid ↦ uid ]
    else invalid_uid

-- ItemSystem::GetItem
unfoldable pub get_item : ℕ → Character → ItemCache → ℕ
get_item tid character cache =
    let found = search_items tid character.inventory cache.items in
    if found == invalid_uid
    then search_items tid character.character_equipment cache.items
    else found

-- a change of the record of an item
abbrev pub change : ℕ → (Item → Item) → ItemCache → ItemCache
change uid f cache = elim (lookup uid cache.items) [
  | none ↦ cache
  | some item ↦ record cache { items = insert uid (f item) cache.items }
]

-- ItemSystem::AddItem for a count; `created` is the uid of a record that the data director makes
unfoldable pub add_item :
    (now created tid count : ℕ) → Character → ItemCache → ℕ × Character × ItemCache
add_item now created tid count character cache =
    let uid = get_item tid character cache in
    if uid == invalid_uid
    then (
      created,
      record character { inventory = character.inventory ++ created ∷ [] },
      record cache {
        items =
            insert created (record { tid = tid; count = count; duration = 0; created_at = now })
              cache.items;
      },
    )
    else (
      if contains uid cache.items then uid else invalid_uid,
      character,
      change uid (λ (item : Item). record item { count = (item.count + count) % 2 ^ 32 }) cache,
    )

-- what AddItem does to the lifetime of an item: one that has expired begins anew
unfoldable pub extended : (now duration : ℕ) → Item → Item
extended now duration item =
    if leb (item.created_at + item.duration) now
    then record item { created_at = now; duration = duration }
    else record item { duration = item.duration + duration }

-- ItemSystem::AddItem for a duration
unfoldable pub add_lasting_item :
    (now created tid duration : ℕ) → Character → ItemCache → ℕ × Character × ItemCache
add_lasting_item now created tid duration character cache =
    let uid = get_item tid character cache in
    if uid == invalid_uid
    then (
      created,
      record character { inventory = character.inventory ++ created ∷ [] },
      record cache {
        items =
            insert created (record { tid = tid; count = 1; duration = duration; created_at = now })
              cache.items;
      },
    )
    else (
      if contains uid cache.items then uid else invalid_uid,
      character,
      change uid (extended now duration) cache,
    )

-- std::ranges::remove, with the erasure of the rest
unfoldable pub without : ℕ → List ℕ → List ℕ
without uid [] = []
without uid (x ∷ xs) = let rest = without uid xs in if x == uid then rest else x ∷ rest

-- an item leaves the inventory, and its record is to be deleted
abbrev pub drop_item : ℕ → Character → ItemCache → Character × ItemCache
drop_item uid character cache = (
  record character { inventory = without uid character.inventory },
  record cache { deletions = uid ∷ cache.deletions },
)

-- ItemSystem::RemoveItem
unfoldable pub remove_item : ℕ → Character → ItemCache → Character × ItemCache
remove_item tid character cache =
    let uid = search_items tid character.inventory cache.items in
    if uid == invalid_uid then (character, cache) else drop_item uid character cache

-- what ConsumeItem does with the first item of the kind
unfoldable pub consume_from :
    (count uid : ℕ) → Item → Character → ItemCache → ConsumeVerdict × Character × ItemCache
consume_from count uid item character cache =
    let left = item.count - count in
    let remaining = if leb count item.count then left else 0 in
    let taken =
      if leb count item.count
      then record cache { items = insert uid (record item { count = left }) cache.items }
      else cache in
    if remaining == 0
    then (
      record {
        item_consumed = leb count item.count;
        item_uid = invalid_uid;
        remaining_item_count = 0;
      },
      (drop_item uid character taken).0,
      (drop_item uid character taken).1,
    )
    else (
      record {
        item_consumed = leb count item.count;
        item_uid = uid;
        remaining_item_count = remaining;
      },
      character,
      taken,
    )

-- ItemSystem::ConsumeItem
unfoldable pub consume_item :
    (tid count : ℕ) → Character → ItemCache → ConsumeVerdict × Character × ItemCache
consume_item tid count character cache =
    if are_at_hand character.inventory cache.items
    then elim (first_of tid character.inventory cache.items) [
      | none ↦ (no_verdict, character, cache)
      | some uid ↦ elim (lookup uid cache.items) [
        | none ↦ (no_verdict, character, cache)
        | some item ↦ consume_from count uid item character cache
      ]
    ]
    else (no_verdict, character, cache)

-- the lambda HasItemWithTid
unfoldable pub has_item_with_tid : ℕ → List ℕ → Map Item → Bool
has_item_with_tid tid uids items =
    if are_at_hand uids items then is_some (first_of tid uids items) else false

-- ItemSystem::HasItem
unfoldable pub has_item : ℕ → Character → ItemCache → Bool
has_item tid character cache =
    if has_item_with_tid tid character.inventory cache.items
    then true
    else has_item_with_tid tid character.character_equipment cache.items

-- ItemSystem::HasItemInstance
unfoldable pub has_item_instance : ℕ → Character → Bool
has_item_instance uid character =
    if member uid character.inventory then true else member uid character.character_equipment
