-- ===== src/System/Item/Consumed.antt =====
-- What a consumption takes in src/server/system/ItemSystem.cpp.
use alicia_server.Common.{
  ℕ, ◌-◌, ◌<◌, ◌≤◌, ◌≡◌, ◌≢◌, ◌⊎◌, inl, inr, refl, ap, arith, List, [], ◌∷◌, ◌++◌, All, true, false,
  none, some, ◌==◌, if◌then◌else◌, Bool-cases, Option-cases, eq-cases,
}
use alicia_server.Common.Map.{Map, lookup, insert, contains}
use alicia_server.System.Item.{
  Item, Character, ItemCache, ConsumeVerdict, invalid_uid, no_verdict, are_at_hand, first_of,
  without, consume_from, consume_item,
}

-- The character and the cache are as before.
abbrev pub TakesNothing : Character → ItemCache → ConsumeVerdict × Character × ItemCache → Type 0
TakesNothing character cache done = done ≡ (no_verdict, character, cache)

-- The item has more than the count, which is taken.
abbrev pub TakesSome :
    (count uid : ℕ) → Item → Character → ItemCache → ConsumeVerdict × Character × ItemCache → Type 0
TakesSome count uid item character cache done =
    (count < item.count)
    × (done ≡ (
      record { item_consumed = true; item_uid = uid; remaining_item_count = item.count - count },
      character,
      record cache { items = insert uid (record item { count = item.count - count }) cache.items },
    ))

-- The item has no more than the count: it leaves the inventory, and its record is to be deleted. The
-- answer tells whether it had as many, and only then is the record itself changed.
abbrev pub TakesAll :
    (count uid : ℕ) → Item → Character → ItemCache → ConsumeVerdict × Character × ItemCache → Type 0
TakesAll count uid item character cache done =
    (item.count ≤ count)
    × (done.0 ≡ record {
      item_consumed = item.count == count;
      item_uid = invalid_uid;
      remaining_item_count = 0;
    })
    × (done.1 ≡ record character { inventory = without uid character.inventory })
    × (done.2.deletions ≡ uid ∷ cache.deletions)
    × (done.2.items ≡ (
        if item.count == count
        then insert uid (record item { count = 0 }) cache.items
        else cache.items))

-- An item of another kind whose record is at hand.
abbrev pub IsOther : (tid : ℕ) → Map Item → ℕ → Type 0
IsOther tid items uid = (item : Item) × (lookup uid items ≡ some item) × (item.tid ≢ tid)

-- The first item of a kind in a list: those before it are of other kinds.
abbrev pub IsFirst : (tid uid : ℕ) → Item → List ℕ → Map Item → Type 0
IsFirst tid uid item uids items =
    (before : List ℕ) × (behind : List ℕ) × (uids ≡ before ++ uid ∷ behind)
    × All (IsOther tid items) before
    × (lookup uid items ≡ some item)
    × (item.tid ≡ tid)

-- What is found in a list whose records are all at hand.
first_of-IsFirst :
    (tid : ℕ) (uids : List ℕ) (items : Map Item)
    → are_at_hand uids items ≡ true
    → ((first_of tid uids items ≡ none) × All (IsOther tid items) uids)
      ⊎ ((uid : ℕ) × (item : Item) × (first_of tid uids items ≡ some uid)
          × IsFirst tid uid item uids items)
unfolding first_of are_at_hand contains
first_of-IsFirst tid [] items all_there = inl (refl, tt)
first_of-IsFirst tid (uid ∷ uids) items all_there = elim (Option-cases (lookup uid items)) [
  | inl e ↦ absurd (ground (arith, e, all_there))
  | inr (item, e) ↦ elim (eq-cases item.tid tid) [
    | inl k ↦ inr (uid, item, ground (arith, e, k), ([], uids, refl, tt, e, k))
    | inr ne ↦ elim (first_of-IsFirst tid uids items (ground (arith, all_there))) [
      | inl (f, others) ↦ inl (ground (arith, e, ne, f), ((item, e, ne), others))
      | inr (u, other, f, (before, behind, same, others, g, k)) ↦ inr (
        u,
        other,
        ground (arith, e, ne, f),
        (uid ∷ before, behind, ap (λ (l : List ℕ). uid ∷ l) same, ((item, e, ne), others), g, k),
      )
    ]
  ]
]

consume_from-cases :
    (count uid : ℕ) (item : Item) (character : Character) (cache : ItemCache)
    → TakesSome count uid item character cache (consume_from count uid item character cache)
      ⊎ TakesAll count uid item character cache (consume_from count uid item character cache)
unfolding consume_from
consume_from-cases count uid item character cache = ground arith

consume_item_nothing :
    (tid count : ℕ) (character : Character) (cache : ItemCache)
    → (are_at_hand character.inventory cache.items ≡ false)
      ⊎ (first_of tid character.inventory cache.items ≡ none)
    → TakesNothing character cache (consume_item tid count character cache)
unfolding consume_item
consume_item_nothing tid count character cache h = ground (arith, h)

pub consume_item_found :
    (tid count uid : ℕ) (item : Item) (character : Character) (cache : ItemCache)
    → are_at_hand character.inventory cache.items ≡ true
    → first_of tid character.inventory cache.items ≡ some uid
    → lookup uid cache.items ≡ some item
    → consume_item tid count character cache ≡ consume_from count uid item character cache
unfolding consume_item
consume_item_found tid count uid item character cache e f g = ground (arith, e, f, g)

-- A consumption changes nothing when the records of the inventory are not all at hand, or all are of
-- other kinds. Else it looks at the first item of the kind, and at no other record: of more than the
-- count the count is taken; as many are consumed and the item leaves the inventory. Of fewer nothing is
-- consumed by the answer, but the item leaves the inventory and its record is to be deleted all the
-- same.
pub consume_item-cases :
    (tid count : ℕ) (character : Character) (cache : ItemCache)
    → let done = consume_item tid count character cache in
      (((are_at_hand character.inventory cache.items ≡ false)
          ⊎ All (IsOther tid cache.items) character.inventory)
        × TakesNothing character cache done)
      ⊎ ((uid : ℕ) × (item : Item) × IsFirst tid uid item character.inventory cache.items
          × (TakesSome count uid item character cache done
              ⊎ TakesAll count uid item character cache done))
consume_item-cases tid count character cache =
    elim (Bool-cases (are_at_hand character.inventory cache.items)) [
      | inr e ↦ inl (inl e, consume_item_nothing tid count character cache (inl e))
      | inl e ↦ elim (first_of-IsFirst tid character.inventory cache.items e) [
        | inl (f, others) ↦ inl (inr others, consume_item_nothing tid count character cache (inr f))
        | inr (uid, item, f, (before, behind, same, others, g, k)) ↦ inr (
          uid,
          item,
          (before, behind, same, others, g, k),
          rw (consume_item_found tid count uid item character cache e f g)
              (consume_from-cases count uid item character cache),
        )
      ]
    ]
