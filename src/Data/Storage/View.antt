-- ===== src/Data/Storage/View.antt =====
-- What a cache and its data source hold together: the datum of an available entry, and else what the
-- source has; and how one round of each loop of include/libserver/data/DataStorage.hpp changes it.
use alicia_server.Common.{
  ℕ, ◌≡◌, ◌≢◌, ◌⊎◌, inl, inr, refl, sym, ◌∙◌, arith, true, false, Option, none, some, if◌then◌else◌,
  Bool-cases, eq-cases,
}
use alicia_server.Common.Map.{Map, lookup, insert, lookup-insert}
use alicia_server.Data.Storage.{Entry, DataSource, entry_at, retrieve_one, store_one, delete_one}

-- What the cache relies on: `stored` is what the source has of a key. A listener only touches the
-- datum of its key, and answers the truth when it answers success.
pub record IsKeyed {D S : Type 0} (source : DataSource D S) (stored : ℕ → S → Option D)
    : Type 0 where
  pub retrieved :
      (key : ℕ) (datum : D) (state : S)
      → (source.retrieve key datum state).0 ≡ true
      → stored key state ≡ some ((source.retrieve key datum state).1)
  pub retrieve_keeps :
      (key other : ℕ) (datum : D) (state : S)
      → stored other (source.retrieve key datum state).2 ≡ stored other state
  pub store_keeps :
      (key other : ℕ) (datum : D) (state : S)
      → key ≢ other
      → stored other (source.store key datum state).2 ≡ stored other state
  pub store_datum : (key : ℕ) (datum : D) (state : S) → (source.store key datum state).1 ≡ datum
  pub written :
      (key : ℕ) (datum : D) (state : S)
      → (source.store key datum state).0 ≡ true
      → stored key (source.store key datum state).2 ≡ some datum
  pub delete_keeps :
      (key other : ℕ) (state : S)
      → key ≢ other
      → stored other (source.delete key state).1 ≡ stored other state
  pub deleted :
      (key : ℕ) (state : S)
      → (source.delete key state).0 ≡ true
      → stored key (source.delete key state).1 ≡ none
  pub delete_fails :
      (key : ℕ) (state : S)
      → (source.delete key state).0 ≡ false
      → stored key (source.delete key state).1 ≡ stored key state

module _ {D S : Type 0} (blank : D) (stored : ℕ → S → Option D) where
  -- the datum of a key, for whoever does not care where it is held
  abbrev pub held : Option (Entry D) → Option D → Option D
  held none below = below
  held (some entry) below = if entry.available then some entry.value else below

  unfoldable pub seen : ℕ → Map (Entry D) → S → Option D
  seen key m state = held (lookup key m) (stored key state)

  pub seen-absent :
      (key : ℕ) (m : Map (Entry D)) (state : S)
      → lookup key m ≡ none
      → seen key m state ≡ stored key state
  unfolding seen
  seen-absent key m state new = simp new

  pub seen-insert_self :
      (key : ℕ) (entry : Entry D) (m : Map (Entry D)) (state : S)
      → seen key (insert key entry m) state ≡ held (some entry) (stored key state)
  unfolding seen
  seen-insert_self key entry m state = ground (arith, lookup-insert key key entry m)

  pub seen-insert_ne :
      (key other : ℕ) (entry : Entry D) (m : Map (Entry D)) (state after : S)
      → key ≢ other
      → stored other after ≡ stored other state
      → seen other (insert key entry m) after ≡ seen other m state
  unfolding seen
  seen-insert_ne key other entry m state after ne rest =
      ground (arith, rest, lookup-insert key other entry m)

  -- Only the entry of `key` and what the source has of it are touched.
  seen-insert :
      (key other : ℕ) (entry : Entry D) (m : Map (Entry D)) (state after : S)
      → held (some entry) (stored key after) ≡ seen key m state
      → (key ≢ other → stored other after ≡ stored other state)
      → seen other (insert key entry m) after ≡ seen other m state
  unfolding seen
  seen-insert key other entry m state after same rest = elim (eq-cases key other) [
    | inl e ↦ ground (arith, e, same, lookup-insert key other entry m)
    | inr ne ↦ ground (arith, rest ne, lookup-insert key other entry m)
  ]

  -- the datum of the entry that _entries[key] refers to
  pub seen-entry_at :
      (key : ℕ) (m : Map (Entry D)) (state : S)
      → held (some (entry_at blank key m)) (stored key state) ≡ seen key m state
  unfolding seen
  seen-entry_at key m state = ground arith

  module _ (source : DataSource D S) (laws : IsKeyed source stored) where
    -- A retrieval of a key that only the source has.
    pub seen-retrieve_one :
        (now key other : ℕ) (m : Map (Entry D)) (state : S)
        → (entry_at blank key m).available ≡ false
        → let done = retrieve_one blank source now key m state in
          seen other done.0 done.1 ≡ seen other m state
    unfolding retrieve_one
    seen-retrieve_one now key other m state away =
        let entry = entry_at blank key m in
        seen-insert key other _ m state (source.retrieve key entry.value state).2
          (ground (
            arith,
            laws.retrieve_keeps key key entry.value state,
            laws.retrieved key entry.value state,
            seen-entry_at key m state,
            away,
          ))
          (λ ne. laws.retrieve_keeps key other entry.value state)

    pub seen-store_one :
        (key other : ℕ) (m : Map (Entry D)) (state : S)
        → let done = store_one blank source key m state in
          seen other done.0 done.1 ≡ seen other m state
    unfolding store_one
    seen-store_one key other m state =
        let entry = entry_at blank key m in
        let before = seen-entry_at key m state in
        elim (Bool-cases entry.available) [
          | inl h ↦ rw (h) (
              seen-insert key other _ m state (source.store key entry.value state).2
                (ground (arith, before, h, laws.store_datum key entry.value state))
                (λ ne. laws.store_keeps key other entry.value state ne))
          | inr h ↦ rw (h) (seen-insert key other entry m state state before (λ ne. refl))
        ]

    -- A deletion leaves what is seen, or nothing at its key.
    pub seen-delete_one :
        (key other : ℕ) (m : Map (Entry D)) (state : S)
        → let done = delete_one blank source key m state in
          (seen other done.0 done.1 ≡ seen other m state)
          ⊎ ((key ≡ other) × (seen other done.0 done.1 ≡ none))
    unfolding delete_one
    seen-delete_one key other m state =
        let entry = entry_at blank key m in
        let before = seen-entry_at key m state in
        let after = (source.delete key state).1 in
        elim (Bool-cases entry.available) [
          | inr h ↦ inl (rw (h) (seen-insert key other entry m state state before (λ ne. refl)))
          | inl h ↦ rw (h) (elim (eq-cases key other) [
            | inr ne ↦
                inl (
                  seen-insert_ne key other _ m state after ne
                    (laws.delete_keeps key other state ne))
            | inl e ↦ rw (sym e) (elim (Bool-cases (source.delete key state).0) [
              | inl b ↦
                  inr (refl, rw (b) (seen-insert_self key _ m after ∙ laws.deleted key state b))
              | inr b ↦
                  inl (rw (b) (seen-insert_self key entry m after ∙ ground (arith, before, h)))
            ])
          ])
        ]
