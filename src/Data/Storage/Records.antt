-- ===== src/Data/Storage/Records.antt =====
-- What a caller gets from the cache of include/libserver/data/DataStorage.hpp.
use alicia_server.Common.{
  ℕ, ◌≡◌, ◌≢◌, ◌⊎◌, inl, inr, refl, sym, ◌∙◌, arith, true, false, Option, none, some, List, [], ◌∷◌,
  member, Bool-cases,
}
use alicia_server.Common.Map.{Map, lookup, insert, contains, lookup-insert}
use alicia_server.Common.Outcome.{returned, threw, runtime_error}
use alicia_server.Data.Storage
use alicia_server.Data.Storage.{
  Entry, DataStorage, DataSource, Queue, entry_at, new_entry, request, each, get, create,
  retrieve_one, store_one, delete_one, process_retrieve_queue, process_store_queue,
  process_delete_queue,
}
use alicia_server.Data.Storage.View.{IsKeyed, seen, seen-absent, seen-entry_at}
use alicia_server.Data.Storage.Queues.{entry_at-insert}
use alicia_server.Data.Storage.Abstract.{Inv}
use alicia_server.Data.Storage.Kept.{get-Inv}
use alicia_server.Data.Storage.Ticks.{
  process_retrieve_queue-cases, process_store_queue-cases, process_delete_queue-cases,
}
use alicia_server.Data.Storage.Refinement.{tick-Follows, get-AreAlike}

-- A source that never fails to retrieve.
abbrev pub Retrieves : {D S : Type 0} → DataSource D S → Type 0
Retrieves {D} {S} source =
    (key : ℕ) (datum : D) (state : S) → (source.retrieve key datum state).0 ≡ true

module _ {D : Type 0} (blank : D) where
  -- Creating a datum throws exactly when its key has an entry already, also one that is only being
  -- retrieved, and then nothing changes. Else the datum can be taken at once, and it waits to be
  -- stored.
  pub create-get :
      (key : ℕ) (datum : D) (s : DataStorage D)
      → ((contains key s.entries ≡ true) × (create blank key datum s ≡ (threw runtime_error, s)))
        ⊎ ((contains key s.entries ≡ false)
            × ((create blank key datum s).0 ≡ returned key)
            × (let made = (create blank key datum s).1 in
                (get blank key true made ≡ (some key, made))
                × ((entry_at blank key made.entries).value ≡ datum)
                × (member key made.store_queue.keys ≡ true)
                × (made.store_queue.data_flag ≡ true)))
  unfolding create get contains
  create-get key datum s =
      let entry = record (new_entry blank) { value = datum; available = true } in
      ground (arith, lookup-insert key key entry s.entries)

  module _ {S : Type 0} (source : DataSource D S) where
    available-retrieve_one :
        Retrieves source
        → (now key k : ℕ) (m : Map (Entry D)) (state : S)
        → (key ≡ k) ⊎ ((entry_at blank k m).available ≡ true)
        → (entry_at blank k (retrieve_one blank source now key m state).0).available ≡ true
    unfolding retrieve_one
    available-retrieve_one retrieves now key k m state given =
        let entry = entry_at blank key m in
        rw (entry_at-insert blank key k _ m, retrieves key entry.value state)
          (ground (arith, given))

    available-each-retrieve :
        Retrieves source
        → (now : ℕ) (keys : List ℕ) (k : ℕ) (m : Map (Entry D)) (state : S)
        → (member k keys ≡ true) ⊎ ((entry_at blank k m).available ≡ true)
        → (entry_at blank k (each (retrieve_one blank source now) keys m state).0).available ≡ true
    unfolding each
    available-each-retrieve retrieves now [] k m state given = ground arith
    available-each-retrieve retrieves now (key ∷ keys) k m state given =
        let done = retrieve_one blank source now key m state in
        available-each-retrieve retrieves now keys k done.0 done.1
          (ground (arith, available-retrieve_one retrieves now key k m state))

    -- An entry takes the place of one that is as available.
    available-insert :
        (key k : ℕ) (entry : Entry D) (m : Map (Entry D))
        → (key ≡ k → entry.available ≡ (entry_at blank key m).available)
        → (entry_at blank k (insert key entry m)).available ≡ (entry_at blank k m).available
    available-insert key k entry m same =
        rw (entry_at-insert blank key k entry m) (ground (arith, same))

    available-store_one :
        (key k : ℕ) (m : Map (Entry D)) (state : S)
        → (entry_at blank k (store_one blank source key m state).0).available
          ≡ (entry_at blank k m).available
    unfolding store_one
    available-store_one key k m state = elim (Bool-cases (entry_at blank key m).available) [
      | inl e ↦ rw (e) (available-insert key k _ m (λ h. sym e))
      | inr e ↦ rw (e) (available-insert key k _ m (λ h. refl))
    ]

    available-delete_one :
        (key k : ℕ) (m : Map (Entry D)) (state : S)
        → key ≢ k
        → (entry_at blank k (delete_one blank source key m state).0).available
          ≡ (entry_at blank k m).available
    unfolding delete_one
    available-delete_one key k m state ne = elim (Bool-cases (entry_at blank key m).available) [
      | inl e ↦ rw (e) (available-insert key k _ m (λ h. absurd (ne h)))
      | inr e ↦ rw (e) (available-insert key k _ m (λ h. absurd (ne h)))
    ]

    available-each-store :
        (keys : List ℕ) (k : ℕ) (m : Map (Entry D)) (state : S)
        → (entry_at blank k (each (store_one blank source) keys m state).0).available
          ≡ (entry_at blank k m).available
    unfolding each store_one
    available-each-store [] k m state = refl
    available-each-store (key ∷ keys) k m state =
        let done = store_one blank source key m state in
        available-each-store keys k done.0 done.1 ∙ available-store_one key k m state

    available-each-delete :
        (keys : List ℕ) (k : ℕ) (m : Map (Entry D)) (state : S)
        → member k keys ≡ false
        → (entry_at blank k (each (delete_one blank source) keys m state).0).available
          ≡ (entry_at blank k m).available
    unfolding each delete_one
    available-each-delete [] k m state new = refl
    available-each-delete (key ∷ keys) k m state new =
        let done = delete_one blank source key m state in
        available-each-delete keys k done.0 done.1 (ground (arith, new))
        ∙ available-delete_one key k m state (ground (arith, new))

    available-process_store_queue :
        (k : ℕ) (s : DataStorage D) (state : S)
        → let done = (process_store_queue blank source s state).0 in
          ((entry_at blank k done.entries).available ≡ (entry_at blank k s.entries).available)
          × (done.delete_queue ≡ s.delete_queue)
    available-process_store_queue k s state =
        elim (process_store_queue-cases blank source s state) [
          | inl (f, e) ↦ rw (e) (refl, refl)
          | inr e ↦ rw (e) (available-each-store s.store_queue.keys k s.entries state, refl)
        ]

    available-process_delete_queue :
        (k : ℕ) (s : DataStorage D) (state : S)
        → member k s.delete_queue.keys ≡ false
        → (entry_at blank k (process_delete_queue blank source s state).0.entries).available
          ≡ (entry_at blank k s.entries).available
    available-process_delete_queue k s state undoomed =
        elim (process_delete_queue-cases blank source s state) [
          | inl (f, e) ↦ rw (e) refl
          | inr e ↦ rw (e) (available-each-delete s.delete_queue.keys k s.entries state undoomed)
        ]

    available-process_retrieve_queue :
        Retrieves source
        → (now k : ℕ) (s : DataStorage D) (state : S) → member k s.retrieve_queue.keys ≡ true
        → s.retrieve_queue.data_flag ≡ true
        → let done = (process_retrieve_queue blank source now s state).0 in
          ((entry_at blank k done.entries).available ≡ true) × (done.delete_queue ≡ s.delete_queue)
    available-process_retrieve_queue retrieves now k s state asked up =
        elim (process_retrieve_queue-cases blank source now s state) [
          | inl (f, e) ↦ ground arith
          | inr e ↦ rw (e) (
            available-each-retrieve retrieves now s.retrieve_queue.keys k s.entries state
                (inl asked),
            refl,
          )
        ]

    -- A key that waits for a retrieval is loaded by the next tick.
    available-tick :
        Retrieves source
        → (now key : ℕ) (s : DataStorage D) (state : S) → member key s.retrieve_queue.keys ≡ true
        → s.retrieve_queue.data_flag ≡ true
        → member key s.delete_queue.keys ≡ false
        → (entry_at blank key (Storage.tick blank source now s state).0.entries).available ≡ true
    unfolding Storage.tick
    available-tick retrieves now key s state asked up undoomed =
        let r = process_retrieve_queue blank source now s state in
        let w = process_store_queue blank source r.0 r.1 in
        let first = available-process_retrieve_queue retrieves now key s state asked up in
        let second = available-process_store_queue key r.0 r.1 in
        available-process_delete_queue key w.0 w.1 (rw (second.1 ∙ first.1) undoomed)
        ∙ second.0
        ∙ first.0

  -- The first time that a key is asked for.
  pub get-new :
      (key : ℕ) (s : DataStorage D)
      → lookup key s.entries ≡ none
      → let asked = get blank key true s in
        (asked.0 ≡ none)
        × (member key asked.1.retrieve_queue.keys ≡ true)
        × (asked.1.retrieve_queue.data_flag ≡ true)
        × (asked.1.delete_queue ≡ s.delete_queue)
  unfolding get
  get-new key s new = ground (arith, new)

  get-available :
      (key : ℕ) (s : DataStorage D)
      → (entry_at blank key s.entries).available ≡ true
      → get blank key true s ≡ (some key, s)
  unfolding get
  get-available key s there = ground (arith, there)

  module _ {S : Type 0} (stored : ℕ → S → Option D) (source : DataSource D S) where
    module _ (laws : IsKeyed source stored) where
      -- Taking a datum that was never asked for gives nothing at first; when the source does not fail
      -- and no deletion of the key waits, it is there after one tick, with the datum that the source
      -- has.
      pub get-tick :
          Retrieves source
          → (now key : ℕ) (s : DataStorage D) (state : S) → Inv blank s
          → lookup key s.entries ≡ none
          → member key s.delete_queue.keys ≡ false
          → let asked = get blank key true s in
            let after = Storage.tick blank source now asked.1 state in
            (asked.0 ≡ none)
            × (get blank key true after.0 ≡ (some key, after.0))
            × (stored key state ≡ some ((entry_at blank key after.0.entries).value))
      get-tick retrieves now key s state i new undoomed =
          let asked = get blank key true s in
          let after = Storage.tick blank source now asked.1 state in
          let (nothing, waits, up, same) = get-new key s new in
          let doomless : member key asked.1.delete_queue.keys ≡ false = rw (same) undoomed in
          let there = available-tick source retrieves now key asked.1 state waits up doomless in
          let follows =
            tick-Follows blank stored source laws now asked.1 state (get-Inv blank key true s i)
              key in
          let kept : seen blank stored key after.0.entries after.1
              ≡ seen blank stored key asked.1.entries state =
            elim follows.0 [ inl e ↦ e | inr (m, e) ↦ ground arith ] in
          let before : seen blank stored key asked.1.entries state ≡ stored key state =
            (get-AreAlike blank stored key true s state key).0
            ∙ seen-absent blank stored key s.entries state new in
          (
            nothing,
            get-available key after.0 there,
            sym before
                ∙ sym kept
                ∙ sym (seen-entry_at blank stored key after.0.entries after.1)
                ∙ simp there,
          )
