-- ===== src/Data/Storage/Stuck.antt =====
-- A failed retrieval in include/libserver/data/DataStorage.hpp is not tried again on its own.
use alicia_server.Common.{
  ℕ, ◌≡◌, ◌≢◌, inl, inr, refl, sym, ◌∙◌, arith, Bool, true, false, none, List, [], ◌∷◌, member,
  Bool-cases, Option-cases, is_some,
}
use alicia_server.Common.Map.{Map, lookup, insert, contains, contains-insert}
use alicia_server.Data.Storage
use alicia_server.Data.Storage.{
  Entry, DataStorage, DataSource, Queue, entry_at, new_entry, request, each, mutable, retrieve_one,
  store_one, delete_one, process_retrieve_queue, process_store_queue, process_delete_queue,
}
use alicia_server.Data.Storage.Queues.{entry_at-insert}
use alicia_server.Data.Storage.Abstract.{patched}
use alicia_server.Data.Storage.Kept.{member-request}
use alicia_server.Data.Storage.Ticks.{
  process_retrieve_queue-cases, process_store_queue-cases, process_delete_queue-cases,
}

module _ {D : Type 0} (blank : D) where
  -- The key has an entry without a datum, and no retrieval of it waits.
  abbrev pub IsStuck : ℕ → DataStorage D → Type 0
  IsStuck k s =
      (contains k s.entries ≡ true)
      × ((entry_at blank k s.entries).available ≡ false)
      × (member k s.retrieve_queue.keys ≡ false)

  -- the entries' part of it
  abbrev pub IsBare : ℕ → Map (Entry D) → Type 0
  IsBare k m = (contains k m ≡ true) × ((entry_at blank k m).available ≡ false)

  pub insert-IsBare :
      (key k : ℕ) (entry : Entry D) (m : Map (Entry D))
      → (key ≡ k → entry.available ≡ false)
      → IsBare k m
      → IsBare k (insert key entry m)
  insert-IsBare key k entry m away h = (
    ground (arith, contains-insert key k entry m, h.0),
    rw (entry_at-insert blank key k entry m) (ground (arith, away, h.1)),
  )

  new_ne : (key k : ℕ) (m : Map (Entry D)) → lookup key m ≡ none → contains k m ≡ true → key ≢ k
  unfolding contains
  new_ne key k m e h i =
      let there : is_some (lookup key m) ≡ true = rw (i) h in ground (arith, e, there)

  pub get-IsStuck :
      (key k : ℕ) (retrieve : Bool) (s : DataStorage D)
      → IsStuck k s
      → IsStuck k (Storage.get blank key retrieve s).1
  unfolding Storage.get
  get-IsStuck key k retrieve s h = elim (Option-cases (lookup key s.entries)) [
    | inr (entry, e) ↦ rw (e, Storage.get) h
    | inl e ↦
        let bare = insert-IsBare key k (new_entry blank) s.entries (λ i. refl) (h.0, h.1) in
        let ne = new_ne key k s.entries e h.0 in
        rw (e, Storage.get)
          (elim (Bool-cases retrieve) [
            | inl r ↦
                rw (r)
                  (bare.0, bare.1, ground (arith, member-request key k s.retrieve_queue, ne, h.2))
            | inr r ↦ rw (r) (bare.0, bare.1, h.2)
          ])
  ]

  -- A key that has no entry takes one.
  created-IsStuck :
      (key k : ℕ) (entry : Entry D) (s : DataStorage D) (q : Queue)
      → contains key s.entries ≡ false
      → IsStuck k s
      → IsStuck k (record s { entries = insert key entry s.entries; store_queue = q })
  created-IsStuck key k entry s q new h =
      let bare =
        insert-IsBare key k entry s.entries (λ i. ground (arith, i, new, h.0)) (h.0, h.1) in
      (bare.0, bare.1, h.2)

  pub create-IsStuck :
      (key k : ℕ) (datum : D) (s : DataStorage D)
      → IsStuck k s
      → IsStuck k (Storage.create blank key datum s).1
  unfolding Storage.create
  create-IsStuck key k datum s h = elim (Bool-cases (contains key s.entries)) [
    | inl e ↦ rw (e, Storage.create) h
    | inr e ↦ rw (e, Storage.create) (created-IsStuck key k _ s (request key s.store_queue) e h)
  ]

  pub get_or_create-IsStuck :
      (key k : ℕ) (datum : D) (s : DataStorage D)
      → IsStuck k s
      → IsStuck k (Storage.get_or_create blank key datum s).1
  unfolding Storage.get_or_create
  get_or_create-IsStuck key k datum s h = elim (Bool-cases (contains key s.entries)) [
    | inl e ↦ rw (e, Storage.get_or_create) h
    | inr e ↦
        rw (e, Storage.get_or_create) (created-IsStuck key k _ s (request key s.store_queue) e h)
  ]

  pub patched-IsStuck :
      (key k : ℕ) (consumer : D → D) (s : DataStorage D)
      → IsStuck k s
      → IsStuck k (patched blank key consumer s)
  unfolding mutable
  patched-IsStuck key k consumer s h =
      let got = Storage.get blank key true s in
      let after = get-IsStuck key k true s h in
      elim (Option-cases got.0) [
        | inl e ↦ rw (e, patched) after
        | inr (j, e) ↦
            let bare = insert-IsBare j k _ got.1.entries (λ i. rw (i) after.1) (after.0, after.1) in
            rw (e, patched) (bare.0, bare.1, after.2)
      ]

  module _ {S : Type 0} (source : DataSource D S) where
    retrieve_one-IsBare :
        (now key k : ℕ) (m : Map (Entry D)) (state : S)
        → key ≢ k
        → IsBare k m
        → IsBare k (retrieve_one blank source now key m state).0
    unfolding retrieve_one
    retrieve_one-IsBare now key k m state ne h = insert-IsBare key k _ m (λ i. absurd (ne i)) h

    store_one-IsBare :
        (key k : ℕ) (m : Map (Entry D)) (state : S)
        → IsBare k m
        → IsBare k (store_one blank source key m state).0
    unfolding store_one
    store_one-IsBare key k m state h = elim (Bool-cases (entry_at blank key m).available) [
      | inl e ↦ rw (e) (insert-IsBare key k _ m (λ i. sym e ∙ rw (i) h.1) h)
      | inr e ↦ rw (e) (insert-IsBare key k _ m (λ i. e) h)
    ]

    delete_one-IsBare :
        (key k : ℕ) (m : Map (Entry D)) (state : S)
        → IsBare k m
        → IsBare k (delete_one blank source key m state).0
    unfolding delete_one
    delete_one-IsBare key k m state h = elim (Bool-cases (entry_at blank key m).available) [
      | inl e ↦ rw (e) (
          insert-IsBare key k _ m
            (λ i.
              let away : (entry_at blank key m).available ≡ false = rw (i) h.1 in
              ground (arith, e, away))
            h)
      | inr e ↦ rw (e) (insert-IsBare key k _ m (λ i. e) h)
    ]

    each-retrieve-IsBare :
        (now : ℕ) (keys : List ℕ) (k : ℕ) (m : Map (Entry D)) (state : S)
        → member k keys ≡ false
        → IsBare k m
        → IsBare k (each (retrieve_one blank source now) keys m state).0
    unfolding each
    each-retrieve-IsBare now [] k m state new h = h
    each-retrieve-IsBare now (key ∷ keys) k m state new h =
        let done = retrieve_one blank source now key m state in
        each-retrieve-IsBare now keys k done.0 done.1 (ground (arith, new))
          (retrieve_one-IsBare now key k m state (ground (arith, new)) h)

    pub each-store-IsBare :
        (keys : List ℕ) (k : ℕ) (m : Map (Entry D)) (state : S)
        → IsBare k m
        → IsBare k (each (store_one blank source) keys m state).0
    unfolding each
    each-store-IsBare [] k m state h = h
    each-store-IsBare (key ∷ keys) k m state h =
        let done = store_one blank source key m state in
        each-store-IsBare keys k done.0 done.1 (store_one-IsBare key k m state h)

    pub each-delete-IsBare :
        (keys : List ℕ) (k : ℕ) (m : Map (Entry D)) (state : S)
        → IsBare k m
        → IsBare k (each (delete_one blank source) keys m state).0
    unfolding each
    each-delete-IsBare [] k m state h = h
    each-delete-IsBare (key ∷ keys) k m state h =
        let done = delete_one blank source key m state in
        each-delete-IsBare keys k done.0 done.1 (delete_one-IsBare key k m state h)

    -- The processing of the queues behind the retrievals.
    pub written-IsStuck :
        (k : ℕ) (s : DataStorage D) (state : S)
        → IsStuck k s
        → let w = process_store_queue blank source s state in
          IsStuck k (process_delete_queue blank source w.0 w.1).0
    written-IsStuck k s state h =
        let w = process_store_queue blank source s state in
        let second : IsStuck k w.0 = elim (process_store_queue-cases blank source s state) [
          | inl (f, e) ↦ rw (e) h
          | inr e ↦
              let bare = each-store-IsBare s.store_queue.keys k s.entries state (h.0, h.1) in
              rw (e) (bare.0, bare.1, h.2)
        ] in
        elim (process_delete_queue-cases blank source w.0 w.1) [
          | inl (f, e) ↦ rw (e) second
          | inr e ↦
              let bare =
                each-delete-IsBare w.0.delete_queue.keys k w.0.entries w.1 (second.0, second.1) in
              rw (e) (bare.0, bare.1, second.2)
        ]

    pub tick-IsStuck :
        (now k : ℕ) (s : DataStorage D) (state : S)
        → IsStuck k s
        → IsStuck k (Storage.tick blank source now s state).0
    unfolding Storage.tick
    tick-IsStuck now k s state h =
        let r = process_retrieve_queue blank source now s state in
        let first : IsStuck k r.0 = elim (process_retrieve_queue-cases blank source now s state) [
          | inl (f, e) ↦ rw (e) h
          | inr e ↦
              let bare =
                each-retrieve-IsBare now s.retrieve_queue.keys k s.entries state h.2 (h.0, h.1) in
              rw (e) (bare.0, bare.1, refl)
        ] in
        written-IsStuck k r.0 r.1 first
