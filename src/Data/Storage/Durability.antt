-- ===== src/Data/Storage/Durability.antt =====
-- What the data source has when the cache of include/libserver/data/DataStorage.hpp ends.
use alicia_server.Common.{
  ℕ, ◌≡◌, ◌≢◌, ◌⊎◌, inl, inr, refl, sym, ap, ◌∙◌, arith, true, false, Option, none, List, [], ◌∷◌,
  member, Bool-cases, eq-cases,
}
use alicia_server.Common.Map.{Map, lookup}
use alicia_server.Data.Storage
use alicia_server.Data.Storage.{
  Entry, DataStorage, DataSource, Queue, entry_at, request, each, request_available, terminate,
  retrieve_one, store_one, delete_one, process_retrieve_queue, process_store_queue,
  process_delete_queue,
}
use alicia_server.Data.Storage.View.{IsKeyed, seen, seen-entry_at, seen-store_one}
use alicia_server.Data.Storage.Abstract.{Inv}
use alicia_server.Data.Storage.Kept.{Inv-store_queue, member-request}
use alicia_server.Data.Storage.Ticks.{
  process_retrieve_queue-cases, process_store_queue-cases, process_delete_queue-cases,
}
use alicia_server.Data.Storage.Refinement.{seen-process_retrieve_queue, seen-process_store_queue}

-- A source that never fails to store.
abbrev pub Stores : {D S : Type 0} → DataSource D S → Type 0
Stores {D} {S} source = (key : ℕ) (datum : D) (state : S) → (source.store key datum state).0 ≡ true

module _ {D S : Type 0} (blank : D) (stored : ℕ → S → Option D) where
  -- The source has what is seen.
  abbrev IsClean : ℕ → Map (Entry D) → S → Type 0
  IsClean k m state = seen blank stored k m state ≡ stored k state

  module _ (source : DataSource D S) (laws : IsKeyed source stored) where
    stored-each-retrieve :
        (now : ℕ) (keys : List ℕ) (k : ℕ) (m : Map (Entry D)) (state : S)
        → stored k (each (retrieve_one blank source now) keys m state).1 ≡ stored k state
    unfolding each retrieve_one
    stored-each-retrieve now [] k m state = refl
    stored-each-retrieve now (key ∷ keys) k m state =
        let done = retrieve_one blank source now key m state in
        stored-each-retrieve now keys k done.0 done.1
        ∙ laws.retrieve_keeps key k (entry_at blank key m).value state

    stored-store_one :
        (key k : ℕ) (m : Map (Entry D)) (state : S)
        → key ≢ k
        → stored k (store_one blank source key m state).1 ≡ stored k state
    unfolding store_one
    stored-store_one key k m state ne =
        ground (arith, laws.store_keeps key k (entry_at blank key m).value state ne)

    stored-store_one_self :
        Stores source
        → (key : ℕ) (m : Map (Entry D)) (state : S)
        → stored key (store_one blank source key m state).1 ≡ seen blank stored key m state
    unfolding store_one
    stored-store_one_self stores key m state =
        let entry = entry_at blank key m in
        ground (
          arith,
          seen-entry_at blank stored key m state,
          laws.written key entry.value state (stores key entry.value state),
        )

    -- A key that is stored is clean, and so is one that was.
    store_one-IsClean :
        Stores source
        → (key k : ℕ) (m : Map (Entry D)) (state : S) → (key ≡ k) ⊎ IsClean k m state
        → let done = store_one blank source key m state in IsClean k done.0 done.1
    store_one-IsClean stores key k m state given =
        let entry = entry_at blank key m in
        let before = seen-entry_at blank stored key m state in
        let same = seen-store_one blank stored source laws key k m state in
        let there : stored k (store_one blank source key m state).1 ≡ seen blank stored k m state =
          elim (eq-cases key k) [
            | inr ne ↦ ground (arith, given, ne, stored-store_one key k m state ne)
            | inl e ↦ rw (sym e) (stored-store_one_self stores key m state)
          ] in
        same ∙ sym there

    each-store-IsClean :
        Stores source
        → (keys : List ℕ) (k : ℕ) (m : Map (Entry D)) (state : S)
        → (member k keys ≡ true) ⊎ IsClean k m state
        → let done = each (store_one blank source) keys m state in IsClean k done.0 done.1
    unfolding each
    each-store-IsClean stores [] k m state given = ground arith
    each-store-IsClean stores (key ∷ keys) k m state given =
        let done = store_one blank source key m state in
        each-store-IsClean stores keys k done.0 done.1
          (ground (arith, store_one-IsClean stores key k m state))

    -- A deletion leaves what the source has, or nothing at its key.
    stored-delete_one :
        (key k : ℕ) (m : Map (Entry D)) (state : S)
        → let after = (delete_one blank source key m state).1 in
          (stored k after ≡ stored k state) ⊎ ((key ≡ k) × (stored k after ≡ none))
    unfolding delete_one
    stored-delete_one key k m state = ground (
      arith,
      laws.delete_keeps key k state,
      laws.deleted key state,
      laws.delete_fails key state,
      eq-cases key k,
    )

    stored-each-delete :
        (keys : List ℕ) (k : ℕ) (m : Map (Entry D)) (state : S)
        → let after = (each (delete_one blank source) keys m state).1 in
          (stored k after ≡ stored k state) ⊎ ((member k keys ≡ true) × (stored k after ≡ none))
    unfolding each
    stored-each-delete [] k m state = inl refl
    stored-each-delete (key ∷ keys) k m state =
        let done = delete_one blank source key m state in
        ground (arith, stored-each-delete keys k done.0 done.1, stored-delete_one key k m state)

    -- Asking for the available entries keeps what was asked for.
    request_available_keeps :
        (k : ℕ) (m : Map (Entry D)) (q : Queue)
        → (member k q.keys ≡ true) × (q.data_flag ≡ true)
        → (member k (request_available m q).keys ≡ true)
          × ((request_available m q).data_flag ≡ true)
    unfolding request_available
    request_available_keeps k [] q h = h
    request_available_keeps k ((key, entry) ∷ m) q h =
        request_available_keeps k m _ (ground (arith, member-request key k q))

    request_available-asks :
        (k : ℕ) (m : Map (Entry D)) (q : Queue)
        → (entry_at blank k m).available ≡ true
        → (member k (request_available m q).keys ≡ true)
          × ((request_available m q).data_flag ≡ true)
    unfolding request_available lookup
    request_available-asks k [] q h = ground arith
    request_available-asks k ((key, entry) ∷ m) q h = elim (eq-cases key k) [
      | inl e ↦ request_available_keeps k m _ (ground (arith, member-request key k q))
      | inr ne ↦ request_available-asks k m _ (ground arith)
    ]

    process_store_queue-IsClean :
        Stores source
        → (k : ℕ) (s : DataStorage D) (state : S)
        → ((member k s.store_queue.keys ≡ true) × (s.store_queue.data_flag ≡ true))
          ⊎ IsClean k s.entries state
        → let done = process_store_queue blank source s state in IsClean k done.0.entries done.1
    process_store_queue-IsClean stores k s state given =
        elim (process_store_queue-cases blank source s state) [
          | inl (f, e) ↦ rw (e) (ground (arith, given, f))
          | inr e ↦ rw (e) (
              each-store-IsClean stores s.store_queue.keys k s.entries state
                (ground (arith, given)))
        ]

    stored-process_retrieve_queue :
        (now k : ℕ) (s : DataStorage D) (state : S)
        → let done = process_retrieve_queue blank source now s state in
          (stored k done.1 ≡ stored k state) × (done.0.store_queue ≡ s.store_queue)
    stored-process_retrieve_queue now k s state =
        elim (process_retrieve_queue-cases blank source now s state) [
          | inl (f, e) ↦ rw (e) (refl, refl)
          | inr e ↦ rw (e) (stored-each-retrieve now s.retrieve_queue.keys k s.entries state, refl)
        ]

    stored-process_delete_queue :
        (k : ℕ) (s : DataStorage D) (state : S)
        → let after = (process_delete_queue blank source s state).1 in
          (stored k after ≡ stored k state)
          ⊎ ((member k s.delete_queue.keys ≡ true) × (stored k after ≡ none))
    stored-process_delete_queue k s state = elim (process_delete_queue-cases blank source s state) [
      | inl (f, e) ↦ rw (e) (inl refl)
      | inr e ↦ rw (e) (stored-each-delete s.delete_queue.keys k s.entries state)
    ]

    -- An entry without a datum is clean.
    away-IsClean :
        (k : ℕ) (m : Map (Entry D)) (state : S)
        → (entry_at blank k m).available ≡ false
        → IsClean k m state
    away-IsClean k m state away = sym (seen-entry_at blank stored k m state) ∙ simp away

    -- When the cache ends over a source that never fails to store, the source has at every key what
    -- was held of it, loaded or not, patched or not; only a key whose deletion was waiting may have
    -- nothing instead. No entry is left.
    pub terminate-stored :
        Stores source
        → (now : ℕ) (s : DataStorage D) (state : S) → Inv blank s
        → let after = terminate blank source now s state in
          (after.0.entries ≡ [])
          × ((k : ℕ)
              → (stored k after.1 ≡ seen blank stored k s.entries state)
                ⊎ ((member k s.delete_queue.keys ≡ true) × (stored k after.1 ≡ none)))
    unfolding terminate Storage.tick
    terminate-stored stores now s state i = (
      refl,
      λ k.
          let q = request_available s.entries s.store_queue in
          let asked = record s { store_queue = q } in
          let held = Inv-store_queue blank s q i in
          let r = process_retrieve_queue blank source now asked state in
          let w = process_store_queue blank source r.0 r.1 in
          let first = seen-process_retrieve_queue blank stored source laws now k asked state held in
          let below = stored-process_retrieve_queue now k asked state in
          let second = seen-process_store_queue blank stored source laws k r.0 r.1 in
          let given : ((member k r.0.store_queue.keys ≡ true) × (r.0.store_queue.data_flag ≡ true))
              ⊎ IsClean k r.0.entries r.1 =
            elim (Bool-cases (entry_at blank k s.entries).available) [
              | inl e ↦ inl (rw (below.1) (request_available-asks k s.entries s.store_queue e))
              | inr e ↦ inr (first.0 ∙ away-IsClean k s.entries state e ∙ sym below.0)
            ] in
          let clean = process_store_queue-IsClean stores k r.0 r.1 given in
          elim (stored-process_delete_queue k w.0 w.1) [
            | inl e ↦ inl (e ∙ sym clean ∙ second.0 ∙ first.0)
            | inr (m, e) ↦
                inr (sym (ap (λ (d : Queue). member k d.keys) (second.1 ∙ first.1)) ∙ m, e)
          ],
    )
