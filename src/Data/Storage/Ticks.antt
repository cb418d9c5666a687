-- ===== src/Data/Storage/Ticks.antt =====
-- The invariant over the processing of the queues of include/libserver/data/DataStorage.hpp.
use alicia_server.Common.{ℕ, ◌≡◌, ◌⊎◌, inl, inr, refl, arith, false, [], Bool-cases}
use alicia_server.Common.Map.{Map}
use alicia_server.Data.Storage
use alicia_server.Data.Storage.{
  Entry, DataStorage, DataSource, Queue, no_keys, each, retrieve_one, store_one, delete_one,
  mutable, process_retrieve_queue, process_store_queue, process_delete_queue, entry_at, new_entry,
  request, get_retrieve_failure_count,
}
use alicia_server.Data.Storage.Queues.{
  AreHonest, each-store-AreHonest, each-delete-AreHonest, each-retrieve-AreHonest,
}
use alicia_server.Data.Storage.Abstract.{Inv}

module _ {D : Type 0} (blank : D) where
  module _ {S : Type 0} (source : DataSource D S) where
    pub process_retrieve_queue-cases :
        (now : ℕ) (s : DataStorage D) (state : S)
        → let done = each (retrieve_one blank source now) s.retrieve_queue.keys s.entries state in
          ((s.retrieve_queue.data_flag ≡ false)
            × (process_retrieve_queue blank source now s state ≡ (s, state)))
          ⊎ (process_retrieve_queue blank source now s state
              ≡ (record s { retrieve_queue = no_keys; entries = done.0 }, done.1))
    unfolding process_retrieve_queue
    process_retrieve_queue-cases now s state = elim (Bool-cases s.retrieve_queue.data_flag) [
      | inl e ↦ inr (simp e)
      | inr e ↦ inl (e, simp e)
    ]

    pub process_store_queue-cases :
        (s : DataStorage D) (state : S)
        → let done = each (store_one blank source) s.store_queue.keys s.entries state in
          ((s.store_queue.data_flag ≡ false)
            × (process_store_queue blank source s state ≡ (s, state)))
          ⊎ (process_store_queue blank source s state
              ≡ (record s { store_queue = no_keys; entries = done.0 }, done.1))
    unfolding process_store_queue
    process_store_queue-cases s state = elim (Bool-cases s.store_queue.data_flag) [
      | inl e ↦ inr (simp e)
      | inr e ↦ inl (e, simp e)
    ]

    pub process_delete_queue-cases :
        (s : DataStorage D) (state : S)
        → let done = each (delete_one blank source) s.delete_queue.keys s.entries state in
          ((s.delete_queue.data_flag ≡ false)
            × (process_delete_queue blank source s state ≡ (s, state)))
          ⊎ (process_delete_queue blank source s state
              ≡ (record s { delete_queue = no_keys; entries = done.0 }, done.1))
    unfolding process_delete_queue
    process_delete_queue-cases s state = elim (Bool-cases s.delete_queue.data_flag) [
      | inl e ↦ inr (simp e)
      | inr e ↦ inl (e, simp e)
    ]

    pub process_retrieve_queue-Inv :
        (now : ℕ) (s : DataStorage D) (state : S)
        → Inv blank s
        → Inv blank (process_retrieve_queue blank source now s state).0
          × ((process_retrieve_queue blank source now s state).0.retrieve_queue.keys ≡ [])
    process_retrieve_queue-Inv now s state i = elim (process_retrieve_queue-cases now s state) [
      | inl (f, e) ↦ rw (e) (i, i.no_retrieve f)
      | inr e ↦ rw (e) (
        record {
          known = λ k m. ground arith;
          away = λ k m. ground arith;
          set_like = tt;
          honest =
              each-retrieve-AreHonest blank source now s.retrieve_queue.keys s.entries state
                i.set_like i.away i.honest;
          no_retrieve = λ f. refl;
          no_delete = i.no_delete;
        },
        refl,
      )
    ]

    -- With no retrieval waiting, other entries may take the place of those that are there.
    Inv-entries :
        (s : DataStorage D) (q d : Queue) (m : Map (Entry D))
        → s.retrieve_queue.keys ≡ []
        → AreHonest blank m
        → (d.data_flag ≡ false → d.keys ≡ [])
        → Inv blank s
        → Inv blank (record s { store_queue = q; delete_queue = d; entries = m })
    Inv-entries s q d m e h f i = record {
      known = λ k n. ground (arith, e, n);
      away = λ k n. ground (arith, e, n);
      set_like = i.set_like;
      honest = h;
      no_retrieve = i.no_retrieve;
      no_delete = f;
    }

    process_store_queue-Inv :
        (s : DataStorage D) (state : S)
        → s.retrieve_queue.keys ≡ []
        → Inv blank s
        → Inv blank (process_store_queue blank source s state).0
          × ((process_store_queue blank source s state).0.retrieve_queue.keys ≡ [])
    process_store_queue-Inv s state none_waits i = elim (process_store_queue-cases s state) [
      | inl (f, e) ↦ rw (e) (i, none_waits)
      | inr e ↦ rw (e) (
        Inv-entries s no_keys s.delete_queue _ none_waits
            (each-store-AreHonest blank source s.store_queue.keys s.entries state i.honest)
            i.no_delete i,
        none_waits,
      )
    ]

    process_delete_queue-Inv :
        (s : DataStorage D) (state : S)
        → s.retrieve_queue.keys ≡ []
        → Inv blank s
        → Inv blank (process_delete_queue blank source s state).0
          × ((process_delete_queue blank source s state).0.delete_queue.keys ≡ [])
    process_delete_queue-Inv s state none_waits i = elim (process_delete_queue-cases s state) [
      | inl (f, e) ↦ rw (e) (i, i.no_delete f)
      | inr e ↦ rw (e) (
        Inv-entries s s.store_queue no_keys _ none_waits
            (each-delete-AreHonest blank source s.delete_queue.keys s.entries state i.honest)
            (λ f. refl) i,
        refl,
      )
    ]

    pub tick-Inv :
        (now : ℕ) (s : DataStorage D) (state : S)
        → Inv blank s
        → Inv blank (Storage.tick blank source now s state).0
          × ((Storage.tick blank source now s state).0.delete_queue.keys ≡ [])
    unfolding Storage.tick
    tick-Inv now s state i =
        let retrieved = process_retrieve_queue blank source now s state in
        let stored = process_store_queue blank source retrieved.0 retrieved.1 in
        let first = process_retrieve_queue-Inv now s state i in
        let second = process_store_queue-Inv retrieved.0 retrieved.1 first.1 first.0 in
        process_delete_queue-Inv stored.0 stored.1 second.1 second.0
