-- ===== src/Data/Storage/Failed.antt =====
-- How long a datum whose retrieval failed stays away from include/libserver/data/DataStorage.hpp.
use alicia_server.Common.{ℕ, ◌≡◌, ◌≢◌, inl, inr, refl, arith, true, false, none, List, [], ◌∷◌}
use alicia_server.Common.Map.{Map, lookup, contains, lookup-insert}
use alicia_server.Data.Storage
use alicia_server.Data.Storage.{
  Entry, DataStorage, DataSource, Queue, entry_at, new_entry, request, each, mutable, retrieve_one,
  store_one, delete_one, process_retrieve_queue, process_store_queue, process_delete_queue,
}
use alicia_server.Data.Storage.Abstract.{Op, World, step, run}
use alicia_server.Data.Storage.Kept.{member-request, is_damaged-cases}
use alicia_server.Data.Repair.{is_damaged}
use alicia_server.Data.Storage.Stuck.{
  IsStuck, IsBare, insert-IsBare, get-IsStuck, create-IsStuck, get_or_create-IsStuck,
  patched-IsStuck, tick-IsStuck, written-IsStuck,
}
use alicia_server.Data.Storage.Records.{get-new}
use alicia_server.Data.Storage.Ticks.{process_retrieve_queue-cases}

-- Calls that do not examine the key for damage.
abbrev pub Ignores : {D : Type 0} → ℕ → List (Op D) → Type 0
Ignores k [] = Unit
Ignores k (Op.examine now key period ∷ ops) = (key ≢ k) × Ignores k ops
Ignores k (op ∷ ops) = Ignores k ops

module _ {D : Type 0} (blank : D) where
  is_damaged-IsStuck :
      (now period key k : ℕ) (s : DataStorage D)
      → key ≢ k
      → IsStuck blank k s
      → IsStuck blank k (is_damaged now period key s).1
  unfolding Storage.retry_retrieve
  is_damaged-IsStuck now period key k s ne h = elim (is_damaged-cases blank now period key s) [
    | inl e ↦ rw (e) h
    | inr (f, e) ↦ rw (e) (h.0, h.1, ground (arith, member-request key k s.retrieve_queue, ne, h.2))
  ]

  -- A key that is asked for the first time has an entry, and no datum.
  asked-IsBare :
      (k : ℕ) (s : DataStorage D)
      → lookup k s.entries ≡ none
      → IsBare blank k (Storage.get blank k true s).1.entries
  unfolding Storage.get contains
  asked-IsBare k s new = ground (arith, new, lookup-insert k k (new_entry blank) s.entries)

  IsStuck-get :
      (k : ℕ) (s : DataStorage D) → IsStuck blank k s → (Storage.get blank k true s).0 ≡ none
  unfolding Storage.get contains
  IsStuck-get k s h = ground (arith, h.0, h.1)

  module _ {S : Type 0} (source : DataSource D S) where
    run-IsStuck :
        (ops : List (Op D)) (k : ℕ) (w : World D S)
        → Ignores k ops
        → IsStuck blank k w.0
        → IsStuck blank k (run blank source ops w).0
    unfolding run step Storage.save Storage.delete
    run-IsStuck [] k w i h = h
    run-IsStuck (Op.get key retrieve ∷ ops) k w i h =
        run-IsStuck ops k _ i (get-IsStuck blank key k retrieve w.0 h)
    run-IsStuck (Op.create key datum ∷ ops) k w i h =
        run-IsStuck ops k _ i (create-IsStuck blank key k datum w.0 h)
    run-IsStuck (Op.get_or_create key datum ∷ ops) k w i h =
        run-IsStuck ops k _ i (get_or_create-IsStuck blank key k datum w.0 h)
    run-IsStuck (Op.patch key consumer ∷ ops) k w i h =
        run-IsStuck ops k _ i (patched-IsStuck blank key k consumer w.0 h)
    run-IsStuck (Op.save key ∷ ops) k w i h = run-IsStuck ops k _ i h
    run-IsStuck (Op.delete key ∷ ops) k w i h = run-IsStuck ops k _ i h
    run-IsStuck (Op.examine now key period ∷ ops) k w i h =
        run-IsStuck ops k _ i.1 (is_damaged-IsStuck now period key k w.0 i.0 h)
    run-IsStuck (Op.tick now ∷ ops) k w i h =
        run-IsStuck ops k _ i (tick-IsStuck blank source now k w.0 w.1 h)

    module _ (k : ℕ)
        (fails : (datum : D) (state : S) → (source.retrieve k datum state).0 ≡ false) where
      failed_one :
          (now key : ℕ) (m : Map (Entry D)) (state : S)
          → IsBare blank k m
          → IsBare blank k (retrieve_one blank source now key m state).0
      unfolding retrieve_one
      failed_one now key m state h =
          insert-IsBare blank key k _ m
            (λ i. rw (i) (rw (fails (entry_at blank k m).value state) h.1)) h

      failed_each :
          (now : ℕ) (keys : List ℕ) (m : Map (Entry D)) (state : S)
          → IsBare blank k m
          → IsBare blank k (each (retrieve_one blank source now) keys m state).0
      unfolding each
      failed_each now [] m state h = h
      failed_each now (key ∷ keys) m state h =
          let done = retrieve_one blank source now key m state in
          failed_each now keys done.0 done.1 (failed_one now key m state h)

      failed_tick :
          (now : ℕ) (s : DataStorage D) (state : S)
          → IsBare blank k s.entries
          → s.retrieve_queue.data_flag ≡ true
          → IsStuck blank k (Storage.tick blank source now s state).0
      unfolding Storage.tick
      failed_tick now s state h up =
          let r = process_retrieve_queue blank source now s state in
          let first : IsStuck blank k r.0 =
            elim (process_retrieve_queue-cases blank source now s state) [
              | inl (f, e) ↦ ground (arith, up, f)
              | inr e ↦
                  let bare = failed_each now s.retrieve_queue.keys s.entries state h in
                  rw (e) (bare.0, bare.1, refl)
            ] in
          written-IsStuck blank source k r.0 r.1 first

  -- A datum that is asked for, and that the source fails to retrieve in the tick after, is not tried
  -- again on its own: whatever another source in its place would give from then on, as long as nothing
  -- examines the datum for damage, no row of calls and ticks brings it, and taking it keeps giving
  -- nothing.
  pub failed-get :
      {S : Type 0} (source recovered : DataSource D S) (k now : ℕ) (ops : List (Op D))
      (s : DataStorage D) (state : S)
      → ((datum : D) (state : S) → (source.retrieve k datum state).0 ≡ false)
      → lookup k s.entries ≡ none
      → Ignores k ops
      → let asked = (Storage.get blank k true s).1 in
        let failed = Storage.tick blank source now asked state in
        let later = run blank recovered ops failed in (Storage.get blank k true later.0).0 ≡ none
  failed-get source recovered k now ops s state fails new i =
      let asked = (Storage.get blank k true s).1 in
      let waits = get-new blank k s new in
      IsStuck-get k _ (
        run-IsStuck recovered ops k _ i
          (failed_tick source k fails now asked state (asked-IsBare k s new) waits.2))
