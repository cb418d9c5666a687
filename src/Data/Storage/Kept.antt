-- ===== src/Data/Storage/Kept.antt =====
-- The invariant of the cache of include/libserver/data/DataStorage.hpp.
use alicia_server.Common.{
  IsSetLike, ℕ, ◌≡◌, ◌≢◌, ◌⊎◌, inl, inr, refl, arith, Bool, true, false, ◌==◌, if◌then◌else◌,
  member, Bool-cases, Option-cases,
}
use alicia_server.Common.Map.{lookup, insert, contains, lookup-insert, contains-insert}
use alicia_server.Data.Repair.{is_damaged}
use alicia_server.Data.Storage
use alicia_server.Data.Storage.{
  Entry, DataStorage, DataSource, Queue, no_keys, each, retrieve_one, store_one, delete_one,
  mutable, process_retrieve_queue, process_store_queue, process_delete_queue, entry_at, new_entry,
  request, get_retrieve_failure_count,
}
use alicia_server.Data.Storage.Queues.{IsHonest, AreHonest, entry_at-insert, insert-AreHonest}
use alicia_server.Data.Storage.Abstract.{Inv, patched}

pub member-request :
    (key other : ℕ) (q : Queue)
    → member other (request key q).keys ≡ (if key == other then true else member other q.keys)
member-request key other q = ground arith

pub request-IsSetLike : (key : ℕ) (q : Queue) → IsSetLike q.keys → IsSetLike (request key q).keys
request-IsSetLike key q d = ground arith

module _ {D : Type 0} (blank : D) where
  -- An entry takes a new datum and keeps its place in the queues.
  pub Inv-insert :
      (key : ℕ) (entry : Entry D) (s : DataStorage D) (q : Queue)
      → IsHonest entry
      → (member key s.retrieve_queue.keys ≡ true → entry.available ≡ false)
      → Inv blank s
      → Inv blank (record s { entries = insert key entry s.entries; store_queue = q })
  unfolding contains
  Inv-insert key entry s q honest away i = record {
    known = λ k m. ground (arith, i.known k m, lookup-insert key k entry s.entries);
    away =
        λ k m. rw (entry_at-insert blank key k entry s.entries) (ground (arith, i.away k m, away));
    set_like = i.set_like;
    honest = insert-AreHonest blank key entry s.entries honest i.honest;
    no_retrieve = i.no_retrieve;
    no_delete = i.no_delete;
  }

  -- An entry without a datum is asked for.
  Inv-request_retrieve :
      (key : ℕ) (s : DataStorage D)
      → contains key s.entries ≡ true
      → (entry_at blank key s.entries).available ≡ false
      → Inv blank s
      → Inv blank (record s { retrieve_queue = request key s.retrieve_queue })
  Inv-request_retrieve key s there gone i = record {
    known = λ k m. ground (arith, i.known k, there, m, member-request key k s.retrieve_queue);
    away = λ k m. ground (arith, i.away k, gone, m, member-request key k s.retrieve_queue);
    set_like = request-IsSetLike key s.retrieve_queue i.set_like;
    honest = i.honest;
    no_retrieve = λ e. ground arith;
    no_delete = i.no_delete;
  }

  pub Inv-store_queue :
      (s : DataStorage D) (q : Queue) → Inv blank s → Inv blank (record s { store_queue = q })
  Inv-store_queue s q i = record {
    known = i.known;
    away = i.away;
    set_like = i.set_like;
    honest = i.honest;
    no_retrieve = i.no_retrieve;
    no_delete = i.no_delete;
  }

  pub save-Inv : (key : ℕ) (s : DataStorage D) → Inv blank s → Inv blank (Storage.save key s)
  unfolding Storage.save
  save-Inv key s i = Inv-store_queue s (request key s.store_queue) i

  pub delete-Inv : (key : ℕ) (s : DataStorage D) → Inv blank s → Inv blank (Storage.delete key s)
  unfolding Storage.delete
  delete-Inv key s i = record {
    known = i.known;
    away = i.away;
    set_like = i.set_like;
    honest = i.honest;
    no_retrieve = i.no_retrieve;
    no_delete = λ e. ground arith;
  }

  pub get-Inv :
      (key : ℕ) (retrieve : Bool) (s : DataStorage D)
      → Inv blank s
      → Inv blank (Storage.get blank key retrieve s).1
  unfolding Storage.get
  get-Inv key retrieve s i = elim (Option-cases (lookup key s.entries)) [
    | inr (entry, e) ↦ rw (e, Storage.get) i
    | inl e ↦
        let emplaced =
          Inv-insert key (new_entry blank) s s.store_queue (ground arith) (λ m. refl) i in
        rw (e, Storage.get)
          (elim (Bool-cases retrieve) [
            | inl r ↦ rw (r) (
                Inv-request_retrieve key _
                  (ground (arith, contains-insert key key (new_entry blank) s.entries))
                  (rw (entry_at-insert blank key key (new_entry blank) s.entries) (ground arith))
                  emplaced)
            | inr r ↦ rw (r) emplaced
          ])
  ]

  -- A datum for a key that has no entry.
  created-Inv :
      (key : ℕ) (datum : D) (s : DataStorage D) (q : Queue)
      → contains key s.entries ≡ false
      → Inv blank s
      → Inv blank (record s {
        entries =
            insert key (record (new_entry blank) { value = datum; available = true }) s.entries;
        store_queue = q;
      })
  created-Inv key datum s q new i =
      Inv-insert key _ s q (λ f. absurd (f refl)) (λ m. ground (arith, i.known key m, new)) i

  pub create-Inv :
      (key : ℕ) (datum : D) (s : DataStorage D)
      → Inv blank s
      → Inv blank (Storage.create blank key datum s).1
  unfolding Storage.create
  create-Inv key datum s i = elim (Bool-cases (contains key s.entries)) [
    | inl e ↦ rw (e, Storage.create) i
    | inr e ↦ rw (e, Storage.create) (created-Inv key datum s (request key s.store_queue) e i)
  ]

  pub get_or_create-Inv :
      (key : ℕ) (datum : D) (s : DataStorage D)
      → Inv blank s
      → Inv blank (Storage.get_or_create blank key datum s).1
  unfolding Storage.get_or_create
  get_or_create-Inv key datum s i = elim (Bool-cases (contains key s.entries)) [
    | inl e ↦ rw (e, Storage.get_or_create) i
    | inr e ↦
        rw (e, Storage.get_or_create) (created-Inv key datum s (request key s.store_queue) e i)
  ]

  mutable-Inv :
      (key : ℕ) (consumer : D → D) (s : DataStorage D)
      → Inv blank s
      → Inv blank (mutable blank key consumer s)
  unfolding mutable AreHonest
  mutable-Inv key consumer s i =
      Inv-insert key _ s (request key s.store_queue) (i.honest key) (i.away key) i

  pub patched-Inv :
      (key : ℕ) (consumer : D → D) (s : DataStorage D)
      → Inv blank s
      → Inv blank (patched blank key consumer s)
  patched-Inv key consumer s i =
      let got = Storage.get blank key true s in
      let after : Inv blank got.1 = get-Inv key true s i in
      elim (Option-cases got.0) [
        | inl e ↦ rw (e, patched) after
        | inr (k, e) ↦ rw (e, patched) (mutable-Inv k consumer got.1 after)
      ]

  -- A retrieval is tried again only when the last one failed.
  pub is_damaged-cases :
      (now period key : ℕ) (s : DataStorage D)
      → ((is_damaged now period key s).1 ≡ s)
        ⊎ ((get_retrieve_failure_count key s ≢ 0)
            × ((is_damaged now period key s).1 ≡ Storage.retry_retrieve key s))
  unfolding is_damaged
  is_damaged-cases now period key s = ground arith

  -- A key whose retrieval failed has an entry without a datum.
  pub failed-away :
      (key : ℕ) (s : DataStorage D)
      → get_retrieve_failure_count key s ≢ 0
      → AreHonest blank s.entries
      → (contains key s.entries ≡ true) × ((entry_at blank key s.entries).available ≡ false)
  unfolding get_retrieve_failure_count contains AreHonest
  failed-away key s f h = ground (arith, h key)

  pub is_damaged-Inv :
      (now period key : ℕ) (s : DataStorage D)
      → Inv blank s
      → Inv blank (is_damaged now period key s).1
  unfolding Storage.retry_retrieve
  is_damaged-Inv now period key s i = elim (is_damaged-cases now period key s) [
    | inl e ↦ rw (e) i
    | inr (f, e) ↦
        let there = failed-away key s f i.honest in
        rw (e) (Inv-request_retrieve key s there.0 there.1 i)
  ]
