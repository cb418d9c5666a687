-- ===== src/Data/Storage/Refinement.antt =====
-- The cache of include/libserver/data/DataStorage.hpp over a data source behaves as one store.
use alicia_server.Common.{
  ℕ, ◌≡◌, ◌⊎◌, inl, inr, refl, sym, ap, ◌∙◌, arith, Bool, true, false, Option, none, some, List, [],
  ◌∷◌, member, Bool-cases, Option-cases, if◌then◌else◌,
}
use alicia_server.Common.Map.{Map, lookup, insert, contains, lookup-insert}
use alicia_server.Data.Storage
use alicia_server.Data.Storage.{
  Entry, DataStorage, DataSource, is_available, Queue, mutable, entry_at, new_entry, no_keys,
  request, process_retrieve_queue, process_store_queue, process_delete_queue,
}
use alicia_server.Data.Storage.View.{IsKeyed, seen, seen-insert_self, seen-insert_ne, seen-entry_at}
use alicia_server.Data.Storage.Queues.{seen-each-retrieve, seen-each-store, seen-each-delete}
use alicia_server.Data.Storage.Abstract.{
  Inv, World, Op, AreAlike, Sets, Adds, Follows, Runs, made, found, done, answer, step, patched,
  view_of,
}
use alicia_server.Data.Storage.Kept.{
  get-Inv, create-Inv, get_or_create-Inv, patched-Inv, is_damaged-Inv, is_damaged-cases, save-Inv,
  delete-Inv,
}
use alicia_server.Data.Storage.Ticks.{
  tick-Inv, process_retrieve_queue-cases, process_store_queue-cases, process_delete_queue-cases,
}

module _ {D S : Type 0} (blank : D) (stored : ℕ → S → Option D) where
  -- A new entry without a datum hides nothing.
  pub seen-new_entry :
      (key k : ℕ) (m : Map (Entry D)) (state : S)
      → lookup key m ≡ none
      → seen blank stored k (insert key (new_entry blank) m) state ≡ seen blank stored k m state
  unfolding seen
  seen-new_entry key k m state e = ground (arith, lookup-insert key k (new_entry blank) m, e)

  pub get-AreAlike :
      (key : ℕ) (retrieve : Bool) (s : DataStorage D) (state : S)
      → AreAlike
          (view_of blank stored (s, state))
          (view_of blank stored ((Storage.get blank key retrieve s).1, state))
  unfolding Storage.get
  get-AreAlike key retrieve s state k = elim (Option-cases (lookup key s.entries)) [
    | inr (entry, e) ↦ rw (e, Storage.get) (refl, refl)
    | inl e ↦
        let new = seen-new_entry key k s.entries state e in
        rw (e, Storage.get)
          (elim (Bool-cases retrieve) [ inl r ↦ rw (r) (new, refl) | inr r ↦ rw (r) (new, refl) ])
  ]

  -- An entry takes a datum.
  insert-Sets :
      (key : ℕ) (entry : Entry D) (s : DataStorage D) (state : S) (q : Queue)
      → entry.available ≡ true
      → Sets key entry.value (view_of blank stored (s, state)) (
          view_of blank stored
            (record s { entries = insert key entry s.entries; store_queue = q }, state))
  insert-Sets key entry s state q there = (
    seen-insert_self blank stored key entry s.entries state ∙ simp there,
    λ k ne. seen-insert_ne blank stored key k entry s.entries state state ne refl,
    λ k. refl,
  )

  -- A key with an entry is known, and ready when the entry is available.
  known_ready :
      (key : ℕ) (entry : Entry D) (s : DataStorage D)
      → lookup key s.entries ≡ some entry
      → entry.available ≡ true
      → (contains key s.entries ≡ true) × (is_available key s ≡ true)
  unfolding contains is_available
  known_ready key entry s e there = (ground (arith, e), ground (arith, e, there))

  insert-Adds :
      (key : ℕ) (entry : Entry D) (s : DataStorage D) (state : S) (q : Queue)
      → entry.available ≡ true
      → contains key s.entries ≡ false
      → Adds key entry.value (view_of blank stored (s, state)) (
          view_of blank stored
            (record s { entries = insert key entry s.entries; store_queue = q }, state))
  insert-Adds key entry s state q there new =
      let after : DataStorage D = record s {
        entries = insert key entry s.entries;
        store_queue = q;
      } in
      let e : lookup key after.entries ≡ some entry =
        ground (arith, lookup-insert key key entry s.entries) in
      let ready = known_ready key entry after e there in
      (new, insert-Sets key entry s state q there, ready.0, ready.1)

  create-Follows :
      (key : ℕ) (datum : D) (s : DataStorage D) (state : S)
      → Follows
          (Op.create key datum)
          (made (Storage.create blank key datum s).0)
          (view_of blank stored (s, state))
          (view_of blank stored ((Storage.create blank key datum s).1, state))
  unfolding Storage.create
  create-Follows key datum s state =
      let entry = record (new_entry blank) { value = datum; available = true } in
      elim (Bool-cases (contains key s.entries)) [
        | inl e ↦ inl (e, (λ k. rw (e, Storage.create) (refl, refl)), rw (e, Storage.create) refl)
        | inr e ↦
            let (new, sets, known, ready) =
              insert-Adds key entry s state (request key s.store_queue) refl e in
            inr (
              (
                e,
                rw (e, Storage.create) sets,
                rw (e, Storage.create) known,
                rw (e, Storage.create) ready,
              ),
              rw (e, Storage.create) refl,
            )
      ]

  get_or_create-Follows :
      (key : ℕ) (datum : D) (s : DataStorage D) (state : S)
      → Follows
          (Op.get_or_create key datum)
          (found (some (Storage.get_or_create blank key datum s).0))
          (view_of blank stored (s, state))
          (view_of blank stored ((Storage.get_or_create blank key datum s).1, state))
  unfolding Storage.get_or_create
  get_or_create-Follows key datum s state =
      let entry = record (new_entry blank) { value = datum; available = true } in
      elim (Bool-cases (contains key s.entries)) [
        | inl e ↦ (
          rw (e, Storage.get_or_create) refl,
          inl (e, λ k. rw (e, Storage.get_or_create) (refl, refl)),
        )
        | inr e ↦
            let (new, sets, known, ready) =
              insert-Adds key entry s state (request key s.store_queue) refl e in
            (
              rw (e, Storage.get_or_create) refl,
              inr (
                e,
                rw (e, Storage.get_or_create) sets,
                rw (e, Storage.get_or_create) known,
                rw (e, Storage.get_or_create) ready,
              ),
            )
      ]

  get_known :
      (key : ℕ) (retrieve : Bool) (s : DataStorage D)
      → (contains key (Storage.get blank key retrieve s).1.entries ≡ true)
        × ((Storage.get blank key retrieve s).0 ≡ (if is_available key s then some key else none))
  unfolding Storage.get contains is_available
  get_known key retrieve s = elim (Option-cases (lookup key s.entries)) [
    | inr (entry, e) ↦ rw (e, Storage.get) (ground (arith, e), ground (arith, e))
    | inl e ↦
        rw (e, Storage.get)
          (
            elim (Bool-cases retrieve) [
              | inl r ↦ ground (arith, r, lookup-insert key key (new_entry blank) s.entries)
              | inr r ↦ ground (arith, r, lookup-insert key key (new_entry blank) s.entries)
            ],
            ground (arith, e),
          )
  ]

  -- A record that is answered is the one of the key, and its datum is there.
  get-some :
      (key : ℕ) (s : DataStorage D) (k : ℕ)
      → (Storage.get blank key true s).0 ≡ some k
      → (k ≡ key)
        × ((entry_at blank key s.entries).available ≡ true)
        × ((Storage.get blank key true s).1 ≡ s)
  unfolding Storage.get
  get-some key s k e = ground arith

  patch-Follows :
      (key : ℕ) (consumer : D → D) (s : DataStorage D) (state : S)
      → Follows
          (Op.patch key consumer)
          (found (Storage.get blank key true s).0)
          (view_of blank stored (s, state))
          (view_of blank stored (patched blank key consumer s, state))
  unfolding mutable
  patch-Follows key consumer s state = elim (Option-cases (Storage.get blank key true s).0) [
    | inl e ↦ inl (
      ground (arith, e, (get_known key true s).1),
      rw (e, patched) (get-AreAlike key true s state),
      ap found e,
    )
    | inr (k, e) ↦
        let (same, there, kept) = get-some key s k e in
        let entry = entry_at blank key s.entries in
        let changed = record entry { value = consumer entry.value } in
        inr (
          ground (arith, e, (get_known key true s).1),
          (
            entry.value,
            sym (seen-entry_at blank stored key s.entries state) ∙ simp there,
            rw (e, patched)
                (rw (kept, same)
                  (insert-Sets key changed s state (request key s.store_queue) there)),
          ),
          ap found (e ∙ ap some same),
        )
  ]

  module _ (source : DataSource D S) (laws : IsKeyed source stored) where
    pub seen-process_retrieve_queue :
        (now k : ℕ) (s : DataStorage D) (state : S)
        → Inv blank s
        → let done = process_retrieve_queue blank source now s state in
          (seen blank stored k done.0.entries done.1 ≡ seen blank stored k s.entries state)
          × (done.0.delete_queue ≡ s.delete_queue)
    seen-process_retrieve_queue now k s state i =
        elim (process_retrieve_queue-cases blank source now s state) [
          | inl (f, e) ↦ rw (e) (refl, refl)
          | inr e ↦ rw (e) (
            seen-each-retrieve blank source stored laws now s.retrieve_queue.keys k s.entries state
                i.set_like i.away,
            refl,
          )
        ]

    pub seen-process_store_queue :
        (k : ℕ) (s : DataStorage D) (state : S)
        → let done = process_store_queue blank source s state in
          (seen blank stored k done.0.entries done.1 ≡ seen blank stored k s.entries state)
          × (done.0.delete_queue ≡ s.delete_queue)
    seen-process_store_queue k s state = elim (process_store_queue-cases blank source s state) [
      | inl (f, e) ↦ rw (e) (refl, refl)
      | inr e ↦
          rw (e)
            (seen-each-store blank source stored laws s.store_queue.keys k s.entries state, refl)
    ]

    seen-process_delete_queue :
        (k : ℕ) (s : DataStorage D) (state : S)
        → let done = process_delete_queue blank source s state in
          (seen blank stored k done.0.entries done.1 ≡ seen blank stored k s.entries state)
          ⊎ ((member k s.delete_queue.keys ≡ true)
              × (seen blank stored k done.0.entries done.1 ≡ none))
    seen-process_delete_queue k s state = elim (process_delete_queue-cases blank source s state) [
      | inl (f, e) ↦ rw (e) (inl refl)
      | inr e ↦
          rw (e) (seen-each-delete blank source stored laws s.delete_queue.keys k s.entries state)
    ]

    pub tick-Follows :
        (now : ℕ) (s : DataStorage D) (state : S)
        → Inv blank s
        → Follows
            (Op.tick now)
            done
            (view_of blank stored (s, state))
            (view_of blank stored (Storage.tick blank source now s state))
    unfolding Storage.tick
    tick-Follows now s state i k =
        let retrieved = process_retrieve_queue blank source now s state in
        let kept = process_store_queue blank source retrieved.0 retrieved.1 in
        let first = seen-process_retrieve_queue now k s state i in
        let second = seen-process_store_queue k retrieved.0 retrieved.1 in
        (
          elim (seen-process_delete_queue k kept.0 kept.1) [
            | inl e ↦ inl (e ∙ second.0 ∙ first.0)
            | inr (m, e) ↦
                inr (sym (ap (λ (q : Queue). member k q.keys) (second.1 ∙ first.1)) ∙ m, e)
          ],
          rw ((tick-Inv blank source now s state i).1) refl,
        )

    step-Inv : (op : Op D) (w : World D S) → Inv blank w.0 → Inv blank (step blank source op w).0
    unfolding step
    step-Inv (Op.get key retrieve) w i = get-Inv blank key retrieve w.0 i
    step-Inv (Op.create key datum) w i = create-Inv blank key datum w.0 i
    step-Inv (Op.get_or_create key datum) w i = get_or_create-Inv blank key datum w.0 i
    step-Inv (Op.patch key consumer) w i = patched-Inv blank key consumer w.0 i
    step-Inv (Op.save key) w i = save-Inv blank key w.0 i
    step-Inv (Op.delete key) w i = delete-Inv blank key w.0 i
    step-Inv (Op.examine now key period) w i = is_damaged-Inv blank now period key w.0 i
    step-Inv (Op.tick now) w i = (tick-Inv blank source now w.0 w.1 i).0

    step-Follows :
        (op : Op D) (w : World D S)
        → Inv blank w.0
        → Follows op
            (answer blank source op w)
            (view_of blank stored w)
            (view_of blank stored (step blank source op w))
    unfolding step Storage.save Storage.delete Storage.retry_retrieve
    step-Follows (Op.get key retrieve) w i =
        let (known, told) = get_known key retrieve w.0 in
        (get-AreAlike key retrieve w.0 w.1, known, ap found told)
    step-Follows (Op.create key datum) w i = create-Follows key datum w.0 w.1
    step-Follows (Op.get_or_create key datum) w i = get_or_create-Follows key datum w.0 w.1
    step-Follows (Op.patch key consumer) w i = patch-Follows key consumer w.0 w.1
    step-Follows (Op.save key) w i = λ k. (refl, refl)
    step-Follows (Op.delete key) w i = λ k. (refl, ground arith)
    step-Follows (Op.examine now key period) w i =
        elim (is_damaged-cases blank now period key w.0) [
          | inl e ↦ rw (e) (λ k. (refl, refl))
          | inr (f, e) ↦ rw (e) (λ k. (refl, refl))
        ]
    step-Follows (Op.tick now) w i = tick-Follows now w.0 w.1 i

    -- Any row of calls on the cache does, call by call, what it may do to one abstract store. A Get
    -- answers the key exactly when its datum can be taken; taking, saving and examining never change what is
    -- held. A creation throws for a known key (GetOrCreate answers it) and changes nothing, and sets the datum
    -- of any other key alone, which can be taken then. A patch applies its function to the datum
    -- of its key alone exactly when that can be taken. A tick may only lose the data of the keys that
    -- were deleted before it. It does not matter whether the listeners succeed.
    pub run-Runs :
        (ops : List (Op D)) (w : World D S) → Inv blank w.0 → Runs blank source stored ops w
    run-Runs [] w i = i
    run-Runs (op ∷ ops) w i =
        (step-Follows op w i, run-Runs ops (step blank source op w) (step-Inv op w i))
