-- ===== src/Data/Storage.antt =====
-- DataStorage of include/libserver/data/DataStorage.hpp with the records of
-- include/libserver/data/Record.hpp: a cache of the entries of a data source.
--
-- The three listeners are the data source, which is outside: it has a state of its own, and a
-- listener answers whether it succeeded, with the datum that it was given by reference. A record
-- is the key of its entry. `keys` is the set `data` of a queue, as a list in any
-- order. What a mutex protects is one step, and so is the processing of a queue.
pub mod View
pub mod Queues
pub mod Abstract
pub mod Kept
pub mod Ticks
pub mod Refinement
pub mod Durability
pub mod Records
pub mod Stuck
pub mod Failed
use alicia_server.Common.{
  ℕ, ◌+◌, ◌-◌, ◌%◌, ◌^◌, List, [], ◌∷◌, Bool, true, false, Option, none, some, ◌==◌, leb,
  if◌then◌else◌, member,
}
use alicia_server.Common.Map.{Map, lookup, insert, contains}
use alicia_server.Common.Outcome.{Outcome, returned, threw, runtime_error}

pub record Entry (D : Type 0) : Type 0 where
  pub available : Bool
  pub retrieve_failure_count : ℕ
  pub first_retrieve_failure : ℕ
  pub value : D

pub record Queue : Type 0 where
  pub data_flag : Bool
  pub keys : List ℕ

pub record DataStorage (D : Type 0) : Type 0 where
  pub retrieve_queue : Queue
  pub store_queue : Queue
  pub delete_queue : Queue
  pub entries : Map (Entry D)

-- the listeners: whether they succeeded, the datum and the state of the source that they leave
pub record DataSource (D S : Type 0) : Type 0 where
  pub retrieve : ℕ → D → S → Bool × D × S
  pub store : ℕ → D → S → Bool × D × S
  pub delete : ℕ → S → Bool × S

abbrev pub no_keys : Queue
no_keys = record { data_flag = false; keys = [] }

abbrev pub empty : {D : Type 0} → DataStorage D
empty = record {
  retrieve_queue = no_keys;
  store_queue = no_keys;
  delete_queue = no_keys;
  entries = [];
}

-- the common body of RequestRetrieve, RequestStore and RequestDelete
abbrev pub request : ℕ → Queue → Queue
request key q = record {
  data_flag = true;
  keys = if member key q.keys then q.keys else key ∷ q.keys;
}

module _ {D : Type 0} where
  abbrev pub request_retrieve : ℕ → DataStorage D → DataStorage D
  request_retrieve key s = record s { retrieve_queue = request key s.retrieve_queue }

  abbrev pub request_store : ℕ → DataStorage D → DataStorage D
  request_store key s = record s { store_queue = request key s.store_queue }

  abbrev pub request_delete : ℕ → DataStorage D → DataStorage D
  request_delete key s = record s { delete_queue = request key s.delete_queue }

  -- DataStorage::Save, DataStorage::Delete and DataStorage::RetryRetrieve
  unfoldable pub save : ℕ → DataStorage D → DataStorage D
  save key s = request_store key s

  unfoldable pub delete : ℕ → DataStorage D → DataStorage D
  delete key s = request_delete key s

  unfoldable pub retry_retrieve : ℕ → DataStorage D → DataStorage D
  retry_retrieve key s = request_retrieve key s

  -- DataStorage::IsAvailable of a key, and of a span of keys
  unfoldable pub is_available : ℕ → DataStorage D → Bool
  is_available key s = elim (lookup key s.entries) [ none ↦ false | some entry ↦ entry.available ]

  unfoldable pub are_available : List ℕ → DataStorage D → Bool
  are_available [] s = true
  are_available (key ∷ keys) s =
      let rest = are_available keys s in if is_available key s then rest else false

  -- DataStorage::GetRetrieveFailureCount
  unfoldable pub get_retrieve_failure_count : ℕ → DataStorage D → ℕ
  get_retrieve_failure_count key s = elim (lookup key s.entries) [
    | none ↦ 0
    | some entry ↦ entry.retrieve_failure_count
  ]

  -- DataStorage::HasRetrieveFailedFor at the time `now`, no earlier than the first failure
  unfoldable pub has_retrieve_failed_for : ℕ → ℕ → ℕ → DataStorage D → Bool
  has_retrieve_failed_for now key duration s = elim (lookup key s.entries) [
    | none ↦ false
    | some entry ↦
        if entry.retrieve_failure_count == 0
        then false
        else leb duration (now - entry.first_retrieve_failure)
  ]

-- `blank` is the datum of an entry that was just emplaced.
module _ {D : Type 0} (blank : D) where
  abbrev pub new_entry : Entry D
  new_entry = record {
    available = false;
    retrieve_failure_count = 0;
    first_retrieve_failure = 0;
    value = blank;
  }

  -- the entry that _entries[key] refers to
  abbrev pub entry_at : ℕ → Map (Entry D) → Entry D
  entry_at key m = elim (lookup key m) [ none ↦ new_entry | some entry ↦ entry ]

  -- DataStorage::Create, with what its supplier returned
  unfoldable pub create : ℕ → D → DataStorage D → Outcome ℕ × DataStorage D
  create key datum s = if contains key s.entries then (threw runtime_error, s) else (
    returned key,
    request_store key (record s {
      entries = insert key (record new_entry { value = datum; available = true }) s.entries;
    }),
  )

  -- DataStorage::GetOrCreate, with what its supplier returned
  unfoldable pub get_or_create : ℕ → D → DataStorage D → ℕ × DataStorage D
  get_or_create key datum s = if contains key s.entries then (key, s) else (
    key,
    request_store key (record s {
      entries = insert key (record new_entry { value = datum; available = true }) s.entries;
    }),
  )

  -- DataStorage::Get of a key
  unfoldable pub get : ℕ → Bool → DataStorage D → Option ℕ × DataStorage D
  get key retrieve s = elim (lookup key s.entries) [
    | some entry ↦ (if entry.available then some key else none, s)
    | none ↦
        let emplaced = record s { entries = insert key new_entry s.entries } in
        (none, if retrieve then request_retrieve key emplaced else emplaced)
  ]

  -- DataStorage::Get of a span of keys: every key is asked for, also behind one that is missing.
  unfoldable pub get_all : List ℕ → DataStorage D → Option (List ℕ) × DataStorage D
  get_all [] s = (some [], s)
  get_all (key ∷ keys) s =
      let got = get key true s in
      let rest = get_all keys got.1 in
      (
        elim got.0 [
          | none ↦ none
          | some record_key ↦ elim rest.0 [
            | none ↦ none
            | some records ↦ some (record_key ∷ records)
          ]
        ],
        rest.1,
      )

  -- Record::Mutable of the record of a key, for its consumer
  unfoldable pub mutable : ℕ → (D → D) → DataStorage D → DataStorage D
  mutable key consumer s =
      let entry = entry_at key s.entries in
      request_store key (record s {
        entries = insert key (record entry { value = consumer entry.value }) s.entries;
      })

-- The three loops over the keys of a queue, with one round as an argument.
unfoldable pub each : {A S : Type 0} → (ℕ → A → S → A × S) → List ℕ → A → S → A × S
each one [] m state = (m, state)
each one (key ∷ keys) m state = let done = one key m state in each one keys done.0 done.1

-- the loop of DataStorage::Terminate that asks for every available entry to be stored
unfoldable pub request_available : {D : Type 0} → Map (Entry D) → Queue → Queue
request_available [] q = q
request_available ((key, entry) ∷ m) q =
    request_available m (if entry.available then request key q else q)

-- The processing of the queues, from a data source in its state `S`.
module _ {D S : Type 0} (blank : D) (source : DataSource D S) where
  -- one round of the loop in ProcessRetrieveQueue, at the time `now`
  unfoldable pub retrieve_one : ℕ → ℕ → Map (Entry D) → S → Map (Entry D) × S
  retrieve_one now key m state =
      let entry = entry_at blank key m in
      let answer = source.retrieve key entry.value state in
      (
        insert key
            (if answer.0
              then record entry { available = true; retrieve_failure_count = 0; value = answer.1 }
              else record entry {
                retrieve_failure_count = (entry.retrieve_failure_count + 1) % 2 ^ 32;
                first_retrieve_failure =
                    if entry.retrieve_failure_count == 0 then now else entry.first_retrieve_failure;
                value = answer.1;
              })
            m,
        answer.2,
      )

  -- one round of the loop in ProcessStoreQueue; the listener's answer is dropped
  unfoldable pub store_one : ℕ → Map (Entry D) → S → Map (Entry D) × S
  store_one key m state =
      let entry = entry_at blank key m in
      let answer = source.store key entry.value state in
      if entry.available
      then (insert key (record entry { value = answer.1 }) m, answer.2)
      else (insert key entry m, state)

  -- one round of the loop in ProcessDeleteQueue
  unfoldable pub delete_one : ℕ → Map (Entry D) → S → Map (Entry D) × S
  delete_one key m state =
      let entry = entry_at blank key m in
      let answer = source.delete key state in
      if entry.available
      then (insert key (if answer.0 then record entry { available = false } else entry) m, answer.1)
      else (insert key entry m, state)

  -- DataStorage::ProcessRetrieveQueue
  unfoldable pub process_retrieve_queue : ℕ → DataStorage D → S → DataStorage D × S
  process_retrieve_queue now s state =
      let done = each (retrieve_one now) s.retrieve_queue.keys s.entries state in
      if s.retrieve_queue.data_flag
      then (record s { retrieve_queue = no_keys; entries = done.0 }, done.1)
      else (s, state)

  -- DataStorage::ProcessStoreQueue
  unfoldable pub process_store_queue : DataStorage D → S → DataStorage D × S
  process_store_queue s state =
      let done = each store_one s.store_queue.keys s.entries state in
      if s.store_queue.data_flag
      then (record s { store_queue = no_keys; entries = done.0 }, done.1)
      else (s, state)

  -- DataStorage::ProcessDeleteQueue
  unfoldable pub process_delete_queue : DataStorage D → S → DataStorage D × S
  process_delete_queue s state =
      let done = each delete_one s.delete_queue.keys s.entries state in
      if s.delete_queue.data_flag
      then (record s { delete_queue = no_keys; entries = done.0 }, done.1)
      else (s, state)

  -- DataStorage::Tick
  unfoldable pub tick : ℕ → DataStorage D → S → DataStorage D × S
  tick now s state =
      let retrieved = process_retrieve_queue now s state in
      let stored = process_store_queue retrieved.0 retrieved.1 in
      process_delete_queue stored.0 stored.1

  -- DataStorage::Terminate
  unfoldable pub terminate : ℕ → DataStorage D → S → DataStorage D × S
  terminate now s state =
      let asked = record s { store_queue = request_available s.entries s.store_queue } in
      let done = tick now asked state in (record (done.0) { entries = [] }, done.1)
