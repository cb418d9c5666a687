-- ===== src/Data/Storage/Abstract.antt =====
-- The cache of include/libserver/data/DataStorage.hpp as an abstract store: what is seen at a key,
-- and which keys are doomed by a deletion that waits for the next tick.
use alicia_server.Common.{
  IsSetLike, ℕ, ◌≡◌, ◌≢◌, ◌⊎◌, Bool, true, false, Option, none, some, ◌==◌, if◌then◌else◌, List, [],
  ◌∷◌, member,
}
use alicia_server.Common.Map.{contains}
use alicia_server.Common.Outcome.{Outcome, returned, threw, runtime_error}
use alicia_server.Data.Repair.{is_damaged}
use alicia_server.Data.Storage
use alicia_server.Data.Storage.{
  DataStorage, DataSource, is_available, mutable, process_retrieve_queue, process_store_queue,
  process_delete_queue,
}
use alicia_server.Data.Storage.View.{seen}
use alicia_server.Data.Storage.Queues.{AreHonest, AreAway}

-- What a caller can do.
pub data Op (D : Type 0) : Type 0 where
  get : ℕ → Bool → Op D
  create get_or_create : ℕ → D → Op D
  patch : ℕ → (D → D) → Op D
  save delete : ℕ → Op D
  examine : ℕ → ℕ → ℕ → Op D
  tick : ℕ → Op D

-- what the caller is told: nothing, the key of a record if there is one, or how a creation ended
pub data Answer : Type 0 where
  done : Answer
  found : Option ℕ → Answer
  made : Outcome ℕ → Answer

-- the abstract store: the datum of each key, whether a key has been asked for or created, whether its
-- datum can be taken, and whether it is to be deleted
pub record Store (D : Type 0) : Type 0 where
  pub value : ℕ → Option D
  pub is_known : ℕ → Bool
  pub is_ready : ℕ → Bool
  pub is_doomed : ℕ → Bool

module _ {D : Type 0} where
  -- Two stores with the same data and deletions, and two where those of `key` alone differ.
  abbrev pub AreAlike : Store D → Store D → Type 0
  AreAlike b a = (k : ℕ) → (a.value k ≡ b.value k) × (a.is_doomed k ≡ b.is_doomed k)

  abbrev pub Sets : ℕ → D → Store D → Store D → Type 0
  Sets key datum b a =
      (a.value key ≡ some datum)
      × ((k : ℕ) → key ≢ k → a.value k ≡ b.value k)
      × ((k : ℕ) → a.is_doomed k ≡ b.is_doomed k)

  -- A key takes a datum that it did not have, and the datum can be taken from then on.
  abbrev pub Adds : ℕ → D → Store D → Store D → Type 0
  Adds key datum b a =
      (b.is_known key ≡ false)
      × Sets key datum b a
      × (a.is_known key ≡ true)
      × (a.is_ready key ≡ true)

  -- What an operation makes of a store, and what it tells the caller.
  abbrev pub Follows : Op D → Answer → Store D → Store D → Type 0
  Follows (Op.get key retrieve) told b a =
      AreAlike b a
      × (a.is_known key ≡ true)
      × (told ≡ found (if b.is_ready key then some key else none))
  Follows (Op.create key datum) told b a =
      ((b.is_known key ≡ true) × AreAlike b a × (told ≡ made (threw runtime_error)))
      ⊎ (Adds key datum b a × (told ≡ made (returned key)))
  Follows (Op.get_or_create key datum) told b a =
      (told ≡ found (some key)) × (((b.is_known key ≡ true) × AreAlike b a) ⊎ Adds key datum b a)
  Follows (Op.patch key consumer) told b a =
      ((b.is_ready key ≡ false) × AreAlike b a × (told ≡ found none))
      ⊎ ((b.is_ready key ≡ true)
          × ((v : D) × (b.value key ≡ some v) × Sets key (consumer v) b a)
          × (told ≡ found (some key)))
  Follows (Op.save key) told b a = AreAlike b a
  Follows (Op.delete key) told b a =
      (k : ℕ)
      → (a.value k ≡ b.value k) × (a.is_doomed k ≡ (if key == k then true else b.is_doomed k))
  Follows (Op.examine now key period) told b a = AreAlike b a
  Follows (Op.tick now) told b a =
      (k : ℕ)
      → ((a.value k ≡ b.value k) ⊎ ((b.is_doomed k ≡ true) × (a.value k ≡ none)))
        × (a.is_doomed k ≡ false)

-- The state of the cache with that of its source.
abbrev pub World : Type 0 → Type 0 → Type 0
World D S = DataStorage D × S

module _ {D : Type 0} (blank : D) where
  -- The keys that wait for a retrieval have an entry without a datum; an entry whose retrieval
  -- failed has none either; a queue whose flag is down is empty.
  pub record Inv (s : DataStorage D) : Type 0 where
    pub known : (k : ℕ) → member k s.retrieve_queue.keys ≡ true → contains k s.entries ≡ true
    pub away : AreAway blank s.retrieve_queue.keys s.entries
    pub set_like : IsSetLike s.retrieve_queue.keys
    pub honest : AreHonest blank s.entries
    pub no_retrieve : s.retrieve_queue.data_flag ≡ false → s.retrieve_queue.keys ≡ []
    pub no_delete : s.delete_queue.data_flag ≡ false → s.delete_queue.keys ≡ []

module _ {D : Type 0} (blank : D) where
  -- the record of a key is taken, and patched when there is one
  abbrev pub patched : ℕ → (D → D) → DataStorage D → DataStorage D
  patched key consumer s =
      let got = Storage.get blank key true s in
      elim got.0 [ none ↦ got.1 | some record_key ↦ mutable blank record_key consumer got.1 ]

module _ {D S : Type 0} (blank : D) (source : DataSource D S) where
  unfoldable pub step : Op D → World D S → World D S
  step (Op.get key retrieve) w = ((Storage.get blank key retrieve w.0).1, w.1)
  step (Op.create key datum) w = ((Storage.create blank key datum w.0).1, w.1)
  step (Op.get_or_create key datum) w = ((Storage.get_or_create blank key datum w.0).1, w.1)
  step (Op.patch key consumer) w = (patched blank key consumer w.0, w.1)
  step (Op.save key) w = (Storage.save key w.0, w.1)
  step (Op.delete key) w = (Storage.delete key w.0, w.1)
  step (Op.examine now key period) w = ((is_damaged now period key w.0).1, w.1)
  step (Op.tick now) w = Storage.tick blank source now w.0 w.1

  abbrev pub answer : Op D → World D S → Answer
  answer (Op.get key retrieve) w = found (Storage.get blank key retrieve w.0).0
  answer (Op.create key datum) w = made (Storage.create blank key datum w.0).0
  answer (Op.get_or_create key datum) w = found (some (Storage.get_or_create blank key datum w.0).0)
  answer (Op.patch key consumer) w = found (Storage.get blank key true w.0).0
  answer op w = done

  unfoldable pub run : List (Op D) → World D S → World D S
  run [] w = w
  run (op ∷ ops) w = run ops (step op w)

-- What the cache and its source hold together.
abbrev pub view_of : {D S : Type 0} → D → (ℕ → S → Option D) → World D S → Store D
view_of blank stored w = record {
  value = λ k. seen blank stored k w.0.entries w.1;
  is_known = λ k. contains k w.0.entries;
  is_ready = λ k. is_available k w.0;
  is_doomed = λ k. member k w.0.delete_queue.keys;
}

-- Each of the operations in turn does to the abstract store what it may, with the answer that it gives.
abbrev pub Runs :
    {D S : Type 0} → D → DataSource D S → (ℕ → S → Option D) → List (Op D) → World D S → Type 0
Runs blank source stored [] w = Inv blank w.0
Runs blank source stored (op ∷ ops) w =
    let after = step blank source op w in
    Follows op (answer blank source op w) (view_of blank stored w) (view_of blank stored after)
    × Runs blank source stored ops after
