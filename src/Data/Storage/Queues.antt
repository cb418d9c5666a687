-- ===== src/Data/Storage/Queues.antt =====
-- What a whole loop over a queue of include/libserver/data/DataStorage.hpp does to what is seen, and
-- to the entries whose retrieval failed.
use alicia_server.Common.{
  IsSetLike, ℕ, ◌≡◌, ◌≢◌, ◌⊎◌, inl, inr, refl, sym, ◌∙◌, arith, true, false, Option, none, ◌==◌,
  if◌then◌else◌, List, [], ◌∷◌, member, Bool-cases,
}
use alicia_server.Common.Map.{Map, insert, lookup-insert}
use alicia_server.Data.Storage.{
  Entry, DataSource, entry_at, retrieve_one, store_one, delete_one, each,
}
use alicia_server.Data.Storage.View.{
  IsKeyed, seen, seen-retrieve_one, seen-store_one, seen-delete_one,
}

-- An entry whose last retrieval failed has no datum.
abbrev pub IsHonest : {D : Type 0} → Entry D → Type 0
IsHonest entry = entry.retrieve_failure_count ≢ 0 → entry.available ≡ false

module _ {D : Type 0} (blank : D) where
  unfoldable pub AreHonest : Map (Entry D) → Type 0
  AreHonest m = (key : ℕ) → IsHonest (entry_at blank key m)

  -- None of the keys has a datum.
  abbrev pub AreAway : List ℕ → Map (Entry D) → Type 0
  AreAway keys m = (key : ℕ) → member key keys ≡ true → (entry_at blank key m).available ≡ false

  pub entry_at-insert :
      (key other : ℕ) (entry : Entry D) (m : Map (Entry D))
      → entry_at blank other (insert key entry m)
        ≡ (if key == other then entry else entry_at blank other m)
  entry_at-insert key other entry m = ground (arith, lookup-insert key other entry m)

  pub insert-AreHonest :
      (key : ℕ) (entry : Entry D) (m : Map (Entry D))
      → IsHonest entry
      → AreHonest m
      → AreHonest (insert key entry m)
  unfolding AreHonest
  insert-AreHonest key entry m new old other =
      rw (entry_at-insert key other entry m) (ground (arith, new, old other))

  module _ {S : Type 0} (source : DataSource D S) where
    retrieve_one-AreHonest :
        (now key : ℕ) (m : Map (Entry D)) (state : S)
        → (entry_at blank key m).available ≡ false
        → AreHonest m
        → AreHonest (retrieve_one blank source now key m state).0
    unfolding retrieve_one
    retrieve_one-AreHonest now key m state away h =
        insert-AreHonest key _ m (ground (arith, away)) h

    -- A retrieval leaves the other entries.
    pub retrieve_one-other :
        (now key other : ℕ) (m : Map (Entry D)) (state : S)
        → key ≢ other
        → entry_at blank other (retrieve_one blank source now key m state).0
          ≡ entry_at blank other m
    unfolding retrieve_one
    retrieve_one-other now key other m state ne = entry_at-insert key other _ m ∙ ground (arith, ne)

    -- The keys behind the first stay away.
    AreAway-rest :
        (now key : ℕ) (keys : List ℕ) (m : Map (Entry D)) (state : S)
        → member key keys ≡ false
        → AreAway (key ∷ keys) m
        → AreAway keys (retrieve_one blank source now key m state).0
    AreAway-rest now key keys m state new away other i =
        ground (arith, retrieve_one-other now key other m state, away other, new, i)

    store_one-AreHonest :
        (key : ℕ) (m : Map (Entry D)) (state : S)
        → AreHonest m
        → AreHonest (store_one blank source key m state).0
    unfolding store_one AreHonest
    store_one-AreHonest key m state h = elim (Bool-cases (entry_at blank key m).available) [
      | inl b ↦ rw (b) (insert-AreHonest key _ m (λ f. sym b ∙ h key f) h)
      | inr b ↦ rw (b) (insert-AreHonest key _ m (λ f. b) h)
    ]

    delete_one-AreHonest :
        (key : ℕ) (m : Map (Entry D)) (state : S)
        → AreHonest m
        → AreHonest (delete_one blank source key m state).0
    unfolding delete_one AreHonest
    delete_one-AreHonest key m state h = elim (Bool-cases (entry_at blank key m).available) [
      | inl b ↦ rw (b) (insert-AreHonest key _ m (ground (arith, h key)) h)
      | inr b ↦ rw (b) (insert-AreHonest key _ m (λ f. b) h)
    ]

    pub each-store-AreHonest :
        (keys : List ℕ) (m : Map (Entry D)) (state : S)
        → AreHonest m
        → AreHonest (each (store_one blank source) keys m state).0
    unfolding each
    each-store-AreHonest [] m state h = h
    each-store-AreHonest (key ∷ keys) m state h =
        let done = store_one blank source key m state in
        each-store-AreHonest keys done.0 done.1 (store_one-AreHonest key m state h)

    pub each-delete-AreHonest :
        (keys : List ℕ) (m : Map (Entry D)) (state : S)
        → AreHonest m
        → AreHonest (each (delete_one blank source) keys m state).0
    unfolding each
    each-delete-AreHonest [] m state h = h
    each-delete-AreHonest (key ∷ keys) m state h =
        let done = delete_one blank source key m state in
        each-delete-AreHonest keys done.0 done.1 (delete_one-AreHonest key m state h)

    -- The entries that are left by retrieving keys that are away.
    pub each-retrieve-AreHonest :
        (now : ℕ) (keys : List ℕ) (m : Map (Entry D)) (state : S)
        → IsSetLike keys
        → AreAway keys m
        → AreHonest m
        → AreHonest (each (retrieve_one blank source now) keys m state).0
    unfolding each
    each-retrieve-AreHonest now [] m state d away h = h
    each-retrieve-AreHonest now (key ∷ keys) m state d away h =
        let done = retrieve_one blank source now key m state in
        each-retrieve-AreHonest now keys done.0 done.1 d.1
          (AreAway-rest now key keys m state d.0 away)
          (retrieve_one-AreHonest now key m state (away key (ground arith)) h)

    module _ (stored : ℕ → S → Option D) (laws : IsKeyed source stored) where
      -- Retrieving keys that are away changes nothing that is seen.
      pub seen-each-retrieve :
          (now : ℕ) (keys : List ℕ) (other : ℕ) (m : Map (Entry D)) (state : S)
          → IsSetLike keys
          → AreAway keys m
          → let done = each (retrieve_one blank source now) keys m state in
            seen blank stored other done.0 done.1 ≡ seen blank stored other m state
      unfolding each
      seen-each-retrieve now [] other m state d away = refl
      seen-each-retrieve now (key ∷ keys) other m state d away =
          let done = retrieve_one blank source now key m state in
          seen-each-retrieve now keys other done.0 done.1 d.1
            (AreAway-rest now key keys m state d.0 away)
          ∙ seen-retrieve_one blank stored source laws now key other m state
              (away key (ground arith))

      pub seen-each-store :
          (keys : List ℕ) (other : ℕ) (m : Map (Entry D)) (state : S)
          → let done = each (store_one blank source) keys m state in
            seen blank stored other done.0 done.1 ≡ seen blank stored other m state
      unfolding each
      seen-each-store [] other m state = refl
      seen-each-store (key ∷ keys) other m state =
          let done = store_one blank source key m state in
          seen-each-store keys other done.0 done.1
          ∙ seen-store_one blank stored source laws key other m state

      -- Deleting keys leaves what is seen, or nothing at one of them.
      pub seen-each-delete :
          (keys : List ℕ) (other : ℕ) (m : Map (Entry D)) (state : S)
          → let done = each (delete_one blank source) keys m state in
            (seen blank stored other done.0 done.1 ≡ seen blank stored other m state)
            ⊎ ((member other keys ≡ true) × (seen blank stored other done.0 done.1 ≡ none))
      unfolding each
      seen-each-delete [] other m state = inl refl
      seen-each-delete (key ∷ keys) other m state =
          let done = delete_one blank source key m state in
          ground (
            arith,
            seen-each-delete keys other done.0 done.1,
            seen-delete_one blank stored source laws key other m state,
          )
