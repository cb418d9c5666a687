-- ===== src/Data/Tests.antt =====
-- The cache at a concrete data source: a map of numbers, whose listeners never fail but for a key
-- that it does not have.
use alicia_server.Common.{
  ℕ, ◌≡◌, ◌⊎◌, refl, arith, true, false, Option, none, some, is_some, ◌+◌, List, [], ◌∷◌, ◌==◌,
  if◌then◌else◌, member,
}
use alicia_server.Common.Map.{lookup, contains}
use alicia_server.Common.Outcome.{returned, threw, runtime_error}
use alicia_server.Data.Storage.{
  DataStorage, DataSource, empty, get, create, tick, terminate, entry_at,
}
use alicia_server.Data.Storage.View.{IsKeyed, seen}
use alicia_server.Data.Storage.Queues.{AreHonest}
use alicia_server.Data.Storage.Abstract.{Inv, Op, Runs, run}
use alicia_server.Data.Storage.Kept.{create-Inv}
use alicia_server.Data.Storage.Refinement.{run-Runs}
use alicia_server.Data.Storage.Durability.{terminate-stored}
use alicia_server.Data.Storage.Records.{create-get, get-tick}
use alicia_server.Data.Storage.Failed.{failed-get}

-- A retrieval of a missing key gives a zero.
unfoldable answer : Option ℕ → ℕ
answer none = 0
answer (some v) = v

abbrev numbers : DataSource ℕ (ℕ → Option ℕ)
numbers = record {
  retrieve = λ key datum state. (is_some (state key), answer (state key), state);
  store = λ key datum state. (true, datum, λ k. if key == k then some datum else state k);
  delete = λ key state. (true, λ k. if key == k then none else state k);
}

abbrev stored_number : ℕ → (ℕ → Option ℕ) → Option ℕ
stored_number key state = state key

numbers-IsKeyed : IsKeyed numbers stored_number
unfolding answer
numbers-IsKeyed = record {
  retrieved = λ key datum state h. ground arith;
  retrieve_keeps = λ key other datum state. refl;
  store_keeps = λ key other datum state ne. ground arith;
  store_datum = λ key datum state. refl;
  written = λ key datum state h. ground arith;
  delete_keeps = λ key other state ne. ground arith;
  deleted = λ key state h. ground arith;
  delete_fails = λ key state h. ground arith;
}

empty-Inv : Inv {D = ℕ} 0 empty
unfolding AreHonest lookup
empty-Inv = record {
  known = λ k m. ground arith;
  away = λ k m. ground arith;
  set_like = tt;
  honest = λ k f. refl;
  no_retrieve = λ e. refl;
  no_delete = λ e. refl;
}

-- A source that has a number for every key and never deletes.
abbrev fixed : DataSource ℕ (ℕ → ℕ)
fixed = record {
  retrieve = λ key datum state. (true, state key, state);
  store = λ key datum state. (true, datum, λ k. if key == k then datum else state k);
  delete = λ key state. (false, state);
}

abbrev fixed_number : ℕ → (ℕ → ℕ) → Option ℕ
fixed_number key state = some (state key)

fixed-IsKeyed : IsKeyed fixed fixed_number
fixed-IsKeyed = record {
  retrieved = λ key datum state h. refl;
  retrieve_keeps = λ key other datum state. refl;
  store_keeps = λ key other datum state ne. ground arith;
  store_datum = λ key datum state. refl;
  written = λ key datum state h. ground arith;
  delete_keeps = λ key other state ne. refl;
  deleted = λ key state h. ground arith;
  delete_fails = λ key state h. refl;
}

-- A datum is made, patched, deleted, and the cache ticks.
abbrev calls : List (Op ℕ)
calls =
    Op.create 1 10
    ∷ Op.patch 1 (λ v. v + 1)
    ∷ Op.get 2 true
    ∷ Op.tick 5
    ∷ Op.delete 1
    ∷ Op.tick 6
    ∷ []

-- the source at first
abbrev at_first : ℕ → Option ℕ
at_first key = if key == 2 then some 20 else none

run-Runs_example : Runs 0 numbers stored_number calls (empty, at_first)
run-Runs_example =
    run-Runs 0 stored_number numbers numbers-IsKeyed calls (empty, at_first) empty-Inv

-- A created datum reaches the source.
abbrev made : DataStorage ℕ
made = (create 0 3 30 empty).1

terminate-stored_example :
    (stored_number 3 (terminate 0 numbers 9 made at_first).1
      ≡ seen 0 stored_number 3 made.entries at_first)
    ⊎ ((member 3 made.delete_queue.keys ≡ true)
        × (stored_number 3 (terminate 0 numbers 9 made at_first).1 ≡ none))
terminate-stored_example =
    (terminate-stored 0 stored_number numbers numbers-IsKeyed (λ key datum state. refl) 9 made
        at_first (create-Inv 0 3 30 empty empty-Inv)).1
      3

create-get_example :
    ((contains 3 made.entries ≡ true) × (create 0 3 31 made ≡ (threw runtime_error, made)))
    ⊎ ((contains 3 made.entries ≡ false)
        × ((create 0 3 31 made).0 ≡ returned 3)
        × ((get 0 3 true (create 0 3 31 made).1 ≡ (some 3, (create 0 3 31 made).1))
            × ((entry_at 0 3 (create 0 3 31 made).1.entries).value ≡ 31)
            × (member 3 (create 0 3 31 made).1.store_queue.keys ≡ true)
            × ((create 0 3 31 made).1.store_queue.data_flag ≡ true)))
create-get_example = create-get 0 3 31 made

get-tick_example :
    let asked = get {D = ℕ} 0 7 true empty in
    let after = tick 0 fixed 4 asked.1 (λ key. key + 1) in
    (asked.0 ≡ none)
    × (get 0 7 true after.0 ≡ (some 7, after.0))
    × (fixed_number 7 (λ key. key + 1) ≡ some ((entry_at 0 7 after.0.entries).value))
unfolding lookup
get-tick_example =
    get-tick 0 fixed_number fixed fixed-IsKeyed (λ key datum state. refl) 4 7 empty (λ key. key + 1)
      empty-Inv refl refl

-- A source that never has a number.
abbrev broken : DataSource ℕ (ℕ → ℕ)
broken = record fixed { retrieve = λ key datum state. (false, datum, state) }

abbrev tries : List (Op ℕ)
tries = Op.get 2 true ∷ Op.tick 8 ∷ Op.create 2 5 ∷ Op.examine 9 3 1 ∷ Op.tick 9 ∷ []

-- After the failure the source would have the number.
failed-get_example :
    (get 0 2 true
      (run 0 fixed tries (tick 0 broken 7 (get {D = ℕ} 0 2 true empty).1 (λ key. key))).0).0
    ≡ none
unfolding lookup
failed-get_example =
    failed-get 0 broken fixed 2 7 tries empty (λ key. key) (λ datum state. refl) refl
      (λ e. absurd (omega (arith, e)), tt)
