-- ===== src/Data/Repair.antt =====
-- The tests of src/libserver/data/DataRepair.cpp for data that cannot be retrieved any more.
use alicia_server.Common.{ℕ, List, [], ◌∷◌, Bool, true, false, ◌==◌, if◌then◌else◌}
use alicia_server.Data.Storage.{
  DataStorage, get_retrieve_failure_count, has_retrieve_failed_for, retry_retrieve,
}

-- data::InvalidUid
abbrev pub invalid_uid : ℕ
invalid_uid = 0

module _ {D : Type 0} where
  -- IsDamaged at the time `now`, with `period` for repair::DamagedGracePeriod: a retrieval that failed
  -- is tried again until it has been failing for the whole period.
  unfoldable pub is_damaged : ℕ → ℕ → ℕ → DataStorage D → Bool × DataStorage D
  is_damaged now period uid s =
      if uid == invalid_uid
      then (false, s)
      else (if get_retrieve_failure_count uid s == 0
          then (false, s)
          else (if has_retrieve_failed_for now uid period s
              then (true, s)
              else (false, retry_retrieve uid s)))

  -- AreAnyDamaged: every UID is visited
  unfoldable pub are_any_damaged : ℕ → ℕ → List ℕ → DataStorage D → Bool × DataStorage D
  are_any_damaged now period [] s = (false, s)
  are_any_damaged now period (uid ∷ uids) s =
      let first = is_damaged now period uid s in
      let rest = are_any_damaged now period uids first.1 in
      (if first.0 then true else rest.0, rest.1)
