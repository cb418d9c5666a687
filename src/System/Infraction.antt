-- ===== src/System/Infraction.antt =====
-- InfractionSystem of src/server/system/InfractionSystem.cpp.
--
-- The user's record is there or not; the records of the infractions are all there, since the source
-- takes them without a test. Time points are the nanoseconds of the clock as the 64 bits that hold them in
-- two's complement, durations are in seconds; a sum that does not fit wraps.
pub mod Punished
use alicia_server.Common.{
  ℕ, ◌+◌, ◌-◌, ◌*◌, ◌%◌, ◌^◌, List, [], ◌∷◌, Bool, true, false, not, ◌&&◌, Option, none, some, ltb,
  ◌==◌, if◌then◌else◌,
}
use alicia_server.Common.Outcome.{Outcome, returned, threw, runtime_error}

-- data::Infraction::Punishment, with None as `unpunished`
pub data Punishment : Type 0 where
  unpunished mute ban : Punishment

pub record Infraction : Type 0 where
  pub punishment : Punishment
  pub duration : ℕ
  pub created_at : ℕ

pub record Verdict : Type 0 where
  pub mute_active : Bool
  pub mute_expires_at : ℕ
  pub prevent_server_joining : Bool
  pub prevent_room_joining : Bool
  pub prevent_breeding : Bool

-- std::chrono::seconds::max()
abbrev pub max_duration : ℕ
max_duration = 2 ^ 63 - 1

abbrev pub clean_verdict : Verdict
clean_verdict = record {
  mute_active = false;
  mute_expires_at = 0;
  prevent_server_joining = false;
  prevent_room_joining = false;
  prevent_breeding = false;
}

-- expiresAt
unfoldable pub expires_at : Infraction → ℕ
expires_at infraction = (infraction.created_at + infraction.duration * 10 ^ 9) % 2 ^ 64

-- `<` of two time points
unfoldable pub is_before : (t u : ℕ) → Bool
is_before t u = ltb ((t + 2 ^ 63) % 2 ^ 64) ((u + 2 ^ 63) % 2 ^ 64)

-- isExpired
unfoldable pub is_expired : ℕ → Infraction → Bool
is_expired now infraction =
    if infraction.duration == max_duration then false else is_before (expires_at infraction) now

-- one round of the loop
unfoldable pub judge : ℕ → Infraction → Verdict → Verdict
judge now infraction verdict =
    if is_expired now infraction then verdict else elim infraction.punishment [
      | mute ↦ record verdict { mute_active = true; mute_expires_at = expires_at infraction }
      | ban ↦ record verdict { prevent_server_joining = true }
      | unpunished ↦ verdict
    ]

unfoldable pub judge_all : ℕ → List Infraction → Verdict → Verdict
judge_all now [] verdict = verdict
judge_all now (infraction ∷ infractions) verdict =
    judge_all now infractions (judge now infraction verdict)

-- InfractionSystem::CheckOutstandingPunishments, with the infractions of the user when the record is
-- there
unfoldable pub check_outstanding_punishments : ℕ → Option (List Infraction) → Outcome Verdict
check_outstanding_punishments now none = threw runtime_error
check_outstanding_punishments now (some infractions) =
    returned (judge_all now infractions clean_verdict)
