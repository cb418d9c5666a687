-- ===== src/System/Otp.antt =====
-- OtpSystem of src/server/system/OtpSystem.cpp and include/server/system/OtpSystem.hpp: codes that
-- admit a client to another server once and for a time, and long-term keys.
--
-- Times are nanoseconds of the steady clock. What std::random_device gives is an argument.
pub mod Once
pub mod Keys
use alicia_server.Common.{
  ℕ, ◌+◌, ◌*◌, ◌^◌, Bool, true, false, not, ◌&&◌, none, some, [], ltb, ◌==◌, if◌then◌else◌,
}
use alicia_server.Common.Map.{Map, lookup, insert, erase}

pub record Code : Type 0 where
  pub expiry : ℕ
  pub code : ℕ

pub record Ltk : Type 0 where
  pub code : ℕ
  pub endpoint_address : ℕ

pub record OtpSystem : Type 0 where
  pub codes : Map Code
  pub ltks : Map Ltk

-- std::chrono::seconds
abbrev pub seconds : ℕ → ℕ
seconds n = n * 10 ^ 9

abbrev pub empty : OtpSystem
empty = record { codes = []; ltks = [] }

-- OtpSystem::GrantCode
unfoldable pub grant_code : (now random key : ℕ) → OtpSystem → ℕ × OtpSystem
grant_code now random key s = (
  random,
  record s { codes = insert key (record { expiry = now + seconds 30; code = random }) s.codes },
)

-- OtpSystem::AuthorizeCode
unfoldable pub authorize_code : (now key code : ℕ) → OtpSystem → Bool × OtpSystem
authorize_code now key code s = elim (lookup key s.codes) [
  | none ↦ (false, s)
  | some ctx ↦
      (let expired = ltb ctx.expiry now in
        let authorized = not expired && ctx.code == code in
        (authorized, if authorized then record s { codes = erase key s.codes } else s))
]

-- OtpSystem::GrantLtk
unfoldable pub grant_ltk : (random key endpoint_address : ℕ) → OtpSystem → ℕ × OtpSystem
grant_ltk random key endpoint_address s = (
  random,
  record s {
    ltks = insert key (record { code = random; endpoint_address = endpoint_address }) s.ltks;
  },
)

-- OtpSystem::AuthorizeLtk
unfoldable pub authorize_ltk : (key code endpoint_address : ℕ) → OtpSystem → Bool
authorize_ltk key code endpoint_address s = elim (lookup key s.ltks) [
  | none ↦ false
  | some ctx ↦ ctx.code == code && ctx.endpoint_address == endpoint_address
]
