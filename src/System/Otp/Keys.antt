-- ===== src/System/Otp/Keys.antt =====
-- Long-term keys admit from the address that they were granted to, any number of times.
use alicia_server.Common.{ℕ, ◌≡◌, ◌≢◌, ◌↔◌, arith, true}
use alicia_server.Common.Map.{lookup-insert}
use alicia_server.System.Otp.{OtpSystem, Ltk, authorize_code, grant_ltk, authorize_ltk}

-- After a grant the key is accepted exactly with the granted code and from the granted address; every
-- other key is accepted as before, and neither granting nor using one-time codes changes that.
pub grant_ltk-authorize_ltk :
    (random key address : ℕ) (s : OtpSystem) (code from : ℕ)
    → let granted = grant_ltk random key address s in
      ((authorize_ltk key code from granted.1 ≡ true) ↔ ((code ≡ granted.0) × (from ≡ address)))
      × ((other : ℕ)
          → other ≢ key
          → authorize_ltk other code from granted.1 ≡ authorize_ltk other code from s)
      × ((now j c : ℕ)
          → authorize_ltk key code from (authorize_code now j c granted.1).1
            ≡ authorize_ltk key code from granted.1)
unfolding grant_ltk authorize_ltk authorize_code
grant_ltk-authorize_ltk random key address s code from =
    let entry : Ltk = record { code = random; endpoint_address = address } in
    (
      ground (arith, lookup-insert key key entry s.ltks),
      λ other ne. ground (arith, lookup-insert key other entry s.ltks),
      λ now j c. ground arith,
    )
