-- ===== src/System/Otp/Once.antt =====
-- A code admits once, before it expires, and under its own key.
use alicia_server.Common.{
  ℕ, ◌+◌, ◌≤◌, ◌≡◌, ◌≢◌, ◌↔◌, refl, arith, true, false, none, some, List, [], ◌∷◌, ◌==◌, ◌&&◌,
  if◌then◌else◌,
}
use alicia_server.Common.Map.{lookup, insert, lookup-insert, lookup-erase}
use alicia_server.System.Otp.{Code, OtpSystem, seconds, grant_code, authorize_code}

-- AuthorizeCode says yes exactly where the key has a code, the code is the one given and its time is
-- not over; then the code is gone and every other key keeps its own. Where it says no, nothing changes.
pub authorize_code_iff :
    (now key code : ℕ) (s : OtpSystem)
    → let answer = authorize_code now key code s in
      ((answer.0 ≡ true)
        ↔ ((c : Code) × (lookup key s.codes ≡ some c) × (c.code ≡ code) × (now ≤ c.expiry)))
      × (answer.0 ≡ true → lookup key answer.1.codes ≡ none)
      × ((other : ℕ) → other ≢ key → lookup other answer.1.codes ≡ lookup other s.codes)
      × (answer.0 ≡ false → answer.1 ≡ s)
unfolding authorize_code
authorize_code_iff now key code s = (
  ground arith,
  ground (arith, lookup-erase key key s.codes),
  λ other ne. ground (arith, lookup-erase key other s.codes),
  ground arith,
)

-- A client that knocks with a key and a code at a time.
pub record Attempt : Type 0 where
  pub now : ℕ
  pub key : ℕ
  pub code : ℕ

-- How many of the attempts on a key succeed, one after the other.
unfoldable pub admitted : ℕ → List Attempt → OtpSystem → ℕ
admitted key [] s = 0
admitted key (a ∷ attempts) s =
    let answer = authorize_code a.now a.key a.code s in
    let rest = admitted key attempts answer.1 in if a.key == key && answer.0 then rest + 1 else rest

-- A key without a code still has none after an attempt, and the attempt fails if it is on that key.
still_none :
    (now j code key : ℕ) (s : OtpSystem)
    → lookup key s.codes ≡ none
    → (lookup key (authorize_code now j code s).1.codes ≡ none)
      × ((j == key && (authorize_code now j code s).0) ≡ false)
unfolding authorize_code
still_none now j code key s e = ground (arith, lookup-erase j key s.codes)

admitted-none :
    (key : ℕ) (attempts : List Attempt) (s : OtpSystem)
    → lookup key s.codes ≡ none
    → admitted key attempts s ≡ 0
unfolding admitted
admitted-none key [] s e = refl
admitted-none key (a ∷ attempts) s e =
    let still = still_none a.now a.key a.code key s e in
    rw (still.1) (admitted-none key attempts (authorize_code a.now a.key a.code s).1 still.0)

admitted_once : (key : ℕ) (attempts : List Attempt) (s : OtpSystem) → admitted key attempts s ≤ 1
unfolding admitted
admitted_once key [] s = omega arith
admitted_once key (a ∷ attempts) s =
    let after = (authorize_code a.now a.key a.code s).1 in
    ground (
      arith,
      admitted_once key attempts after,
      admitted-none key attempts after,
      (authorize_code_iff a.now a.key a.code s).1,
    )

-- However many clients knock, in whatever order and at whatever times, a granted code admits at most
-- one of them.
pub admitted-le :
    (now random key : ℕ) (attempts : List Attempt) (s : OtpSystem)
    → admitted key attempts (grant_code now random key s).1 ≤ 1
admitted-le now random key attempts s = admitted_once key attempts (grant_code now random key s).1

wrong :
    (now key guess : ℕ) (c : Code) (s : OtpSystem)
    → lookup key s.codes ≡ some c
    → guess ≢ c.code
    → authorize_code now key guess s ≡ (false, s)
unfolding authorize_code
wrong now key guess c s e ne = ground arith

-- Within thirty seconds of the grant the granted code admits its client, whatever was tried with
-- wrong codes or other keys in between, and not a second time.
pub grant_code-authorize_code :
    (now later random key : ℕ) (s : OtpSystem)
    → later ≤ now + seconds 30
    → let granted = grant_code now random key s in
      let answer = authorize_code later key granted.0 granted.1 in
      (answer.0 ≡ true)
      × ((again code : ℕ) → (authorize_code again key code answer.1).0 ≡ false)
      × ((guess : ℕ)
          → guess ≢ granted.0
          → authorize_code later key guess granted.1 ≡ (false, granted.1))
unfolding grant_code
grant_code-authorize_code now later random key s h =
    let c : Code = record { expiry = now + seconds 30; code = random } in
    let granted : OtpSystem = record s { codes = insert key c s.codes } in
    let found : lookup key granted.codes ≡ some c =
      ground (arith, lookup-insert key key c s.codes) in
    let yes = (authorize_code_iff later key random granted).0.1 (c, found, refl, h) in
    let gone = (authorize_code_iff later key random granted).1 yes in
    (
      yes,
      λ again code.
          ground
            (arith, still_none again key code key (authorize_code later key random granted).1 gone),
      λ guess ne. wrong later key guess c granted found ne,
    )
