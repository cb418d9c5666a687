-- ===== src/System/Reward/Claims.antt =====
-- A reward is claimed by its character and once.
use alicia_server.Common.{
  ℕ, ◌+◌, ◌≤◌, ◌≡◌, ◌≢◌, ◌⊎◌, inl, inr, refl, arith, Bool, true, false, not, ◌&&◌, ◌||◌, some, List,
  [], ◌∷◌, ◌==◌, if◌then◌else◌, Option-cases, Bool-cases, is_some, eq-cases, ap,
}
use alicia_server.Common.Map.{Map, lookup, lookup-insert}
use alicia_server.System.Reward.{Reward, Records, invalid_uid, grant, claim_reward}

-- What a successful claim asks for.
pub record IsClaimable (claim_uid uid : ℕ) (s : Records) (reward : Reward) : Type 0 where
  pub valid : (claim_uid ≢ invalid_uid) × (uid ≢ invalid_uid)
  pub there : lookup claim_uid s.rewards ≡ some reward
  pub unclaimed : reward.is_claimed ≡ false
  pub own : reward.character_uid ≡ uid
  pub granted : is_some (grant reward.carrots uid s.carrots) ≡ true

-- What claiming a reward, once found, comes to.
Claimed : (now claim_uid uid : ℕ) → Records → Bool × Records → Type 0
Claimed now claim_uid uid s after =
    (after ≡ (false, s))
    ⊎ ((reward : Reward) × (after.0 ≡ true)
        × IsClaimable claim_uid uid s reward
        × (lookup claim_uid after.1.rewards
            ≡ some (record reward { is_claimed = true; claimed_at = now }))
        × ((other : ℕ) → other ≢ claim_uid → lookup other after.1.rewards ≡ lookup other s.rewards)
        × (grant reward.carrots uid s.carrots ≡ some after.1.carrots))

reward_granted :
    (now claim_uid uid : ℕ) (s : Records) (reward : Reward) (balances : Map ℕ)
    → (claim_uid == invalid_uid || uid == invalid_uid) ≡ false
    → lookup claim_uid s.rewards ≡ some reward
    → (reward.is_claimed || not (reward.character_uid == uid)) ≡ false
    → grant reward.carrots uid s.carrots ≡ some balances
    → Claimed now claim_uid uid s (claim_reward now claim_uid uid s)
unfolding Claimed claim_reward
reward_granted now claim_uid uid s reward balances good e own g =
    let marked : Reward = record reward { is_claimed = true; claimed_at = now } in
    rw (good, e, own, g, claim_reward)
      (inr (
        reward,
        refl,
        record {
          valid = (ground (arith, good), ground (arith, good));
          there = e;
          unclaimed = ground (arith, own);
          own = ground (arith, own);
          granted = ground (arith, g);
        },
        ground (arith, lookup-insert claim_uid claim_uid marked s.rewards),
        λ other ne. ground (arith, lookup-insert claim_uid other marked s.rewards),
        g,
      ))

reward_found :
    (now claim_uid uid : ℕ) (s : Records) (reward : Reward)
    → (claim_uid == invalid_uid || uid == invalid_uid) ≡ false
    → lookup claim_uid s.rewards ≡ some reward
    → Claimed now claim_uid uid s (claim_reward now claim_uid uid s)
unfolding Claimed claim_reward
reward_found now claim_uid uid s reward good e =
    elim (Bool-cases (reward.is_claimed || not (reward.character_uid == uid))) [
      | inl bad ↦ inl (rw (good, e, claim_reward) (rw (bad) refl))
      | inr own ↦ elim (Option-cases (grant reward.carrots uid s.carrots)) [
        | inl f ↦ inl (rw (good, e, claim_reward) (rw (own, f) refl))
        | inr (balances, g) ↦ reward_granted now claim_uid uid s reward balances good e own g
      ]
    ]

-- A claim that succeeds was claimable, marks its reward as claimed, leaves every other reward, and
-- changes no balance but that of its character, by the reward's carrots. One that fails changes nothing.
pub claim_reward_lem :
    (now claim_uid uid : ℕ) (s : Records)
    → let after = claim_reward now claim_uid uid s in
      (after ≡ (false, s))
      ⊎ ((reward : Reward) × (after.0 ≡ true)
          × IsClaimable claim_uid uid s reward
          × (lookup claim_uid after.1.rewards
              ≡ some (record reward { is_claimed = true; claimed_at = now }))
          × ((other : ℕ)
              → other ≢ claim_uid
              → lookup other after.1.rewards ≡ lookup other s.rewards)
          × (grant reward.carrots uid s.carrots ≡ some after.1.carrots))
unfolding Claimed claim_reward
claim_reward_lem now claim_uid uid s =
    elim (Bool-cases (claim_uid == invalid_uid || uid == invalid_uid)) [
      | inl bad ↦ inl (rw (bad, claim_reward) refl)
      | inr good ↦ elim (Option-cases (lookup claim_uid s.rewards)) [
        | inl e ↦ inl (rw (good, e, claim_reward) refl)
        | inr (reward, e) ↦ reward_found now claim_uid uid s reward good e
      ]
    ]

-- A claim of a reward, by a character at a time.
pub record Claim : Type 0 where
  pub now : ℕ
  pub claim_uid : ℕ
  pub character_uid : ℕ

-- How many claims of one reward succeed, over a sequence of claims.
unfoldable pub successes : ℕ → List Claim → Records → ℕ
successes claim_uid [] s = 0
successes claim_uid (c ∷ claims) s =
    let after = claim_reward c.now c.claim_uid c.character_uid s in
    let rest = successes claim_uid claims after.1 in
    if c.claim_uid == claim_uid && after.0 then rest + 1 else rest

-- The reward that a key has, marked as claimed.
IsMarked : ℕ → Records → Type 0
IsMarked claim_uid s =
    (reward : Reward) × (lookup claim_uid s.rewards ≡ some reward) × (reward.is_claimed ≡ true)

stays-IsMarked :
    (claim_uid now j uid : ℕ) (s : Records) (after : Bool × Records)
    → IsMarked claim_uid s
    → Claimed now j uid s after
    → IsMarked claim_uid after.1 × ((j == claim_uid && after.0) ≡ false)
unfolding IsMarked Claimed
stays-IsMarked claim_uid now j uid s after (reward, e, h) (inl same) =
    rw (same) ((reward, e, h), ground arith)
stays-IsMarked claim_uid now j uid s after (reward, e, h) (inr (r, ok, able, marked, others, g)) =
    elim (eq-cases j claim_uid) [
      | inl p ↦ absurd (ground (arith, p, e, h, able.there, able.unclaimed))
      | inr ne ↦ ((reward, ground (arith, others claim_uid, ne, e), h), ground (arith, ne))
    ]

gets-IsMarked :
    (claim_uid now j uid : ℕ) (s : Records) (after : Bool × Records)
    → Claimed now j uid s after
    → (j == claim_uid && after.0) ≡ true
    → IsMarked claim_uid after.1
unfolding IsMarked Claimed
gets-IsMarked claim_uid now j uid s after (inl same) h =
    absurd (ground (arith, h, ap (λ a. a.0) same))
gets-IsMarked claim_uid now j uid s after (inr (r, ok, able, marked, others, g)) h =
    (record r { is_claimed = true; claimed_at = now }, ground (arith, h, marked), refl)

claim_reward-Claimed :
    (now claim_uid uid : ℕ) (s : Records)
    → Claimed now claim_uid uid s (claim_reward now claim_uid uid s)
unfolding Claimed
claim_reward-Claimed now claim_uid uid s = claim_reward_lem now claim_uid uid s

successes_none :
    (claim_uid : ℕ) (claims : List Claim) (s : Records)
    → IsMarked claim_uid s
    → successes claim_uid claims s ≡ 0
unfolding successes
successes_none claim_uid [] s m = refl
successes_none claim_uid (c ∷ claims) s m =
    let after = claim_reward c.now c.claim_uid c.character_uid s in
    let (still, fails) =
      stays-IsMarked claim_uid c.now c.claim_uid c.character_uid s after m
        (claim_reward-Claimed c.now c.claim_uid c.character_uid s) in
    rw (fails) (successes_none claim_uid claims after.1 still)

-- Whoever claims a reward, however often and among whatever other claims, at most one claim of it
-- succeeds.
pub successes-le :
    (claim_uid : ℕ) (claims : List Claim) (s : Records) → successes claim_uid claims s ≤ 1
unfolding successes
successes-le claim_uid [] s = omega arith
successes-le claim_uid (c ∷ claims) s =
    let after = claim_reward c.now c.claim_uid c.character_uid s in
    elim (Bool-cases (c.claim_uid == claim_uid && after.0)) [
      | inl h ↦
          rw
            (
              h,
              successes_none claim_uid claims after.1 (
                  gets-IsMarked claim_uid c.now c.claim_uid c.character_uid s after
                    (claim_reward-Claimed c.now c.claim_uid c.character_uid s) h),
            )
            (omega arith)
      | inr h ↦ rw (h) (successes-le claim_uid claims after.1)
    ]
