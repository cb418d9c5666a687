-- ===== src/Race/Tracker/Throttle.antt =====
-- Throttled events and the ids of effect instances.
use alicia_server.Common.{
  ℕ, ◌+◌, ◌^◌, ◌≤◌, ◌<◌, ◌≡◌, ◌≢◌, ◌⊎◌, arith, true, false, none, some, List, [], ◌∷◌, ◌==◌,
}
use alicia_server.Common.Map.{lookup, lookup-insert}
use alicia_server.Race.Tracker.{
  RaceTracker, is_event_throttled, event_throttle_duration,
  get_next_effect_instance_id_and_increment_by,
}

-- An occurrence of an event, at a time.
pub record Occurrence : Type 0 where
  pub now : ℕ
  pub event : ℕ

-- The times at which an event is let through, over a sequence of occurrences.
unfoldable pub passed : ℕ → List Occurrence → RaceTracker → List ℕ
passed event [] t = []
passed event (o ∷ os) t =
    let answer = is_event_throttled o.now o.event t in
    let rest = passed event os answer.1 in
    elim (o.event == event) [
      | false ↦ rest
      | true ↦ elim answer.0 [ true ↦ rest | false ↦ o.now ∷ rest ]
    ]

-- Consecutive times lie at least a distance apart, the first one not before a bound.
abbrev pub AreSpaced : (distance bound : ℕ) → List ℕ → Type 0
AreSpaced distance bound [] = Unit {0}
AreSpaced distance bound (x ∷ xs) = (bound ≤ x) × AreSpaced distance (x + distance) xs

-- the time before which an event is throttled
unfoldable pub throttled_until : ℕ → RaceTracker → ℕ
throttled_until event t = elim (lookup event t.events) [ none ↦ 0 | some until ↦ until ]

-- One occurrence: it passes from the time on that its event is throttled until, and then moves that
-- time to 250 ms later; a throttled one, and any other event, leaves it.
is_event_throttled-step :
    (now occurred event : ℕ) (t : RaceTracker)
    → let answer = is_event_throttled now occurred t in
      ((occurred ≢ event) × (throttled_until event answer.1 ≡ throttled_until event t))
      ⊎ ((occurred ≡ event)
          × (answer.0 ≡ true)
          × (now < throttled_until event t)
          × (throttled_until event answer.1 ≡ throttled_until event t))
      ⊎ ((occurred ≡ event)
          × (answer.0 ≡ false)
          × (throttled_until event t ≤ now)
          × (throttled_until event answer.1 ≡ now + event_throttle_duration))
unfolding is_event_throttled throttled_until
is_event_throttled-step now occurred event t =
    ground (arith, lookup-insert occurred event (now + event_throttle_duration) t.events)

-- However often and in whatever order events occur, the ones of an event that are let through lie at
-- least 250 ms apart.
pub passed-AreSpaced :
    (event : ℕ) (os : List Occurrence) (t : RaceTracker)
    → AreSpaced event_throttle_duration (throttled_until event t) (passed event os t)
unfolding passed
passed-AreSpaced event [] t = tt
passed-AreSpaced event (o ∷ os) t = ground (
  arith,
  passed-AreSpaced event os (is_event_throttled o.now o.event t).1,
  is_event_throttled-step o.now o.event event t,
)

-- Ids of effect instances: a call answers the first id of a block. After the first call no block
-- begins at 0, and the next block begins right behind this one unless the ids wrap.
pub get_next_effect_instance_id_lem :
    (increment : ℕ) (t : RaceTracker)
    → t.next_effect_instance_id < 2 ^ 16
    → increment < 2 ^ 16
    → let (first, after) = get_next_effect_instance_id_and_increment_by increment t in
      (first ≡ t.next_effect_instance_id)
      × (1 ≤ after.next_effect_instance_id)
      × (after.next_effect_instance_id < 2 ^ 16)
      × (first + increment < 2 ^ 16
          → 1 ≤ first + increment
          → after.next_effect_instance_id ≡ first + increment)
unfolding get_next_effect_instance_id_and_increment_by
get_next_effect_instance_id_lem increment t h k = ground arith
