-- ===== src/Race/Tracker.antt =====
-- RaceTracker of src/server/tracker/RaceTracker.cpp and include/server/tracker/RaceTracker.hpp: the
-- racers, item decks, event items and throttled events of a race.
--
-- What AddRacer, GetRacer, AddItemDeck, GetItemDeck, AddEventItem and GetEventItem return by
-- reference is returned here as its value. Object ids are 16 bits wide and wrap. Times are
-- nanoseconds of the steady clock, with the epoch at its least value. Positions and the progress on
-- the track are floating-point numbers that no operation of the tracker reads; they are left out.
pub mod Kept
pub mod Oids
pub mod Items
pub mod Throttle
use alicia_server.Common.{
  ℕ, ◌+◌, ◌-◌, ◌*◌, ◌%◌, ◌^◌, Bool, true, false, not, ◌&&◌, Option, none, some, List, [], ◌∷◌, ◌++◌,
  ltb, ◌==◌, if◌then◌else◌, replicate,
}
use alicia_server.Common.Map.{Map, lookup, contains, insert, erase}
use alicia_server.Common.Outcome.{Outcome, returned, threw, runtime_error, ◌>>=◌}

-- the wrap of a 16-bit number
abbrev pub uint16 : ℕ → ℕ
uint16 n = n % 2 ^ 16

abbrev pub invalid_entity_oid : ℕ
invalid_entity_oid = 0

abbrev pub invalid_course_time : ℕ
invalid_course_time = 2 ^ 32 - 1

-- std::chrono::milliseconds
abbrev pub milliseconds : ℕ → ℕ
milliseconds n = n * 10 ^ 6

abbrev pub event_throttle_duration : ℕ
event_throttle_duration = milliseconds 250

pub record EventItem : Type 0 where
  pub oid : ℕ
  pub item_type : ℕ

pub data State : Type 0 where
  disconnected loading racing finishing : State

pub data Team : Type 0 where
  solo red blue : Team

pub record MagicTargetInfo : Type 0 where
  pub caster_oid : ℕ
  pub effect_instance_id : ℕ

pub record MountStatsSnapshot : Type 0 where
  pub agility : ℕ
  pub ambition : ℕ
  pub rush : ℕ
  pub endurance : ℕ
  pub courage : ℕ

-- registry::SetEquipEffect
pub data SetEquipEffect : Type 0 where
  no_effect critical_spell_chance passive_gauge_faster gauge_while_holding : SetEquipEffect

-- std::chrono::steady_clock::time_point::max()
abbrev pub time_point_max : ℕ
time_point_max = 2 ^ 63 - 1

pub record Racer : Type 0 where
  pub oid : ℕ
  pub state : State
  pub team : Team
  pub star_point_value : ℕ
  pub jump_combo_value : ℕ
  pub course_time : ℕ
  pub magic_item : Option ℕ
  pub tracked_decks : List ℕ
  pub deck_cooldown : Map ℕ
  pub event_items : List EventItem
  pub effects : List Bool
  pub effect_generations : List ℕ
  pub attack_rank : ℕ
  pub last_gauge_update_time_point : ℕ
  pub mount_stats : MountStatsSnapshot
  pub active_set_effect : SetEquipEffect
  pub pending_magic_target : Option MagicTargetInfo

abbrev pub effect_count : ℕ
effect_count = 24

-- the initializers of Racer
abbrev pub new_racer : Racer
new_racer = record {
  oid = invalid_entity_oid;
  state = disconnected;
  team = solo;
  star_point_value = 0;
  jump_combo_value = 0;
  course_time = invalid_course_time;
  magic_item = none;
  tracked_decks = [];
  deck_cooldown = [];
  event_items = [];
  effects = replicate effect_count false;
  effect_generations = replicate effect_count 0;
  attack_rank = 0;
  last_gauge_update_time_point = time_point_max;
  mount_stats = record { agility = 0; ambition = 0; rush = 0; endurance = 0; courage = 0 };
  active_set_effect = no_effect;
  pending_magic_target = none;
}

pub record ItemDeck : Type 0 where
  pub oid : ℕ
  pub items : List ℕ
  pub current_item : ℕ
  pub respawn_time : ℕ
  pub respawn_time_point : ℕ

pub record TeamInfo : Type 0 where
  pub points : ℕ
  pub boost_count : ℕ
  pub gauge_locked : Bool

-- An event has its id for its key, so that an entry is the time it is throttled until.
pub record RaceTracker : Type 0 where
  pub blue_team : TeamInfo
  pub red_team : TeamInfo
  pub first_pass_item_spawn : Bool
  pub character_oids : Map ℕ
  pub next_character_oid : ℕ
  pub next_item_deck_oid : ℕ
  pub racers : Map Racer
  pub item_decks : Map ItemDeck
  pub events : Map ℕ
  pub next_effect_instance_id : ℕ

abbrev no_points : TeamInfo
no_points = record { points = 0; boost_count = 0; gauge_locked = false }

abbrev pub new_tracker : RaceTracker
new_tracker = record {
  blue_team = no_points;
  red_team = no_points;
  first_pass_item_spawn = true;
  character_oids = [];
  next_character_oid = 1;
  next_item_deck_oid = 1;
  racers = [];
  item_decks = [];
  events = [];
  next_effect_instance_id = 0;
}

-- The object id of a character in AddRacer, and the tracker that has it on record.
unfoldable pub character_oid : ℕ → RaceTracker → ℕ × RaceTracker
character_oid uid t = elim (lookup uid t.character_oids) [
  | some oid ↦ (oid, t)
  | none ↦ (
    t.next_character_oid,
    record t {
      character_oids = insert uid t.next_character_oid t.character_oids;
      next_character_oid = uint16 (t.next_character_oid + 1);
    },
  )
]

-- RaceTracker::AddRacer
unfoldable pub add_racer : ℕ → RaceTracker → Outcome Racer × RaceTracker
add_racer uid t =
    let assigned = character_oid uid t in
    let racer : Racer = record new_racer { oid = assigned.0 } in
    if contains uid t.racers
    then (threw runtime_error, t)
    else (returned racer, record assigned.1 { racers = insert uid racer assigned.1.racers })

-- RaceTracker::RemoveRacer
unfoldable pub remove_racer : ℕ → RaceTracker → RaceTracker
remove_racer uid t = record t { racers = erase uid t.racers }

-- RaceTracker::IsRacer
unfoldable pub is_racer : ℕ → RaceTracker → Bool
is_racer uid t = contains uid t.racers

-- RaceTracker::GetRacer
unfoldable pub get_racer : ℕ → RaceTracker → Outcome Racer
get_racer uid t = elim (lookup uid t.racers) [ none ↦ threw runtime_error | some r ↦ returned r ]

-- RaceTracker::AddItemDeck
unfoldable pub add_item_deck : RaceTracker → Outcome ItemDeck × RaceTracker
add_item_deck t =
    let oid = t.next_item_deck_oid in
    let deck : ItemDeck = record {
      oid = oid;
      items = [];
      current_item = 0;
      respawn_time = 0;
      respawn_time_point = 0;
    } in
    if contains oid t.item_decks then (threw runtime_error, t) else (
      returned deck,
      record t { item_decks = insert oid deck t.item_decks; next_item_deck_oid = uint16 (oid + 1) },
    )

-- RaceTracker::RemoveItemDeck
unfoldable pub remove_item_deck : ℕ → RaceTracker → RaceTracker
remove_item_deck oid t = record t { item_decks = erase oid t.item_decks }

-- RaceTracker::GetItemDeck
unfoldable pub get_item_deck : ℕ → RaceTracker → Outcome ItemDeck
get_item_deck oid t = elim (lookup oid t.item_decks) [
  | none ↦ threw runtime_error
  | some deck ↦ returned deck
]

-- RaceTracker::IsEventThrottled
unfoldable pub is_event_throttled : (now event : ℕ) → RaceTracker → Bool × RaceTracker
is_event_throttled now event t =
    let accepted : RaceTracker = record t {
      events = insert event (now + event_throttle_duration) t.events;
    } in
    elim (lookup event t.events) [
      | none ↦ (false, accepted)
      | some throttled_until ↦ if ltb now throttled_until then (true, t) else (false, accepted)
    ]

-- RaceTracker::AddEventItem
unfoldable pub add_event_item : ℕ → RaceTracker → Outcome EventItem × RaceTracker
add_event_item uid t = elim (lookup uid t.racers) [
  | none ↦ (threw runtime_error, t)
  | some r ↦
      (let item : EventItem = record { oid = t.next_item_deck_oid; item_type = 0 } in
        (
          returned item,
          record t {
            racers = insert uid (record r { event_items = r.event_items ++ (item ∷ []) }) t.racers;
            next_item_deck_oid = uint16 (t.next_item_deck_oid + 1);
          },
        ))
]

-- the loop of FindEventItem and GetEventItem
unfoldable pub find_item : ℕ → List EventItem → Option EventItem
find_item oid [] = none
find_item oid (item ∷ items) = if item.oid == oid then some item else find_item oid items

-- RaceTracker::FindEventItem
unfoldable pub find_event_item : (uid oid : ℕ) → RaceTracker → Outcome ℕ
find_event_item uid oid t = get_racer uid t >>= λ r. elim (find_item oid r.event_items) [
  | none ↦ returned invalid_entity_oid
  | some item ↦ returned item.oid
]

-- RaceTracker::GetEventItem
unfoldable pub get_event_item : (uid oid : ℕ) → RaceTracker → Outcome EventItem
get_event_item uid oid t = get_racer uid t >>= λ r. elim (find_item oid r.event_items) [
  | none ↦ threw runtime_error
  | some item ↦ returned item
]

-- the std::erase_if of RemoveEventItem
unfoldable pub erase_items : ℕ → List EventItem → List EventItem
erase_items oid [] = []
erase_items oid (item ∷ items) =
    let rest = erase_items oid items in if item.oid == oid then rest else item ∷ rest

-- RaceTracker::RemoveEventItem
unfoldable pub remove_event_item : (uid oid : ℕ) → RaceTracker → Outcome (Unit {0}) × RaceTracker
remove_event_item uid oid t = elim (lookup uid t.racers) [
  | none ↦ (threw runtime_error, t)
  | some r ↦ (
    returned tt,
    record t {
      racers = insert uid (record r { event_items = erase_items oid r.event_items }) t.racers;
    },
  )
]

-- RaceTracker::GetNextEffectInstanceIdAndIncrementBy
unfoldable pub get_next_effect_instance_id_and_increment_by : ℕ → RaceTracker → ℕ × RaceTracker
get_next_effect_instance_id_and_increment_by increment t =
    let next = uint16 (t.next_effect_instance_id + increment) in
    (
      t.next_effect_instance_id,
      record t { next_effect_instance_id = if next == 0 then 1 else next },
    )

-- RaceTracker::Clear
unfoldable pub clear : RaceTracker → RaceTracker
clear t = record t {
  racers = [];
  item_decks = [];
  events = [];
  next_item_deck_oid = 1;
  first_pass_item_spawn = true;
}
