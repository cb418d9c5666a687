-- ===== src/Race/Instance/Gauge.antt =====
-- The magic gauge of a racer.
use alicia_server.Common.{ℕ, ◌≤◌, ◌≡◌, ◌↔◌, arith, true, false, none}
use alicia_server.Race.Tracker.{Racer}
use alicia_server.Race.Magic.{RegenInfo, SetBonusInfo}
use alicia_server.Race.Instance.{regenerate, can_regen}

-- The gauge of a racer never passes its maximum, and a racer who holds a spell and lacks the set
-- effect for it keeps the gauge. An item is given exactly for a full gauge
-- to a racer who holds none.
pub regenerate-bounds :
    (now race_start top : ℕ) (regen : RegenInfo) (bonus : SetBonusInfo) (racer : Racer)
    → racer.star_point_value ≤ top
    → let after = regenerate now race_start top regen bonus racer in
      (after.1.star_point_value ≤ top)
      × ((after.0 ≡ true) ↔ ((racer.magic_item ≡ none) × (after.1.star_point_value ≡ top)))
      × (can_regen racer ≡ false → after.1.star_point_value ≡ racer.star_point_value)
unfolding regenerate
regenerate-bounds now race_start top regen bonus racer h = ground arith
