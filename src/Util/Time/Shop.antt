-- ===== src/Util/Time/Shop.antt =====
-- The shop's times of src/libserver/util/Util.cpp there and back.
use Prim.Native.Nat.{bit_or}
use alicia_server.Common.{ℕ, ◌+◌, ◌*◌, ◌/◌, ◌%◌, ◌^◌, ◌≡◌, ◌<◌, arith}
use alicia_server.Common.Bits.{bit_or_high}
use alicia_server.Util.Time.{DateTime, alicia_shop_time_to_date_time, date_time_to_alicia_shop_time}

-- Every field fits sixteen bits.
abbrev pub FitsHalves : DateTime → Type 0
FitsHalves t =
    (t.years < 2 ^ 16)
    × (t.months < 2 ^ 16)
    × (t.days < 2 ^ 16)
    × (t.hours < 2 ^ 16)
    × (t.minutes < 2 ^ 16)
    × (t.seconds < 2 ^ 16)

halves :
    (high low : ℕ)
    → high < 2 ^ 16
    → low < 2 ^ 16
    → bit_or (high * 2 ^ 16 % 2 ^ 32) low ≡ high * 2 ^ 16 + low
halves high low h l = ground (arith, bit_or_high 16 high low l)

-- A date whose fields fit sixteen bits comes back from the shop's time as it was.
pub alicia_shop_time_to_date_time-date_time_to_alicia_shop_time :
    (t : DateTime)
    → FitsHalves t
    → alicia_shop_time_to_date_time (date_time_to_alicia_shop_time t) ≡ t
unfolding alicia_shop_time_to_date_time date_time_to_alicia_shop_time
alicia_shop_time_to_date_time-date_time_to_alicia_shop_time t (y, m, d, h, i, s) =
    ground (
      arith,
      halves t.months t.years m y,
      halves t.hours t.days h d,
      halves t.seconds t.minutes s i,
    )

-- A shop's time of three 32-bit numbers comes back from its date as it was.
pub date_time_to_alicia_shop_time-alicia_shop_time_to_date_time :
    (month_year hour_day second_minute : ℕ)
    → month_year < 2 ^ 32
    → hour_day < 2 ^ 32
    → second_minute < 2 ^ 32
    → date_time_to_alicia_shop_time
        (alicia_shop_time_to_date_time (month_year, hour_day, second_minute))
      ≡ (month_year, hour_day, second_minute)
unfolding alicia_shop_time_to_date_time date_time_to_alicia_shop_time
date_time_to_alicia_shop_time-alicia_shop_time_to_date_time month_year hour_day second_minute a b
      c =
    ground (
      arith,
      halves (month_year / 2 ^ 16 % 2 ^ 16) (month_year % 2 ^ 16) (omega arith) (omega arith),
      halves (hour_day / 2 ^ 16 % 2 ^ 16) (hour_day % 2 ^ 16) (omega arith) (omega arith),
      halves (second_minute / 2 ^ 16 % 2 ^ 16) (second_minute % 2 ^ 16) (omega arith) (omega arith),
    )
