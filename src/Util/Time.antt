-- ===== src/Util/Time.antt =====
-- The packed times of src/libserver/util/Util.cpp, for dates and durations that are not negative. A
-- duration is in seconds, as the source first makes it.
pub mod Fields
pub mod Spent
pub mod Shop
use Prim.Native.Nat.{bit_or}
use alicia_server.Common.{ℕ, ◌+◌, ◌-◌, ◌*◌, ◌/◌, ◌%◌, ◌^◌, min}
use alicia_server.Network.MessageMagic.{shl, shr}

pub record DateTime : Type 0 where
  pub years : ℕ
  pub months : ℕ
  pub days : ℕ
  pub hours : ℕ
  pub minutes : ℕ
  pub seconds : ℕ

-- DateTimeToAliciaTime
unfoldable pub date_time_to_alicia_time : DateTime → ℕ
date_time_to_alicia_time date_time =
    bit_or
      (bit_or
        (bit_or
          (bit_or (bit_or 0 (shl (min date_time.years 4095) 0)) (shl (min date_time.months 15) 12))
          (shl (min date_time.days 31) 16))
        (shl (min date_time.hours 31) 21))
      (shl (min date_time.minutes 63) 26)

-- the seconds of std::chrono::years, months and days
abbrev pub year : ℕ
year = 31556952

abbrev pub month : ℕ
month = 2629746

abbrev pub day : ℕ
day = 86400

-- the fields that DurationToAliciaTime extracts
unfoldable pub date_time_of : (duration : ℕ) → DateTime
date_time_of duration =
    let years = duration / year in
    let after_years = duration - years * year in
    let months = after_years / month in
    let after_months = after_years - months * month in
    let days = after_months / day in
    let after_days = after_months - days * day in
    let hours = after_days / 3600 in
    let after_hours = after_days - hours * 3600 in
    let minutes = after_hours / 60 in
    record {
      years = years;
      months = months;
      days = days;
      hours = hours;
      minutes = minutes;
      seconds = 0;
    }

-- DurationToAliciaTime
unfoldable pub duration_to_alicia_time : (duration : ℕ) → ℕ
duration_to_alicia_time duration = date_time_to_alicia_time (date_time_of duration)

-- AliciaShopTimeToDateTime, the array spread out
unfoldable pub alicia_shop_time_to_date_time : ℕ × ℕ × ℕ → DateTime
alicia_shop_time_to_date_time (month_year, hour_day, second_minute) = record {
  years = month_year % 2 ^ 16;
  months = shr month_year 16 % 2 ^ 16;
  days = hour_day % 2 ^ 16;
  hours = shr hour_day 16 % 2 ^ 16;
  minutes = second_minute % 2 ^ 16;
  seconds = shr second_minute 16 % 2 ^ 16;
}

-- DateTimeToAliciaShopTime
unfoldable pub date_time_to_alicia_shop_time : DateTime → ℕ × ℕ × ℕ
date_time_to_alicia_shop_time date_time = (
  bit_or (shl date_time.months 16) date_time.years,
  bit_or (shl date_time.hours 16) date_time.days,
  bit_or (shl date_time.seconds 16) date_time.minutes,
)
