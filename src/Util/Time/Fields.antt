-- ===== src/Util/Time/Fields.antt =====
-- The fields of a packed time of src/libserver/util/Util.cpp.
use Prim.Native.Nat.{bit_or}
use alicia_server.Common.{ap, ◌∙◌, ℕ, ◌+◌, ◌*◌, ◌/◌, ◌%◌, ◌^◌, ◌≡◌, ◌<◌, arith, min}
use alicia_server.Common.Bits.{bit_or_low, zero-bit_or}
use alicia_server.Util.Time.{DateTime, date_time_to_alicia_time}

-- A packed time read by its layout: twelve bits of years, four of months, five of days, five of hours
-- and six of minutes, from the lowest bit on.
abbrev pub read_alicia_time : ℕ → DateTime
read_alicia_time time = record {
  years = time % 2 ^ 12;
  months = time / 2 ^ 12 % 2 ^ 4;
  days = time / 2 ^ 16 % 2 ^ 5;
  hours = time / 2 ^ 21 % 2 ^ 5;
  minutes = time / 2 ^ 26;
  seconds = 0;
}

packed :
    (years months days hours minutes : ℕ)
    → years < 2 ^ 12
    → months < 2 ^ 4
    → days < 2 ^ 5
    → hours < 2 ^ 5
    → minutes < 2 ^ 6
    → bit_or
        (bit_or
          (bit_or
            (bit_or (bit_or 0 (years * 2 ^ 0 % 2 ^ 32)) (months * 2 ^ 12 % 2 ^ 32))
            (days * 2 ^ 16 % 2 ^ 32))
          (hours * 2 ^ 21 % 2 ^ 32))
        (minutes * 2 ^ 26 % 2 ^ 32)
      ≡ minutes * 2 ^ 26 + (hours * 2 ^ 21 + (days * 2 ^ 16 + (months * 2 ^ 12 + years)))
packed years months days hours minutes y m d h i = ground (
  arith,
  zero-bit_or years,
  bit_or_low 12 months years y,
  bit_or_low 16 days (months * 2 ^ 12 + years) (omega arith),
  bit_or_low 21 hours (days * 2 ^ 16 + (months * 2 ^ 12 + years)) (omega arith),
  bit_or_low 26 minutes (hours * 2 ^ 21 + (days * 2 ^ 16 + (months * 2 ^ 12 + years)))
      (omega arith),
)

read_packed :
    (years months days hours minutes : ℕ)
    → years < 2 ^ 12
    → months < 2 ^ 4
    → days < 2 ^ 5
    → hours < 2 ^ 5
    → read_alicia_time
        (minutes * 2 ^ 26 + (hours * 2 ^ 21 + (days * 2 ^ 16 + (months * 2 ^ 12 + years))))
      ≡ record {
        years = years;
        months = months;
        days = days;
        hours = hours;
        minutes = minutes;
        seconds = 0;
      }
read_packed years months days hours minutes y m d h = ground arith

-- Each field of a packed time is the field of the date, or the most that its bits hold where the
-- field is larger.
pub read-date_time_to_alicia_time :
    (date_time : DateTime)
    → read_alicia_time (date_time_to_alicia_time date_time) ≡ record {
      years = min date_time.years 4095;
      months = min date_time.months 15;
      days = min date_time.days 31;
      hours = min date_time.hours 31;
      minutes = min date_time.minutes 63;
      seconds = 0;
    }
unfolding date_time_to_alicia_time
read-date_time_to_alicia_time date_time =
    let y : min date_time.years 4095 < 2 ^ 12 = omega arith in
    let m : min date_time.months 15 < 2 ^ 4 = omega arith in
    let d : min date_time.days 31 < 2 ^ 5 = omega arith in
    let h : min date_time.hours 31 < 2 ^ 5 = omega arith in
    let i : min date_time.minutes 63 < 2 ^ 6 = omega arith in
    ap read_alicia_time (packed _ _ _ _ _ y m d h i) ∙ read_packed _ _ _ _ _ y m d h
