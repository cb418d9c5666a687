-- ===== src/Util/Time/Spent.antt =====
-- A duration of src/libserver/util/Util.cpp read back from its packed time.
use alicia_server.Common.{ℕ, ◌+◌, ◌*◌, ◌≡◌, ◌≤◌, ◌<◌, arith, min, ap, ◌∙◌, refl}
use alicia_server.Util.Time.{DateTime, year, month, day, date_time_of, duration_to_alicia_time}
use alicia_server.Util.Time.Fields.{read_alicia_time, read-date_time_to_alicia_time}

-- The seconds of a date that stands for a duration.
abbrev pub spent : DateTime → ℕ
spent t = t.years * year + t.months * month + t.days * day + t.hours * 3600 + t.minutes * 60

date_time_of-bounds :
    (duration : ℕ)
    → let t = date_time_of duration in
      (spent t ≤ duration)
      × (duration < spent t + 60)
      × (t.months < 12)
      × (t.days < 31)
      × (t.hours < 24)
      × (t.minutes < 60)
unfolding date_time_of
date_time_of-bounds duration =
    (omega arith, omega arith, omega arith, omega arith, omega arith, omega arith)

-- The packed time of a duration of less than 4096 years, read by its layout, stands for the duration
-- to the minute: what it stands for is no more than the duration, and less than a minute short of it.
-- A year has the 31556952 seconds of std::chrono::years, a month those of std::chrono::months.
pub spent-duration_to_alicia_time :
    (duration : ℕ)
    → duration < 4096 * year
    → let t = spent (read_alicia_time (duration_to_alicia_time duration)) in
      (t ≤ duration) × (duration < t + 60)
unfolding duration_to_alicia_time
spent-duration_to_alicia_time duration short =
    let t = date_time_of duration in
    let (low, high, months, days, hours, minutes) = date_time_of-bounds duration in
    let y : min t.years 4095 ≡ t.years = omega (arith, low, short) in
    let m : min t.months 15 ≡ t.months = omega (arith, months) in
    let d : min t.days 31 ≡ t.days = omega (arith, days) in
    let h : min t.hours 31 ≡ t.hours = omega (arith, hours) in
    let i : min t.minutes 63 ≡ t.minutes = omega (arith, minutes) in
    let same : spent (read_alicia_time (duration_to_alicia_time duration)) ≡ spent t =
      ap spent (read-date_time_to_alicia_time t) ∙ rw (y, m, d, h, i) refl in
    rw (same) (low, high)
