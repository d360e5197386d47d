-- ===== src/Date.antt =====
-- include/webcrown/common/date/date_time.hpp: `date_time`. The library date is outside the
-- repository: a record of the operations that the code calls. A time point is its nanoseconds from
-- the start of 1970; that it lies within 64 bits is not a part of the model.
pub mod Laws
mod Witness
use webcrown.Base.{
  ℕ, ◌+◌, ◌-◌, ◌*◌, ◌/◌, ◌%◌, ◌^◌, ◌++◌, Bytes, Option, none, some, ℤ, pos, negsuc, ◌-ℤ◌, pos_part,
  neg_part, difference,
}

pub record DateLibrary : Type 1 where
  pub YearMonthDay : Type 0
  -- `date::sys_days`, as the days from 1970-01-01, and the date of a day.
  pub sys_days : YearMonthDay → ℤ
  pub year_month_day : ℤ → YearMonthDay
  -- `date::format` by `%Y-%m-%d `, and of a time point by `%X`.
  pub format_date : YearMonthDay → Bytes
  pub format_time : ℤ → Bytes
  -- `date::parse` by `%Y-%m-%d %X`; `none` leaves the time point as it was.
  pub parse : Bytes → Option ℤ

-- The nanoseconds of a second, and of a day.
abbrev pub second : ℕ
second = 1000000000

abbrev pub day : ℕ
day = 86400000000000

-- A number of days, as a duration in nanoseconds.
unfoldable pub of_days : ℤ → ℤ
of_days n = difference (pos_part n * day) (neg_part n * day)

-- `date::floor<date::days>`: the last day that does not begin behind the time point.
unfoldable pub floor_days : ℤ → ℤ
floor_days (pos n) = pos (n / day)
floor_days (negsuc n) = negsuc (n / day)

-- `std::chrono::duration_cast<date::days>`, which cuts towards zero.
unfoldable pub cast_days : ℤ → ℤ
cast_days (pos n) = pos (n / day)
cast_days (negsuc n) = difference 0 ((n + 1) / day)

-- The conversion to `u_int32_t`.
unfoldable pub to_uint32 : ℤ → ℕ
to_uint32 (pos n) = n % 2 ^ 32
to_uint32 (negsuc n) = 2 ^ 32 - 1 - n % 2 ^ 32

-- What a time point that begins at the start of 1970 holds behind the parse.
abbrev or_start : Option ℤ → ℤ
or_start none = pos 0
or_start (some t) = t

module _ (lib : DateLibrary) where
  pub record DateTime : Type 0 where
    pub ymd : lib.YearMonthDay
    pub timepoint : ℤ

  -- The constructor without arguments, at the time of the clock.
  unfoldable pub now_date_time : ℤ → DateTime
  now_date_time now = record { ymd = lib.year_month_day (floor_days now); timepoint = now }

  unfoldable pub new_date_time : lib.YearMonthDay → ℤ → DateTime
  new_date_time ymd time = record { ymd = ymd; timepoint = time }

  -- The time is that from the start of the date on.
  unfoldable pub str : DateTime → Bytes
  str d = lib.format_date d.ymd ++ lib.format_time (d.timepoint -ℤ of_days (lib.sys_days d.ymd))

  unfoldable pub days_since : DateTime → DateTime → ℕ
  days_since d rhs = to_uint32 (cast_days (d.timepoint -ℤ rhs.timepoint))

  unfoldable pub from_str : Bytes → DateTime
  from_str s =
      let tp = or_start (lib.parse s) in new_date_time (lib.year_month_day (floor_days tp)) tp

  -- `operator-`, which changes its left operand and returns it.
  unfoldable pub minus : DateTime → DateTime → DateTime
  minus d rhs =
      let diff = d.timepoint -ℤ rhs.timepoint in
      let tp = of_days (lib.sys_days d.ymd) -ℤ diff in
      record d { ymd = lib.year_month_day (floor_days tp); timepoint = tp }
