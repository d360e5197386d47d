-- ===== src/Date/Witness.antt =====
-- The theorems of `date_time` at a library whose dates are the days from 1970-01-01.
use webcrown.Base.{
  zero, suc, ◌+◌, ◌-◌, ◌*◌, ◌/◌, ◌%◌, ◌^◌, [], ◌∷◌, Bytes, Option, none, some, ◌≡◌, refl, ℤ, pos,
  negsuc, ◌+ℤ◌, ◌-ℤ◌,
}
use webcrown.Date.{
  DateLibrary, DateTime, second, day, of_days, floor_days, str, from_str, days_since, minus,
}
use webcrown.Date.Laws.{ReadsBack, from_str-str, days_since_lem}

abbrev written_days : ℤ → Bytes
written_days (pos n) = 0 ∷ n ∷ []
written_days (negsuc n) = 1 ∷ n ∷ []

abbrev written_time : ℤ → Bytes
written_time (pos n) = n ∷ []
written_time (negsuc n) = []

-- A sign, a day and a time.
abbrev read_time : Bytes → Option ℤ
read_time (zero ∷ n ∷ t ∷ []) = some (of_days (pos n) +ℤ pos t)
read_time (suc zero ∷ n ∷ t ∷ []) = some (of_days (negsuc n) +ℤ pos t)
read_time _ = none

abbrev plain_days : DateLibrary
plain_days = record {
  YearMonthDay = ℤ;
  sys_days = λ n. n;
  year_month_day = λ n. n;
  format_date = written_days;
  format_time = written_time;
  parse = read_time;
}

-- A second before 1970, and an hour into 1970.
abbrev eve : DateTime plain_days
eve = record { ymd = negsuc 0; timepoint = negsuc (second - 1) }

abbrev morning : DateTime plain_days
morning = record { ymd = pos 0; timepoint = pos (3600 * second) }

eve_reads : ReadsBack plain_days eve.ymd
eve_reads = record { parse-format = λ s lt. refl }

from_str-str_example : from_str plain_days (str plain_days eve) ≡ eve
unfolding floor_days
from_str-str_example = from_str-str plain_days eve refl eve_reads refl refl

-- The time between the two is an hour and a second; the difference is minus as much.
minus_run : (minus plain_days morning eve).timepoint ≡ negsuc (3601 * second - 1)
unfolding minus of_days ◌-ℤ◌
minus_run = refl

days_since_lem_example :
    (days_since plain_days morning eve ≡ 3601 * second / day % 2 ^ 32)
    × ((days_since plain_days eve morning + 3601 * second / day) % 2 ^ 32 ≡ 0)
unfolding ◌+ℤ◌
days_since_lem_example = days_since_lem plain_days morning eve (3601 * second) refl
