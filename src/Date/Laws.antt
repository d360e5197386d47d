-- ===== src/Date/Laws.antt =====
-- What `date_time` of include/webcrown/common/date/date_time.hpp reads back, and the days
-- between two time points.
use webcrown.Base.{
  ℕ, ◌+◌, ◌-◌, ◌*◌, ◌/◌, ◌%◌, ◌^◌, ◌<◌, ◌≡◌, ◌∙◌, sym, ap, ◌++◌, some, arith, ℤ, pos, negsuc, ◌+ℤ◌,
  ◌-ℤ◌, pos_part, neg_part, difference, +ℤ_balance, -ℤ_balance, balanced,
}
use webcrown.Date.{
  DateLibrary, DateTime, second, day, of_days, floor_days, cast_days, to_uint32, str, from_str,
  days_since, new_date_time,
}

-- The library gives the date of a day, and gives that day back for it. It documents this for the
-- years from -32767 to 32767.
abbrev pub IsDay : DateLibrary → ℤ → Type 0
IsDay lib n = lib.sys_days (lib.year_month_day n) ≡ n

-- The library reads a date back as it writes it, with any time of whole seconds.
pub record ReadsBack (lib : DateLibrary) (ymd : lib.YearMonthDay) : Type 0 where
  pub parse-format :
      (s : ℕ)
      → s < 86400
      → lib.parse (lib.format_date ymd ++ lib.format_time (pos (s * second)))
        ≡ some (of_days (lib.sys_days ymd) +ℤ pos (s * second))

of_days_balance :
    (n : ℤ) → pos_part (of_days n) + neg_part n * day ≡ neg_part (of_days n) + pos_part n * day
unfolding of_days
of_days_balance n = ground arith

-- A time point of whole seconds is so many of them behind the start of its day, and before its end.
floor_days_whole :
    (t : ℤ)
    → (pos_part t + neg_part t) % second ≡ 0
    → (s : ℕ) × (s < 86400) × (t ≡ of_days (floor_days t) +ℤ pos (s * second))
unfolding floor_days
floor_days_whole (pos n) h = (
  n % day / second,
  omega arith,
  balanced _ _ (
      omega (
        arith,
        +ℤ_balance (of_days (pos (n / day))) (pos (n % day / second * second)),
        of_days_balance (pos (n / day)),
      )),
)
floor_days_whole (negsuc n) h = (
  (day - 1 - n % day) / second,
  omega arith,
  balanced _ _ (
      omega (
        arith,
        +ℤ_balance (of_days (negsuc (n / day))) (pos ((day - 1 - n % day) / second * second)),
        of_days_balance (negsuc (n / day)),
      )),
)

time_of_day : (x y : ℤ) (r : ℕ) → x ≡ y +ℤ pos r → x -ℤ y ≡ pos r
time_of_day x y r e =
    balanced _ _ (omega (arith, -ℤ_balance x y, +ℤ_balance y (pos r), ap pos_part e, ap neg_part e))

-- A `date_time` whose date is the day of its time point, which is of whole seconds, is read back
-- from its text as it was, before 1970 too, when the library gives that day back for its date and
-- reads back what it writes of that date.
pub from_str-str :
    (lib : DateLibrary) (d : DateTime lib)
    → IsDay lib (floor_days d.timepoint)
    → ReadsBack lib d.ymd
    → d.ymd ≡ lib.year_month_day (floor_days d.timepoint)
    → (pos_part d.timepoint + neg_part d.timepoint) % second ≡ 0
    → from_str lib (str lib d) ≡ d
unfolding from_str str new_date_time
from_str-str lib d agree reads same whole =
    let (s, lt, e) = floor_days_whole d.timepoint whole in
    let start : lib.sys_days d.ymd ≡ floor_days d.timepoint = ap lib.sys_days same ∙ agree in
    let at : d.timepoint ≡ of_days (lib.sys_days d.ymd) +ℤ pos (s * second) = rw start e in
    let written = time_of_day d.timepoint (of_days (lib.sys_days d.ymd)) (s * second) at in
    let read = reads.parse-format s lt ∙ ap some (sym at) in
    rw (written, read) (λ i. record { ymd = sym same i; timepoint = d.timepoint })

backwards : (x y : ℤ) (k : ℕ) → x ≡ y +ℤ pos k → y -ℤ x ≡ difference 0 k
backwards x y k e =
    balanced _ _
      (ground (arith, -ℤ_balance y x, +ℤ_balance y (pos k), ap pos_part e, ap neg_part e))

uint32_negated : (k : ℕ) → (to_uint32 (cast_days (difference 0 k)) + k / day) % 2 ^ 32 ≡ 0
unfolding to_uint32 cast_days
uint32_negated k = ground arith

-- Of two time points the later one is as many whole days since the earlier one as there are
-- between them, below `2 ^ 32`; the days since the later one are minus as many, modulo `2 ^ 32`: an
-- unsigned number that is large as soon as there is a whole day between them.
pub days_since_lem :
    (lib : DateLibrary) (d rhs : DateTime lib) (k : ℕ)
    → d.timepoint ≡ rhs.timepoint +ℤ pos k
    → (days_since lib d rhs ≡ k / day % 2 ^ 32) × ((days_since lib rhs d + k / day) % 2 ^ 32 ≡ 0)
unfolding days_since to_uint32 cast_days
days_since_lem lib d rhs k e = (
  ap to_uint32 (ap cast_days (time_of_day d.timepoint rhs.timepoint k e)),
  rw (backwards d.timepoint rhs.timepoint k e) (uint32_negated k),
)
