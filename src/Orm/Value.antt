-- ===== src/Orm/Value.antt =====
-- `normalize_type` of postgres.hpp, and the values that the members of an object hold. The texts of
-- floating-point numbers, dates and times are those of the streams and of the library date, both
-- outside the repository: a record of types and functions, whose laws no definition needs.
pub mod Laws
use webcrown.Base.{
  ℕ, ◌+◌, [], ◌∷◌, ◌++◌, Bytes, codes, Bool, true, false, Option, none, some, if◌then◌else◌, ℤ,
}
use webcrown.Cstdlib.{to_string}
use webcrown.Orm.Schema.{MemberType}

pub record Formats : Type 1 where
  pub Real : Type 0
  pub YearMonthDay : Type 0
  pub TimeOfDay : Type 0
  pub DateTime : Type 0
  -- `os << v`
  pub write_real : Real → Bytes
  pub write_time : TimeOfDay → Bytes
  -- `date::format("%Y-%m-%d", v)`, and `date_time::str`
  pub format_date : YearMonthDay → Bytes
  pub format_date_time : DateTime → Bytes
  -- `as<MT>()` of the database library; `none` is its exception
  pub read_int : Bytes → Option ℤ
  pub read_long : Bytes → Option ℤ
  pub read_short : Bytes → Option ℤ
  pub read_bool : Bytes → Option Bool
  pub read_float : Bytes → Option Real
  pub read_double : Bytes → Option Real
  -- `static_cast` of an int to the enumeration, whose underlying type may not hold it
  pub as_enum : ℤ → ℤ
  -- `date::parse`, which leaves some value where it fails, and `date_time::from_str`
  pub parse_date : Bytes → YearMonthDay
  pub parse_time : Bytes → TimeOfDay
  pub parse_date_time : Bytes → DateTime

-- `std::to_string` of a signed integer.
unfoldable pub to_string_int : ℤ → Bytes
unfolding to_string
to_string_int (ℤ.pos n) = to_string n
to_string_int (ℤ.negsuc n) = b'-' ∷ to_string (n + 1)

-- A value, by its member's type; an enumeration is its underlying integer, and a `const char*` is
-- `none` if it is null.
pub data Value (f : Formats) : Type 0 where
  int_ long_ short_ enum_ : ℤ → Value f
  bool_ : Bool → Value f
  float_ double_ : f.Real → Value f
  string : Bytes → Value f
  c_string : Option Bytes → Value f
  year_month_day : f.YearMonthDay → Value f
  time_of_day : f.TimeOfDay → Value f
  date_time : f.DateTime → Value f

-- `std::boolalpha`
unfoldable pub bool_text : Bool → Bytes
bool_text true = codes "true"
bool_text false = codes "false"

-- The overloads of `normalize_type`. A `const char*` takes the one of `bool`: that conversion is a
-- standard one, and the one to `std::string` is not.
unfoldable pub normalize_type : (f : Formats) → Value f → Bytes
unfolding to_string_int bool_text
normalize_type f (int_ v) = to_string_int v
normalize_type f (long_ v) = to_string_int v
normalize_type f (short_ v) = to_string_int v
normalize_type f (enum_ v) = to_string_int v
normalize_type f (bool_ v) = bool_text v
normalize_type f (float_ v) = f.write_real v
normalize_type f (double_ v) = f.write_real v
normalize_type f (string v) = codes "'" ++ (v ++ codes "'")
normalize_type f (c_string none) = bool_text false
normalize_type f (c_string (some v)) = bool_text true
normalize_type f (year_month_day v) = codes "'" ++ (f.format_date v ++ codes "'")
normalize_type f (time_of_day v) = f.write_time v
normalize_type f (date_time v) = codes "'" ++ (f.format_date_time v ++ codes "'")
