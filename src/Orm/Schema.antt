-- ===== src/Orm/Schema.antt =====
-- enums.hpp, and the attributes `Table` and `Column` of postgres.hpp. The list of a type's members
-- is what refl-cpp, outside the repository, gives for it.
use Prim.Native.Nat.{bit_and, bit_or}
use webcrown.Base.{ℕ, Bytes, Bool, not, ◌==◌, ℤ}

pub data DataType : Type 0 where
  primarykey bigint bigserial boolean char_n cidr date integer decimal smallint smallserial serial
        text timestamp time :
      DataType

-- A `uint8_t`; its constants are `flag_none` and so on here.
abbrev pub ColumnFlags : Type 0
ColumnFlags = ℕ

abbrev pub flag_none : ColumnFlags
flag_none = 0b00000000

abbrev pub flag_primarykey : ColumnFlags
flag_primarykey = 0b00000001

abbrev pub flag_ignore_insert : ColumnFlags
flag_ignore_insert = 0b00000010

abbrev pub flag_ignore_on_serializer : ColumnFlags
flag_ignore_on_serializer = 0b00000100

unfoldable pub flag_or : ColumnFlags → ColumnFlags → ColumnFlags
flag_or lhs rhs = bit_or lhs rhs

unfoldable pub flag_and : ColumnFlags → ColumnFlags → ColumnFlags
flag_and lhs rhs = bit_and lhs rhs

-- `static_cast<bool>(attribute & flag)`
unfoldable pub has_flag : ColumnFlags → ColumnFlags → Bool
unfolding flag_and
has_flag attribute flag = not (flag_and attribute flag == 0)

pub record Table : Type 0 where
  pub name : Bytes
  pub constraints : Bytes

pub record Column : Type 0 where
  pub name : Bytes
  pub data_type : DataType
  pub attribute : ColumnFlags
  pub custom_definition_flags : Bytes
  pub length : ℤ
  pub is_admin_field_identifier : Bool

-- The C++ type of a member, as far as the mapper tells types apart. `long` is `int64_t`, `int` is
-- `int32_t` and `short` is `int16_t`.
pub data MemberType : Type 0 where
  int_ long_ short_ bool_ float_ double_ string c_string year_month_day time_of_day date_time
        enum_ :
      MemberType

-- A member: its name in C++, its type, and its column.
pub record Member : Type 0 where
  pub display_name : Bytes
  pub value_type : MemberType
  pub column : Column
