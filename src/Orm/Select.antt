-- ===== src/Orm/Select.antt =====
-- `select` and `select_many` of postgres.hpp: the rows of an answer as objects.
pub mod Laws
use webcrown.Base.{List, [], ◌∷◌, ◌++◌, Bytes, bytes_eq, if◌then◌else◌, Option, none, some}
use webcrown.Orm.Schema.{Table, Member, MemberType}
use webcrown.Orm.Query.{select_text}
use webcrown.Orm.Value.{Formats, Value}
use webcrown.Orm.Database.{Database, Row, Ran, exec_rows}

abbrev pub map_option {ℓ κ} : {A : Type ℓ} {B : Type κ} → (A → B) → Option A → Option B
map_option g none = none
map_option g (some a) = some (g a)

module _ (f : Formats) where
  -- The text of a field as a value of the member's type, in `select`.
  unfoldable pub read_value : MemberType → Bytes → Option (Value f)
  read_value MemberType.int_ s = map_option Value.int_ (f.read_int s)
  read_value MemberType.long_ s = map_option Value.long_ (f.read_long s)
  read_value MemberType.short_ s = map_option Value.short_ (f.read_short s)
  read_value MemberType.bool_ s = map_option Value.bool_ (f.read_bool s)
  read_value MemberType.float_ s = map_option Value.float_ (f.read_float s)
  read_value MemberType.double_ s = map_option Value.double_ (f.read_double s)
  read_value MemberType.string s = some (Value.string s)
  read_value MemberType.c_string s = some (Value.c_string (some s))
  read_value MemberType.year_month_day s = some (Value.year_month_day (f.parse_date s))
  read_value MemberType.time_of_day s = some (Value.time_of_day (f.parse_time s))
  read_value MemberType.date_time s = some (Value.date_time (f.parse_date_time s))
  read_value MemberType.enum_ s = map_option (λ v. Value.enum_ (f.as_enum v)) (f.read_int s)

  -- A member is read by its name in C++; `as` throws for a null.
  unfoldable pub read_member : Row → Member → Option (Value f)
  read_member row m = elim (row m.display_name) [
    | none ↦ none
    | some none ↦ none
    | some (some s) ↦ read_value m.value_type s
  ]

  -- The loop over the members, for one row.
  unfoldable pub read_row : List Member → Row → Option (List (Member × Value f))
  read_row [] row = some []
  read_row (m ∷ ms) row =
      let rest = read_row ms row in
      elim (read_member row m) [ none ↦ none | some v ↦ map_option (λ o. (m, v) ∷ o) rest ]

  -- The first row, if there is one.
  unfoldable pub read_first : List Member → List Row → Option (Option (List (Member × Value f)))
  read_first ms [] = some none
  read_first ms (row ∷ rows) = map_option some (read_row ms row)

  -- The lambda of `select_many`, which is written out again there.
  unfoldable pub read_value_many : MemberType → Bytes → Option (Value f)
  read_value_many MemberType.int_ s = map_option Value.int_ (f.read_int s)
  read_value_many MemberType.long_ s = map_option Value.long_ (f.read_long s)
  read_value_many MemberType.short_ s = map_option Value.short_ (f.read_short s)
  read_value_many MemberType.bool_ s = map_option Value.bool_ (f.read_bool s)
  read_value_many MemberType.float_ s = map_option Value.float_ (f.read_float s)
  read_value_many MemberType.double_ s = map_option Value.double_ (f.read_double s)
  read_value_many MemberType.string s = some (Value.string s)
  read_value_many MemberType.c_string s = some (Value.c_string (some s))
  read_value_many MemberType.year_month_day s = some (Value.year_month_day (f.parse_date s))
  read_value_many MemberType.time_of_day s = some (Value.time_of_day (f.parse_time s))
  read_value_many MemberType.date_time s = some (Value.date_time (f.parse_date_time s))
  read_value_many MemberType.enum_ s = map_option (λ v. Value.enum_ (f.as_enum v)) (f.read_int s)

  unfoldable pub read_member_many : Row → Member → Option (Value f)
  read_member_many row m = elim (row m.display_name) [
    | none ↦ none
    | some none ↦ none
    | some (some s) ↦ read_value_many m.value_type s
  ]

  -- `obj`, after the loop over the members.
  unfoldable pub read_object : List Member → Row → Option (List (Member × Value f))
  read_object [] row = some []
  read_object (m ∷ ms) row =
      let rest = read_object ms row in
      elim (read_member_many row m) [ none ↦ none | some v ↦ map_option (λ o. (m, v) ∷ o) rest ]

  -- The loop over the rows.
  unfoldable pub read_all : List Member → List Row → Option (List (List (Member × Value f)))
  read_all ms [] = some []
  read_all ms (row ∷ rows) =
      let rest = read_all ms rows in
      elim (read_object ms row) [ none ↦ none | some o ↦ map_option (λ os. o ∷ os) rest ]

  unfoldable pub select :
      Database → Table → List Member → Bytes → Ran (Option (List (Member × Value f)))
  select db t ms cond = exec_rows db (select_text t ++ cond) (read_first ms)

  unfoldable pub select_many :
      Database → Table → List Member → Bytes → Ran (List (List (Member × Value f)))
  select_many db t ms cond = exec_rows db (select_text t ++ cond) (read_all ms)
