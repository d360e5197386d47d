-- ===== src/Orm/Query.antt =====
-- The namespace `query` of postgres.hpp: texts that are built when the program is compiled, from
-- the members of a type. `none` is a text that does not compile. `decimal` is the text of
-- `meta::to_string`, a copy of another project.
pub mod Columns
use webcrown.Base.{
  ℕ, ◌+◌, List, [], ◌∷◌, ◌++◌, Bytes, codes, Bool, true, false, ◌&&◌, ◌||◌, not, ltb, ◌==◌, length,
  if◌then◌else◌, drop, Option, none, some, ℤ,
}
use webcrown.Orm.Schema.{
  DataType, flag_none, flag_primarykey, flag_ignore_insert, has_flag, Table, Column, MemberType,
  Member,
}

-- A number for each type, to compare them.
type_number : MemberType → ℕ
type_number MemberType.int_ = 0
type_number MemberType.long_ = 1
type_number MemberType.short_ = 2
type_number MemberType.bool_ = 3
type_number MemberType.float_ = 4
type_number MemberType.double_ = 5
type_number MemberType.string = 6
type_number MemberType.c_string = 7
type_number MemberType.year_month_day = 8
type_number MemberType.time_of_day = 9
type_number MemberType.date_time = 10
type_number MemberType.enum_ = 11

unfoldable pub is_same : MemberType → MemberType → Bool
unfolding type_number
is_same t u = type_number t == type_number u

unfoldable pub is_integral : MemberType → Bool
is_integral MemberType.int_ = true
is_integral MemberType.long_ = true
is_integral MemberType.short_ = true
is_integral MemberType.bool_ = true
is_integral _ = false

-- `std::string` or `const char*`.
unfoldable pub is_text : MemberType → Bool
unfolding is_same
is_text t = is_same t MemberType.string || is_same t MemberType.c_string

-- -1, the default, stands for no length.
unfoldable pub is_default_length : ℤ → Bool
is_default_length (ℤ.pos n) = false
is_default_length (ℤ.negsuc n) = n == 0

-- The `static_assert` of each branch of `make_sql_field_spec`.
unfoldable pub spec_compiles : DataType → ℤ → MemberType → Bool
unfolding is_integral is_text is_same is_default_length
spec_compiles DataType.primarykey l t = is_integral t
spec_compiles DataType.bigserial l t = is_integral t
spec_compiles DataType.text l t = is_text t
spec_compiles DataType.integer l t =
    is_same t MemberType.int_
    || (is_same t MemberType.long_ || (is_same t MemberType.short_ || is_same t MemberType.enum_))
spec_compiles DataType.bigint l t = is_same t MemberType.long_
spec_compiles DataType.boolean l t = is_same t MemberType.bool_
spec_compiles DataType.char_n l t = not (is_default_length l)
spec_compiles DataType.cidr l t = is_text t
spec_compiles DataType.date l t = is_same t MemberType.year_month_day
spec_compiles DataType.decimal l t = is_same t MemberType.float_ || is_same t MemberType.double_
spec_compiles DataType.smallint l t = is_same t MemberType.short_
spec_compiles DataType.smallserial l t = is_same t MemberType.short_
spec_compiles DataType.serial l t = is_same t MemberType.int_
spec_compiles DataType.timestamp l t = is_same t MemberType.date_time
spec_compiles DataType.time l t = is_same t MemberType.time_of_day

-- `should_apply_custom_define`
unfoldable pub applies_custom : Column → Bool
applies_custom c = c.attribute == flag_none && not (length c.custom_definition_flags == 0)

unfoldable pub create_table_text : Table → Bytes → Bytes
create_table_text t fields =
    if length t.constraints == 0
    then codes "CREATE TABLE IF NOT EXISTS "
      ++ (t.name ++ (codes " (\n" ++ (fields ++ codes "\n);")))
    else codes "CREATE TABLE IF NOT EXISTS "
      ++ (t.name ++ (codes " (\n" ++ (fields ++ (codes ",\n" ++ (t.constraints ++ codes "\n);")))))

module _ (decimal : ℤ → Bytes) where
  -- The name of the SQL type in each branch.
  unfoldable pub sql_type : DataType → ℤ → Bytes
  sql_type DataType.primarykey l = codes "bigserial PRIMARY KEY"
  sql_type DataType.bigserial l = codes "bigserial"
  sql_type DataType.text l = codes "TEXT"
  sql_type DataType.integer l = codes "integer"
  sql_type DataType.bigint l = codes "bigint"
  sql_type DataType.boolean l = codes "boolean"
  sql_type DataType.char_n l = codes "char[" ++ (decimal l ++ codes "]")
  sql_type DataType.cidr l = codes "cidr"
  sql_type DataType.date l = codes "date"
  sql_type DataType.decimal l = codes "decimal"
  sql_type DataType.smallint l = codes "smallint"
  sql_type DataType.smallserial l = codes "smallserial"
  sql_type DataType.serial l = codes "serial"
  sql_type DataType.timestamp l = codes "timestamp"
  sql_type DataType.time l = codes "time"

  -- Every branch but the first adds the custom definition.
  unfoldable pub spec_of : DataType → Column → Bytes
  spec_of DataType.primarykey c = c.name ++ codes " bigserial PRIMARY KEY"
  spec_of t c =
      if applies_custom c
      then c.name
        ++ (codes " " ++ (sql_type t c.length ++ (codes " " ++ c.custom_definition_flags)))
      else c.name ++ (codes " " ++ sql_type t c.length)

  unfoldable pub make_sql_field_spec : Member → Option Bytes
  make_sql_field_spec m =
      let c = m.column in
      if spec_compiles c.data_type c.length m.value_type then some (spec_of c.data_type c) else none

  -- The accumulation over the members.
  unfoldable pub field_specs : Bytes → List Member → Option Bytes
  field_specs acc [] = some acc
  field_specs acc (m ∷ ms) = elim (make_sql_field_spec m) [
    | none ↦ none
    | some spec ↦ field_specs (acc ++ (codes ",\n\t" ++ spec)) ms
  ]

  -- `substr<2>` takes off the `,` and the line end in front; it wants two characters.
  unfoldable pub create_table : Table → List Member → Option Bytes
  create_table t [] = none
  create_table t (m ∷ ms) = elim (field_specs [] (m ∷ ms)) [
    | none ↦ none
    | some fields ↦ some (create_table_text t (drop 2 fields))
  ]

-- The first accumulation of `insert`, which the `static_assert` tests.
unfoldable pub is_pk_type : DataType → Bool
is_pk_type DataType.primarykey = true
is_pk_type _ = false

unfoldable pub fields_to_insert : ℕ → List Member → ℕ
unfolding has_flag is_pk_type
fields_to_insert acc [] = acc
fields_to_insert acc (m ∷ ms) =
    let a = m.column.attribute in
    fields_to_insert
      (if has_flag a flag_ignore_insert
          || (has_flag a flag_primarykey || is_pk_type m.column.data_type)
        then acc
        else acc + 1)
      ms

-- The second: the names.
unfoldable pub insert_fields : Bytes → List Member → Bytes
unfolding has_flag
insert_fields acc [] = acc
insert_fields acc (m ∷ ms) =
    let a = m.column.attribute in
    insert_fields
      (if has_flag a flag_ignore_insert
        then acc
        else if a == flag_primarykey
        then acc
        else acc ++ (codes ",\n\t " ++ m.column.name))
      ms

-- `insert<T, false>`, the one that the mapper uses: up to `VALUES`.
unfoldable pub insert_text : Table → List Member → Option Bytes
unfolding fields_to_insert insert_fields
insert_text t ms =
    if ltb 0 (fields_to_insert 0 ms)
    then some (
        codes "INSERT INTO "
        ++ (t.name ++ (codes " (\n" ++ (drop 2 (insert_fields [] ms) ++ codes "\n) "))))
    else none

-- `insert<T, true>`, which nothing calls. The placeholders count the members from 0. A member with
-- `ignore_insert` gives its lambda two return types, which does not compile.
module _ (decimal : ℤ → Bytes) where
  unfoldable pub placeholders : ℕ → Bytes → List Member → Option Bytes
  unfolding has_flag
  placeholders index acc [] = some acc
  placeholders index acc (m ∷ ms) =
      let a = m.column.attribute in
      let rest =
        placeholders (index + 1)
          (if a == flag_primarykey then acc else acc ++ (codes ",\n\t $" ++ decimal (ℤ.pos index)))
          ms in
      if has_flag a flag_ignore_insert then none else rest

  unfoldable pub insert_placeholders : Table → List Member → Option Bytes
  unfolding fields_to_insert insert_fields placeholders
  insert_placeholders t ms =
      let whole : Option Bytes = elim (placeholders 0 [] ms) [
        | none ↦ none
        | some values ↦ some (
            codes "INSERT INTO "
            ++ (t.name
                ++ (codes " (\n"
                    ++ (drop 2 (insert_fields [] ms)
                        ++ (codes "\n) VALUES (\n" ++ (drop 2 values ++ codes "\n)"))))))
      ] in
      if ltb 0 (fields_to_insert 0 ms) then whole else none

unfoldable pub select_text : Table → Bytes
select_text t = codes "SELECT * FROM " ++ (t.name ++ codes " ")

unfoldable pub drop_table_text : Table → Bytes
drop_table_text t = codes "DROP TABLE " ++ t.name

unfoldable pub truncate_text : Table → Bytes
truncate_text t = codes "TRUNCATE TABLE " ++ t.name

unfoldable pub delete_text : Table → Bytes
delete_text t = codes "DELETE FROM " ++ (t.name ++ codes " ")

unfoldable pub update_text : Table → Bytes
update_text t = codes "UPDATE " ++ (t.name ++ codes " SET ")
