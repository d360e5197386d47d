-- ===== src/Orm/Query/Columns.antt =====
-- What a column's definition and the statement that creates a table are, said without the code of
-- `query::make_sql_field_spec` and `query::create_table` in postgres.hpp.
use webcrown.Base.{
  ◌≡◌, ◌≢◌, refl, ap, sym, List, [], ◌∷◌, ◌++◌, append_assoc, append-nil, Bytes, codes, some,
  prefixed, intercalate, ℤ, pos, Bool, true, false, ◌==◌, length, arith, ℕ, if◌then◌else◌,
  Bool-cases, inl, inr,
}
use webcrown.Orm.Schema.{DataType, MemberType, Table, Column, Member, flag_none}
use webcrown.Orm.Query.{
  is_integral, spec_compiles, applies_custom, sql_type, spec_of, make_sql_field_spec, field_specs,
  create_table, create_table_text,
}

-- What C++ calls an integral type.
pub data IsIntegral : MemberType → Type 0 where
  an_int : IsIntegral MemberType.int_
  a_long : IsIntegral MemberType.long_
  a_short : IsIntegral MemberType.short_
  a_bool : IsIntegral MemberType.bool_

-- The types of PostgreSQL, with the C++ types that a column of each may have, and the name of each.
-- An enumeration is an integer there; a length is that of the column, and not negative.
pub data IsTyped (decimal : ℤ → Bytes) (size : ℤ) : DataType → MemberType → Bytes → Type 0 where
  big_serial :
      (t : MemberType)
      → IsIntegral t
      → IsTyped decimal size DataType.bigserial t (codes "bigserial")
  text_string : IsTyped decimal size DataType.text MemberType.string (codes "TEXT")
  text_c_string : IsTyped decimal size DataType.text MemberType.c_string (codes "TEXT")
  integer_int : IsTyped decimal size DataType.integer MemberType.int_ (codes "integer")
  integer_long : IsTyped decimal size DataType.integer MemberType.long_ (codes "integer")
  integer_short : IsTyped decimal size DataType.integer MemberType.short_ (codes "integer")
  integer_enum : IsTyped decimal size DataType.integer MemberType.enum_ (codes "integer")
  big_long : IsTyped decimal size DataType.bigint MemberType.long_ (codes "bigint")
  boolean_bool : IsTyped decimal size DataType.boolean MemberType.bool_ (codes "boolean")
  cidr_string : IsTyped decimal size DataType.cidr MemberType.string (codes "cidr")
  cidr_c_string : IsTyped decimal size DataType.cidr MemberType.c_string (codes "cidr")
  date_day : IsTyped decimal size DataType.date MemberType.year_month_day (codes "date")
  decimal_float : IsTyped decimal size DataType.decimal MemberType.float_ (codes "decimal")
  decimal_double : IsTyped decimal size DataType.decimal MemberType.double_ (codes "decimal")
  small_short : IsTyped decimal size DataType.smallint MemberType.short_ (codes "smallint")
  small_serial : IsTyped decimal size DataType.smallserial MemberType.short_ (codes "smallserial")
  serial_int : IsTyped decimal size DataType.serial MemberType.int_ (codes "serial")
  timestamp_date_time :
      IsTyped decimal size DataType.timestamp MemberType.date_time (codes "timestamp")
  time_of_day : IsTyped decimal size DataType.time MemberType.time_of_day (codes "time")
  characters :
      (t : MemberType) (n : ℕ)
      → size ≡ pos n
      → IsTyped decimal size DataType.char_n t (codes "char[" ++ (decimal size ++ codes "]"))

-- The definition of a member's column: its name, the name of the type, and the definition of its
-- own if it has one and no flag; a primary key of the data type has no such definition.
pub data IsDefined (decimal : ℤ → Bytes) (m : Member) : Bytes → Type 0 where
  simple :
      (w : Bytes)
      → IsTyped decimal m.column.length m.column.data_type m.value_type w
      → m.column.custom_definition_flags ≡ []
      → IsDefined decimal m (m.column.name ++ (codes " " ++ w))
  flagged :
      (w : Bytes)
      → IsTyped decimal m.column.length m.column.data_type m.value_type w
      → m.column.attribute ≢ flag_none
      → IsDefined decimal m (m.column.name ++ (codes " " ++ w))
  custom :
      (w : Bytes)
      → IsTyped decimal m.column.length m.column.data_type m.value_type w
      → m.column.attribute ≡ flag_none
      → m.column.custom_definition_flags ≢ []
      → IsDefined decimal m
          (m.column.name ++ (codes " " ++ (w ++ (codes " " ++ m.column.custom_definition_flags))))
  primary_key :
      m.column.data_type ≡ DataType.primarykey
      → IsIntegral m.value_type
      → IsDefined decimal m (m.column.name ++ codes " bigserial PRIMARY KEY")

-- A definition for each member, in their order.
abbrev pub AllDefined : (ℤ → Bytes) → List Member → List Bytes → Type 0
AllDefined decimal [] [] = Unit {0}
AllDefined decimal (m ∷ ms) (s ∷ ss) = IsDefined decimal m s × AllDefined decimal ms ss
AllDefined decimal [] (s ∷ ss) = ⊥
AllDefined decimal (m ∷ ms) [] = ⊥

abbrev written : Bool → Column → Bytes → Bytes
written true c w = c.name ++ (codes " " ++ (w ++ (codes " " ++ c.custom_definition_flags)))
written false c w = c.name ++ (codes " " ++ w)

integral : (t : MemberType) → IsIntegral t → is_integral t ≡ true
unfolding is_integral
integral _ an_int = refl
integral _ a_long = refl
integral _ a_short = refl
integral _ a_bool = refl

module _ (decimal : ℤ → Bytes) where
  spec_cases :
      (c : Column) (w : Bytes)
      → (if applies_custom c
          then c.name ++ (codes " " ++ (w ++ (codes " " ++ c.custom_definition_flags)))
          else c.name ++ (codes " " ++ w))
        ≡ written (applies_custom c) c w
  spec_cases c w = elim (Bool-cases (applies_custom c)) [ inl e ↦ rw e refl | inr e ↦ rw e refl ]

  typed_spec :
      (c : Column) (d : DataType) (t : MemberType) (w : Bytes)
      → IsTyped decimal c.length d t w
      → (spec_compiles d c.length t ≡ true) × (spec_of decimal d c ≡ written (applies_custom c) c w)
  unfolding spec_compiles spec_of sql_type webcrown.Orm.Query.is_same webcrown.Orm.Query.is_text
      webcrown.Orm.Query.is_integral webcrown.Orm.Query.is_default_length
  typed_spec c _ _ _ (big_serial t i) = (integral t i, spec_cases c _)
  typed_spec c _ _ _ text_string = (refl, spec_cases c _)
  typed_spec c _ _ _ text_c_string = (refl, spec_cases c _)
  typed_spec c _ _ _ integer_int = (refl, spec_cases c _)
  typed_spec c _ _ _ integer_long = (refl, spec_cases c _)
  typed_spec c _ _ _ integer_short = (refl, spec_cases c _)
  typed_spec c _ _ _ integer_enum = (refl, spec_cases c _)
  typed_spec c _ _ _ big_long = (refl, spec_cases c _)
  typed_spec c _ _ _ boolean_bool = (refl, spec_cases c _)
  typed_spec c _ _ _ cidr_string = (refl, spec_cases c _)
  typed_spec c _ _ _ cidr_c_string = (refl, spec_cases c _)
  typed_spec c _ _ _ date_day = (refl, spec_cases c _)
  typed_spec c _ _ _ decimal_float = (refl, spec_cases c _)
  typed_spec c _ _ _ decimal_double = (refl, spec_cases c _)
  typed_spec c _ _ _ small_short = (refl, spec_cases c _)
  typed_spec c _ _ _ small_serial = (refl, spec_cases c _)
  typed_spec c _ _ _ serial_int = (refl, spec_cases c _)
  typed_spec c _ _ _ timestamp_date_time = (refl, spec_cases c _)
  typed_spec c _ _ _ time_of_day = (refl, spec_cases c _)
  typed_spec c _ _ _ (characters t n e) = (rw e refl, spec_cases c _)

  -- Whether a definition of its own is added.
  no_flags : (c : Column) → c.custom_definition_flags ≡ [] → applies_custom c ≡ false
  unfolding applies_custom
  no_flags c e = rw e (ground arith)

  with_attribute : (c : Column) → c.attribute ≢ flag_none → applies_custom c ≡ false
  unfolding applies_custom
  with_attribute c ne = ground arith

  some_flags : (s : Bytes) → s ≢ [] → (length s == 0) ≡ false
  some_flags [] ne = absurd (ne refl)
  some_flags (x ∷ s) ne = ground arith

  with_flags :
      (c : Column)
      → c.attribute ≡ flag_none
      → c.custom_definition_flags ≢ []
      → applies_custom c ≡ true
  unfolding applies_custom
  with_flags c e ne = ground (arith, some_flags c.custom_definition_flags ne)

  typed_column :
      (m : Member) (w : Bytes) (b : Bool)
      → IsTyped decimal m.column.length m.column.data_type m.value_type w
      → applies_custom m.column ≡ b
      → make_sql_field_spec decimal m ≡ some (written b m.column w)
  unfolding make_sql_field_spec
  typed_column m w b h e =
      let (compiles, spec) = typed_spec m.column m.column.data_type m.value_type w h in
      rw (make_sql_field_spec, compiles, spec, e) refl

  defined_column :
      (m : Member) (s : Bytes) → IsDefined decimal m s → make_sql_field_spec decimal m ≡ some s
  unfolding make_sql_field_spec spec_compiles spec_of
  defined_column m _ (simple w h e) = typed_column m w false h (no_flags m.column e)
  defined_column m _ (flagged w h ne) = typed_column m w false h (with_attribute m.column ne)
  defined_column m _ (custom w h e ne) = typed_column m w true h (with_flags m.column e ne)
  defined_column m _ (primary_key e i) = rw (e, integral m.value_type i) refl

  field_specs_lem :
      (acc : Bytes) (ms : List Member) (ss : List Bytes)
      → AllDefined decimal ms ss
      → field_specs decimal acc ms ≡ some (acc ++ prefixed (codes ",\n\t") ss)
  unfolding field_specs
  field_specs_lem acc [] [] h = ap some (sym (append-nil acc))
  field_specs_lem acc (m ∷ ms) (s ∷ ss) (h, hs) =
      rw (field_specs, defined_column m s h, field_specs_lem (acc ++ (codes ",\n\t" ++ s)) ms ss hs)
        (ap some (append_assoc acc (codes ",\n\t" ++ s) _))
  field_specs_lem acc [] (s ∷ ss) h = elim h [ ]
  field_specs_lem acc (m ∷ ms) [] h = elim h [ ]

-- What stands behind the last column's definition.
abbrev pub table_end : Bytes → Bytes
table_end [] = codes "\n);"
table_end (c ∷ cs) = codes ",\n" ++ ((c ∷ cs) ++ codes "\n);")

ended_text :
    (t : Table) (fields cs : Bytes)
    → t.constraints ≡ cs
    → create_table_text t (codes "\t" ++ fields)
      ≡ codes "CREATE TABLE IF NOT EXISTS "
        ++ (t.name ++ (codes " (\n\t" ++ (fields ++ table_end cs)))
unfolding create_table_text
ended_text t fields [] e = rw e refl
ended_text t fields (c ∷ cs) e =
    let constrained : (length (c ∷ cs) == 0) ≡ false = ground arith in rw (e, constrained) refl

-- Each member of a type, and there is one, has a column's definition by `IsDefined`: the name, the
-- name of the SQL type that goes with the member's C++ type, and the column's own definition if it
-- has one and no flag. Then the type compiles to the statement with the table's name, those
-- definitions in the order of the members, one to a line with a comma between them, and the table's
-- constraints if it has any.
pub create_table-AllDefined :
    (decimal : ℤ → Bytes) (t : Table) (m : Member) (ms : List Member) (s : Bytes) (ss : List Bytes)
    → IsDefined decimal m s
    → AllDefined decimal ms ss
    → create_table decimal t (m ∷ ms)
      ≡ some (
          codes "CREATE TABLE IF NOT EXISTS "
          ++ (t.name
              ++ (codes " (\n\t"
                  ++ (intercalate (codes ",\n\t") (s ∷ ss) ++ table_end t.constraints))))
unfolding create_table
create_table-AllDefined decimal t m ms s ss h hs =
    rw (create_table, field_specs_lem decimal [] (m ∷ ms) (s ∷ ss) (h, hs))
      (ap some (ended_text t (s ++ prefixed (codes ",\n\t") ss) t.constraints refl))
