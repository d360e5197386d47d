-- ===== src/Orm/Tests.antt =====
-- A table of three columns, a database that answers with its rows, and runs of the mapper on them.
use webcrown.Base.{
  ℕ, ◌+◌, ◌<◌, ◌≡◌, refl, List, [], ◌∷◌, ◌++◌, Bytes, codes, bytes_eq, Bool, if◌then◌else◌, true,
  false, Option, none, some, ℤ, pos, length, arith,
}
use Prim.Native.String.{String}
use webcrown.Cstdlib.{atoi}
use webcrown.Orm.Schema.{
  DataType, ColumnFlags, flag_none, flag_primarykey, flag_ignore_on_serializer, flag_or, Table,
  Column, MemberType, Member,
}
use webcrown.Orm.Value.{Formats, Value, to_string_int}
use webcrown.Orm.Database.{Database, Row, Response, Command, Ran, run_delete}
use webcrown.Orm.Insert.{Object, insert_object}
use webcrown.Orm.Query.{create_table}
use webcrown.Orm.Update.{update}
use webcrown.Orm.Select.{select}

-- What a run of the mapper computes through.
unfoldable pub orm_code : Unit {0}
unfolding webcrown.Orm.Schema.flag_or webcrown.Orm.Schema.flag_and webcrown.Orm.Schema.has_flag
    webcrown.Orm.Query.is_same webcrown.Orm.Query.is_integral webcrown.Orm.Query.is_text
    webcrown.Orm.Query.is_default_length webcrown.Orm.Query.spec_compiles
    webcrown.Orm.Query.applies_custom webcrown.Orm.Query.create_table_text
    webcrown.Orm.Query.sql_type webcrown.Orm.Query.spec_of webcrown.Orm.Query.make_sql_field_spec
    webcrown.Orm.Query.field_specs webcrown.Orm.Query.create_table webcrown.Orm.Query.is_pk_type
    webcrown.Orm.Query.fields_to_insert webcrown.Orm.Query.insert_fields
    webcrown.Orm.Query.insert_text webcrown.Orm.Query.select_text webcrown.Orm.Query.update_text
    webcrown.Orm.Query.delete_text webcrown.Orm.Value.to_string_int webcrown.Orm.Value.bool_text
    webcrown.Orm.Value.normalize_type webcrown.Orm.Database.exec_commit
    webcrown.Orm.Database.exec_rows webcrown.Orm.Database.run_delete
    webcrown.Orm.Insert.insert_values webcrown.Orm.Insert.insert_row
    webcrown.Orm.Insert.insert_object webcrown.Orm.Select.read_value webcrown.Orm.Select.read_member
    webcrown.Orm.Select.read_value_many webcrown.Orm.Select.read_member_many
    webcrown.Orm.Select.read_object webcrown.Orm.Select.read_row webcrown.Orm.Select.read_first
    webcrown.Orm.Select.read_all webcrown.Orm.Select.select webcrown.Orm.Select.select_many
    webcrown.Orm.Update.update_statement webcrown.Orm.Update.assignment
    webcrown.Orm.Update.up_find_value webcrown.Orm.Update.update_args webcrown.Orm.Update.update
    webcrown.Base.bytes_eq webcrown.Cstdlib.atoi webcrown.Cstdlib.to_string
orm_code = tt

-- Numbers behind the point, and dates and times as they are written.
abbrev pub plain : Formats
plain = record {
  Real = Bytes;
  YearMonthDay = Bytes;
  TimeOfDay = Bytes;
  DateTime = Bytes;
  write_real = λ r. codes "0." ++ r;
  write_time = λ t. codes "T" ++ t;
  format_date = λ d. d;
  format_date_time = λ d. d;
  read_int = λ s. some (atoi s);
  read_long = λ s. some (atoi s);
  read_short = λ s. some (atoi s);
  read_bool = λ s. some (bytes_eq s (codes "t"));
  read_float = λ s. some s;
  read_double = λ s. some s;
  as_enum = λ v. v;
  parse_date = λ s. s;
  parse_time = λ s. s;
  parse_date_time = λ s. s;
}

abbrev pub users_table : Table
users_table = record { name = codes "users"; constraints = [] }

abbrev pub column : String → DataType → ColumnFlags → Column
column name t attribute = record {
  name = codes name;
  data_type = t;
  attribute = attribute;
  custom_definition_flags = [];
  length = ℤ.negsuc 0;
  is_admin_field_identifier = false;
}

abbrev pub id : Member
id = record {
  display_name = codes "id";
  value_type = MemberType.long_;
  column = column "id" DataType.primarykey flag_primarykey;
}

abbrev pub name : Member
name = record {
  display_name = codes "name";
  value_type = MemberType.string;
  column = column "name" DataType.text flag_none;
}

abbrev pub age : Member
age = record {
  display_name = codes "age";
  value_type = MemberType.int_;
  column = column "age" DataType.integer flag_ignore_on_serializer;
}

abbrev pub user : Object plain
user =
    (id, Value.long_ (pos 0)) ∷ (name, Value.string (codes "ann")) ∷ (age, Value.int_ (pos 7)) ∷ []

abbrev named : List (Bytes × Bytes) → Row
named [] k = none
named ((j, v) ∷ fields) k = if bytes_eq j k then some (some v) else named fields k

abbrev pub row : Row
row = named ((codes "id", codes "1") ∷ (codes "name", codes "ann") ∷ (codes "age", codes "7") ∷ [])

-- Every statement is taken; every query has the one row.
abbrev pub willing : Database
willing = record {
  exec = λ sql. some (record { rows = row ∷ []; affected_rows = 0 });
  exec0 = λ sql. some (record { rows = []; affected_rows = 1 });
  commits = true;
}

users_created :
    create_table (λ n. to_string_int n) users_table (id ∷ name ∷ age ∷ [])
    ≡ some (
        codes
          "CREATE TABLE IF NOT EXISTS users (\n\tid bigserial PRIMARY KEY,\n\tname TEXT,\n\tage integer\n);")
unfolding orm_code
users_created = refl

user_inserted :
    insert_object plain willing users_table user
    ≡ some (record {
      commands =
          Command.exec0
            (codes "INSERT INTO users (\n\t name,\n\t age\n) VALUES (\n\t'ann',\n\t7\n);")
          ∷ Command.commit
          ∷ [];
      result = some true;
    })
unfolding orm_code
user_inserted = refl

-- A primary key with another flag has a name in the statement and no value.
abbrev hidden_id : Member
hidden_id = record id {
  column = column "id" DataType.bigserial (flag_or flag_primarykey flag_ignore_on_serializer);
}

hidden_id_inserted :
    insert_object plain willing users_table
      ((hidden_id, Value.long_ (pos 0)) ∷ (name, Value.string (codes "ann")) ∷ [])
    ≡ some (record {
      commands =
          Command.exec0 (codes "INSERT INTO users (\n\t id,\n\t name\n) VALUES (\n\t'ann'\n);")
          ∷ Command.commit
          ∷ [];
      result = some true;
    })
unfolding orm_code
hidden_id_inserted = refl

no_argument :
    update plain willing users_table
      (id ∷ name ∷ [])
      (codes "WHERE id=1")
      ((codes "nickname", Value.string (codes "bo")) ∷ [])
    ≡ record {
      commands = Command.exec0 (codes "UPDATE users SET WHERE id=1") ∷ Command.commit ∷ [];
      result = some true;
    }
unfolding orm_code
no_argument = refl

user_selected :
    (select plain willing users_table (id ∷ name ∷ []) (codes "WHERE id=1")).result
    ≡ some (some ((id, Value.long_ (pos 1)) ∷ (name, Value.string (codes "ann")) ∷ []))
unfolding orm_code
user_selected = refl

-- A column that the answer lacks is an exception.
unnamed_column :
    (select plain willing users_table (record name { display_name = codes "nick" } ∷ []) []).result
    ≡ none
unfolding orm_code
unnamed_column = refl

user_deleted :
    (run_delete willing users_table (codes "WHERE id=1")).commands
    ≡ Command.exec0 (codes "DELETE FROM users WHERE id=1") ∷ Command.commit ∷ []
unfolding orm_code
user_deleted = refl
