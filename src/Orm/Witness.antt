-- ===== src/Orm/Witness.antt =====
-- The theorems of the mapper at the table, the object and the database of the tests.
use webcrown.Base.{
  Option, Bytes, StringMap, ◌+◌, ◌≡◌, refl, List, [], ◌∷◌, ◌++◌, codes, true, none, some, not, ◌==◌,
  ltb, if◌then◌else◌, length, arith, pos,
}
use webcrown.Orm.Schema.{Table, Member, MemberType, char_n}
use webcrown.Orm.Query.{fields_to_insert, select_text, create_table}
use webcrown.Orm.Query.Columns.{
  custom, simple, primary_key, a_long, text_string, characters, create_table-AllDefined,
}
use webcrown.Orm.Value.{Value, to_string_int, string, normalize_type}
use webcrown.Orm.Value.Laws.{read_literal, read_literal-normalize_type}
use webcrown.Orm.Database.{Response, Command, exec_commit}
use webcrown.Orm.Insert.{members, insert_object}
use webcrown.Orm.Insert.Laws.{names, values, only_named, insert_statement, insert_object_lem}
use webcrown.Orm.Select.{select, select_many}
use webcrown.Orm.Select.Laws.{first, ReadAs, select-select_many}
use webcrown.Orm.Update.{update, update_from}
use webcrown.Orm.Update.Statement.{update_with}
use webcrown.Orm.Update.Texts.{cast_assignments, ran_with}
use webcrown.Orm.Update.Laws.{assignments, update_lem}
use webcrown.Orm.Tests.{orm_code, plain, users_table, id, name, user, willing}

-- A table with a constraint, and columns that are a key, text of their own definition and digits.
abbrev keyed_table : Table
keyed_table = record { name = codes "users"; constraints = codes "\tUNIQUE (name)" }

abbrev known : Member
known = record name { column = record (name.column) { custom_definition_flags = codes "NOT NULL" } }

abbrev digits : Member
digits = record name {
  column = record (name.column) { name = codes "pin"; data_type = char_n; length = pos 4 };
}

create_table-AllDefined_example :
    create_table to_string_int keyed_table (id ∷ known ∷ digits ∷ [])
    ≡ some (
        codes
          "CREATE TABLE IF NOT EXISTS users (\n\tid bigserial PRIMARY KEY,\n\tname TEXT NOT NULL,\n\tpin char[4],\n\tUNIQUE (name)\n);")
unfolding orm_code
create_table-AllDefined_example =
    create_table-AllDefined to_string_int keyed_table id (known ∷ digits ∷ [])
      (codes "id bigserial PRIMARY KEY") (codes "name TEXT NOT NULL" ∷ codes "pin char[4]" ∷ [])
      (primary_key refl a_long)
      (
        custom (codes "TEXT") text_string refl (λ e. cc),
        (simple (codes "char[4]") (characters MemberType.string 4 refl) refl, tt),
      )

-- A name, and one that deletes a table.
read_literal-normalize_type_example :
    (read_literal (normalize_type plain (string (codes "a")) ++ codes "\n);")
      ≡ some (codes "a", codes "\n);"))
    × (read_literal (
          normalize_type plain (string (codes "a" ++ (b'\'' ∷ b';' ∷ codes "DROP TABLE users;--")))
          ++ codes "\n);")
        ≡ some (codes "a", b';' ∷ (codes "DROP TABLE users;--" ++ (b'\'' ∷ codes "\n);"))))
read_literal-normalize_type_example =
    read_literal-normalize_type plain (codes "a") (codes "DROP TABLE users;--") (codes "\n);") b';'
      (omega arith) (omega arith) (omega arith)

insert_object_lem_example :
    (insert_object plain willing users_table user ≡ (
      if ltb 0 (fields_to_insert 0 (members plain user))
      then some (
          exec_commit willing
            (insert_statement users_table (names (members plain user)) (values plain user))
            (λ answer. not (answer.affected_rows == 0)))
      else none))
    × (length (names (members plain user))
        ≡ length (values plain user) + only_named (members plain user))
insert_object_lem_example = insert_object_lem plain willing users_table user

abbrev ann : List (Member × Value plain)
ann = (id, Value.long_ (pos 1)) ∷ (name, string (codes "ann")) ∷ []

select-select_many_example :
    (answer : Response) × (willing.exec (select_text users_table ++ codes "WHERE id=1")
      ≡ some answer)
    × ReadAs plain (id ∷ name ∷ []) answer.rows (ann ∷ [])
    × ((select plain willing users_table (id ∷ name ∷ []) (codes "WHERE id=1")).result
        ≡ some (first (ann ∷ [])))
    × ((select plain willing users_table (id ∷ name ∷ []) (codes "WHERE id=1")).commands
        ≡ Command.exec (select_text users_table ++ codes "WHERE id=1") ∷ [])
    × ((select_many plain willing users_table (id ∷ name ∷ []) (codes "WHERE id=1")).commands
        ≡ Command.exec (select_text users_table ++ codes "WHERE id=1") ∷ [])
unfolding orm_code
select-select_many_example =
    select-select_many plain willing users_table (id ∷ name ∷ []) (codes "WHERE id=1") (ann ∷ [])
      refl

abbrev cast_text : MemberType → Bytes → Option (Value plain)
cast_text MemberType.string s = some (string s)
cast_text t s = none

abbrev texts : StringMap
texts = (codes "name", codes "cy") ∷ []

update_lem_example :
    (update plain willing users_table
        (id ∷ name ∷ [])
        (codes "WHERE id=1")
        ((codes "name", string (codes "bo")) ∷ [])
      ≡ exec_commit willing
          (update_with users_table
            (assignments plain ((codes "name", string (codes "bo")) ∷ []) (id ∷ name ∷ []))
            (codes "WHERE id=1"))
          (λ answer. true))
    × (update_from plain cast_text willing users_table (id ∷ name ∷ []) (codes "WHERE id=1") texts
        ≡ ran_with willing users_table
            (codes "WHERE id=1")
            (cast_assignments plain cast_text texts (id ∷ name ∷ [])))
update_lem_example =
    update_lem plain cast_text willing users_table (id ∷ name ∷ []) (codes "WHERE id=1")
      ((codes "name", string (codes "bo")) ∷ []) texts (λ r. omega arith) (λ t. omega arith)
