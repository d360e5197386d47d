-- ===== src/Orm/Insert.antt =====
-- `insert` of postgres.hpp: the names come from `query::insert`, the values from the object.
pub mod Laws
use webcrown.Base.{
  ℕ, List, [], ◌∷◌, ◌++◌, map, Bytes, codes, Bool, not, ◌||◌, ◌==◌, length, if◌then◌else◌, drop,
  Option, none, some,
}
use webcrown.Orm.Schema.{Table, Member, has_flag, flag_ignore_insert, flag_primarykey}
use webcrown.Orm.Query.{insert_text}
use webcrown.Orm.Value.{Formats, Value, normalize_type}
use webcrown.Orm.Database.{Database, Response, Ran, exec_commit}

-- The members of an object's type, each with the value that the object holds.
abbrev pub Object : Formats → Type 0
Object f = List (Member × Value f)

abbrev pub members : (f : Formats) → Object f → List Member
members f [] = []
members f ((m, v) ∷ o) = m ∷ members f o

module _ (f : Formats) where
  -- The loop over the members that collects the values.
  unfoldable pub insert_values : Bytes → Object f → Bytes
  unfolding has_flag
  insert_values sql [] = sql
  insert_values sql ((m, v) ∷ o) =
      let a = m.column.attribute in
      insert_values
        (if has_flag a flag_ignore_insert || has_flag a flag_primarykey
          then sql
          else sql ++ (codes ",\n\t" ++ normalize_type f v))
        o

  -- With the values that were collected: `substr(1)` of an empty text throws `std::out_of_range`.
  unfoldable pub insert_row : Database → Bytes → Bytes → Ran Bool
  insert_row db front values =
      if length values == 0
      then record { commands = []; result = none }
      else exec_commit db (front ++ (codes "VALUES (" ++ (drop 1 values ++ codes "\n);")))
          (λ answer. not (answer.affected_rows == 0))

  -- `none` is a type that does not compile.
  unfoldable pub insert_object : Database → Table → Object f → Option (Ran Bool)
  insert_object db t o = elim (insert_text t (members f o)) [
    | none ↦ none
    | some front ↦ some (insert_row db front (insert_values [] o))
  ]
