-- ===== src/Orm/Update.antt =====
-- The two `update` of postgres.hpp: from a list of arguments, and from a map of texts.
pub mod Statement
pub mod Texts
pub mod Laws
use webcrown.Base.{
  ℕ, ◌-◌, List, [], ◌∷◌, ◌++◌, Bytes, codes, bytes_eq, Bool, true, ◌==◌, length, take, lookup,
  StringMap, if◌then◌else◌, Option, none, some,
}
use webcrown.Orm.Schema.{Table, Member, MemberType}
use webcrown.Orm.Query.{update_text}
use webcrown.Orm.Value.{Formats, Value, normalize_type}
use webcrown.Orm.Database.{Database, Ran, exec_commit}

-- The last character, a comma behind an assignment, is taken off, and the condition put behind.
unfoldable pub update_statement : Bytes → Bytes → Bytes
update_statement sql cond = take (length sql - 1) sql ++ (codes " " ++ cond)

unfoldable pub assignment : Bytes → Bytes → Bytes
assignment name value = codes "\n\t" ++ (name ++ (codes "=" ++ (value ++ codes ",")))

module _ (f : Formats) where
  -- `up_find_value`, with the result so far: the last argument of a name is the one that counts.
  unfoldable pub up_find_value : List (Bytes × Value f) → Bytes → Bytes → Bytes
  up_find_value [] name result = result
  up_find_value ((k, v) ∷ args) name result =
      up_find_value args name (if bytes_eq k name then normalize_type f v else result)

  unfoldable pub update_args : List (Bytes × Value f) → Bytes → List Member → Bytes
  update_args args sql [] = sql
  update_args args sql (m ∷ ms) =
      let res = up_find_value args m.display_name [] in
      update_args args (if length res == 0 then sql else sql ++ assignment m.column.name res) ms

  -- An argument for no member is held back by an `assert` alone.
  unfoldable pub update : Database → Table → List Member → Bytes → List (Bytes × Value f) → Ran Bool
  update db t ms cond args =
      exec_commit db (update_statement (update_args args (update_text t) ms) cond) (λ answer. true)

  -- `boost::lexical_cast`, outside the repository; `none` is its exception.
  module _ (lexical_cast : MemberType → Bytes → Option (Value f)) where
    unfoldable pub update_data : StringMap → Bytes → List Member → Option Bytes
    update_data fields sql [] = some sql
    update_data fields sql (m ∷ ms) = elim (lookup m.display_name fields) [
      | none ↦ update_data fields sql ms
      | some text ↦ elim (lexical_cast m.value_type text) [
        | none ↦ none
        | some v ↦ update_data fields (sql ++ assignment m.column.name (normalize_type f v)) ms
      ]
    ]

    unfoldable pub update_from : Database → Table → List Member → Bytes → StringMap → Ran Bool
    update_from db t ms cond fields = elim (update_data fields (update_text t) ms) [
      | none ↦ record { commands = []; result = none }
      | some sql ↦ exec_commit db (update_statement sql cond) (λ answer. true)
    ]
