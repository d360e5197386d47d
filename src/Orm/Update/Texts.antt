-- ===== src/Orm/Update/Texts.antt =====
-- The update from a map of texts.
use webcrown.Base.{
  Bool, StringMap, lookup, ◌≡◌, refl, ap, ◌∙◌, sym, List, [], ◌∷◌, ◌++◌, append_assoc, append-nil,
  Bytes, codes, true, Option, none, some, Option-cases, inl, inr,
}
use webcrown.Orm.Schema.{Table, Member, MemberType}
use webcrown.Orm.Query.{update_text}
use webcrown.Orm.Value.{Formats, Value, normalize_type}
use webcrown.Orm.Database.{Database, Ran, exec_commit}
use webcrown.Orm.Update.{assignment, update_data, update_from}
use webcrown.Orm.Update.Statement.{ended, update_with, update_statement_lem}

-- The assignments of an update from texts, each cast to its member's type; `none` if one is not.
module _ (f : Formats) (lexical_cast : MemberType → Bytes → Option (Value f)) where
  abbrev and_item : Bytes → Option (List Bytes) → Option (List Bytes)
  and_item x none = none
  and_item x (some xs) = some (x ∷ xs)

  abbrev pub cast_assignments : StringMap → List Member → Option (List Bytes)
  cast_assignments fields [] = some []
  cast_assignments fields (m ∷ ms) = elim (lookup m.display_name fields) [
    | none ↦ cast_assignments fields ms
    | some text ↦ elim (lexical_cast m.value_type text) [
      | none ↦ none
      | some v ↦
          and_item (codes "\n\t" ++ (m.column.name ++ (codes "=" ++ normalize_type f v)))
            (cast_assignments fields ms)
    ]
  ]

  abbrev ended_after : Bytes → Option (List Bytes) → Option Bytes
  ended_after sql none = none
  ended_after sql (some xs) = some (sql ++ ended xs)

  ended_after-and_item :
      (sql name value : Bytes) (xs : Option (List Bytes))
      → ended_after (sql ++ assignment name value) xs
        ≡ ended_after sql (and_item (codes "\n\t" ++ (name ++ (codes "=" ++ value))) xs)
  unfolding assignment
  ended_after-and_item sql name value none = refl
  ended_after-and_item sql name value (some xs) = ap some (simp append_assoc)

  update_data_lem :
      (fields : StringMap) (sql : Bytes) (ms : List Member)
      → update_data f lexical_cast fields sql ms ≡ ended_after sql (cast_assignments fields ms)
  unfolding update_data
  update_data_lem fields sql [] = ap some (sym (append-nil sql))
  update_data_lem fields sql (m ∷ ms) = elim (Option-cases (lookup m.display_name fields)) [
    | inl e ↦ rw (update_data, e, cast_assignments) (update_data_lem fields sql ms)
    | inr (text, e) ↦ elim (Option-cases (lexical_cast m.value_type text)) [
      | inl fails ↦ rw (update_data, e, fails, cast_assignments) refl
      | inr (v, c) ↦
          rw (update_data, e, c, cast_assignments)
            (update_data_lem fields (sql ++ assignment m.column.name (normalize_type f v)) ms
              ∙ ended_after-and_item sql m.column.name (normalize_type f v)
                  (cast_assignments fields ms))
    ]
  ]

-- One statement with the assignments, or an exception before any.
abbrev pub ran_with : Database → Table → Bytes → Option (List Bytes) → Ran Bool
ran_with db t cond none = record { commands = []; result = none }
ran_with db t cond (some items) = exec_commit db (update_with t items cond) (λ answer. true)

-- An update from texts sends no statement if one of the texts for its members cannot be cast to the
-- member's type, and else one, with an assignment for each member that has a text.
pub update_from_lem :
    (f : Formats) (lexical_cast : MemberType → Bytes → Option (Value f)) (db : Database) (t : Table)
    (ms : List Member) (cond : Bytes) (fields : StringMap)
    → update_from f lexical_cast db t ms cond fields
      ≡ ran_with db t cond (cast_assignments f lexical_cast fields ms)
unfolding update_from
update_from_lem f lexical_cast db t ms cond fields =
    elim (Option-cases (cast_assignments f lexical_cast fields ms)) [
      | inl e ↦
          rw (update_from, update_data_lem f lexical_cast fields (update_text t) ms, e, ran_with)
            refl
      | inr (items, e) ↦
          rw
            (
              update_from,
              update_data_lem f lexical_cast fields (update_text t) ms,
              e,
              ended_after,
              update_statement_lem t items cond,
            )
            refl
    ]
