-- ===== src/Orm/Update/Laws.antt =====
-- The whole statement of an update.
use webcrown.Base.{
  StringMap, ◌<◌, ◌≡◌, refl, ◌∙◌, sym, List, [], ◌∷◌, ◌++◌, append_assoc, append-nil, Bytes, codes,
  bytes_eq, true, false, ◌==◌, length, if◌then◌else◌, Option, none, some, arith, Option-cases, inl,
  inr, pos, negsuc,
}
use webcrown.Orm.Schema.{Table, Member, MemberType}
use webcrown.Orm.Query.{update_text}
use webcrown.Cstdlib.Laws.{length-to_string}
use webcrown.Orm.Value.{Formats, Value, to_string_int, bool_text, normalize_type}
use webcrown.Orm.Database.{Database, exec_commit}
use webcrown.Orm.Update.{assignment, up_find_value, update_args, update, update_from}
use webcrown.Orm.Update.Statement.{ended, update_with, update_statement_lem}
use webcrown.Orm.Update.Texts.{cast_assignments, ran_with, update_from_lem}

-- The value of the last argument of a name.
abbrev pub last_value : (f : Formats) → Bytes → List (Bytes × Value f) → Option (Value f)
last_value f name [] = none
last_value f name ((k, v) ∷ args) = elim (last_value f name args) [
  | some w ↦ some w
  | none ↦ if bytes_eq k name then some v else none
]

-- The assignments of the members that have an argument, in the order of the members.
abbrev pub assignments : (f : Formats) → List (Bytes × Value f) → List Member → List Bytes
assignments f args [] = []
assignments f args (m ∷ ms) = elim (last_value f m.display_name args) [
  | none ↦ assignments f args ms
  | some v ↦
      (codes "\n\t" ++ (m.column.name ++ (codes "=" ++ normalize_type f v))) ∷ assignments f args ms
]

-- No value is written as the empty text, if the streams write none.
length-normalize_type :
    (f : Formats)
    → ((r : f.Real) → 0 < length (f.write_real r))
    → ((t : f.TimeOfDay) → 0 < length (f.write_time t))
    → (v : Value f) → 0 < length (normalize_type f v)
unfolding normalize_type to_string_int bool_text
length-normalize_type f reals times (Value.int_ (pos n)) = length-to_string n
length-normalize_type f reals times (Value.int_ (negsuc n)) = omega arith
length-normalize_type f reals times (Value.long_ (pos n)) = length-to_string n
length-normalize_type f reals times (Value.long_ (negsuc n)) = omega arith
length-normalize_type f reals times (Value.short_ (pos n)) = length-to_string n
length-normalize_type f reals times (Value.short_ (negsuc n)) = omega arith
length-normalize_type f reals times (Value.enum_ (pos n)) = length-to_string n
length-normalize_type f reals times (Value.enum_ (negsuc n)) = omega arith
length-normalize_type f reals times (Value.bool_ true) = omega arith
length-normalize_type f reals times (Value.bool_ false) = omega arith
length-normalize_type f reals times (Value.float_ r) = reals r
length-normalize_type f reals times (Value.double_ r) = reals r
length-normalize_type f reals times (Value.string s) = omega arith
length-normalize_type f reals times (Value.c_string none) = omega arith
length-normalize_type f reals times (Value.c_string (some s)) = omega arith
length-normalize_type f reals times (Value.year_month_day d) = omega arith
length-normalize_type f reals times (Value.time_of_day t) = times t
length-normalize_type f reals times (Value.date_time d) = omega arith

module _ (f : Formats) (written : (v : Value f) → 0 < length (normalize_type f v)) where
  up_find_value_lem :
      (args : List (Bytes × Value f)) (name result : Bytes)
      → up_find_value f args name result
        ≡ elim (last_value f name args) [ none ↦ result | some v ↦ normalize_type f v ]
  unfolding up_find_value
  up_find_value_lem [] name result = refl
  up_find_value_lem ((k, v) ∷ args) name result =
      ground (
        arith,
        up_find_value_lem args name result,
        up_find_value_lem args name (normalize_type f v),
      )

  update_args_lem :
      (args : List (Bytes × Value f)) (sql : Bytes) (ms : List Member)
      → update_args f args sql ms ≡ sql ++ ended (assignments f args ms)
  unfolding update_args assignment
  update_args_lem args sql [] = sym (append-nil sql)
  update_args_lem args sql (m ∷ ms) = elim (Option-cases (last_value f m.display_name args)) [
    | inl e ↦
        let u : up_find_value f args m.display_name [] ≡ [] =
          rw (up_find_value_lem args m.display_name [], e) in
        rw (u, assignments, e) (update_args_lem args sql ms)
    | inr (v, e) ↦
        let value = normalize_type f v in
        let u : up_find_value f args m.display_name [] ≡ value =
          rw (up_find_value_lem args m.display_name [], e) in
        let some_text = written v in
        let full : (length value == 0) ≡ false = ground arith in
        let item = codes "\n\t" ++ (m.column.name ++ (codes "=" ++ value)) in
        rw (u, full, assignments, e)
          (update_args_lem args (sql ++ assignment m.column.name value) ms ∙ simp append_assoc)
  ]

-- An update sends one statement and commits it: the columns of the members that have an argument
-- of their name, in the order of the members, each set to the text of the last such argument, with
-- a comma between them, and the condition. Where no argument names a member the statement has a
-- `SET` with nothing behind it. The streams write no real number and no time of day as the empty
-- text. An update from texts sends no statement if one of the texts for its members cannot be cast
-- to the member's type, and else one, with an assignment for each member that has a text.
pub update_lem :
    (f : Formats) (lexical_cast : MemberType → Bytes → Option (Value f)) (db : Database) (t : Table)
    (ms : List Member) (cond : Bytes) (args : List (Bytes × Value f)) (fields : StringMap)
    → ((r : f.Real) → 0 < length (f.write_real r))
    → ((t : f.TimeOfDay) → 0 < length (f.write_time t))
    → (update f db t ms cond args
        ≡ exec_commit db (update_with t (assignments f args ms) cond) (λ answer. true))
      × (update_from f lexical_cast db t ms cond fields
          ≡ ran_with db t cond (cast_assignments f lexical_cast fields ms))
unfolding update
update_lem f lexical_cast db t ms cond args fields reals times = (
  rw (
    update_args_lem f (length-normalize_type f reals times) args (update_text t) ms,
    update_statement_lem t (assignments f args ms) cond,
  ),
  update_from_lem f lexical_cast db t ms cond fields,
)
