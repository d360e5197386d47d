-- ===== src/Orm/Select/Laws.antt =====
-- One row and all rows of the same answer.
use webcrown.Base.{
  ◌≡◌, refl, ap, List, [], ◌∷◌, ◌++◌, Bytes, Option, none, some, Option-cases, inl, inr,
}
use webcrown.Orm.Schema.{Table, Member, MemberType}
use webcrown.Orm.Query.{select_text}
use webcrown.Orm.Value.{Formats, Value}
use webcrown.Orm.Database.{Database, Row, Response, Command, exec_rows}
use webcrown.Orm.Select.{
  read_value, read_member, read_row, read_value_many, read_member_many, read_object, read_first,
  read_all, select, select_many, map_option,
}

-- The first of some objects.
abbrev pub first {ℓ} : {A : Type ℓ} → List A → Option A
first [] = none
first (x ∷ xs) = some x

-- Each object is what its row gives, in the order of the rows.
abbrev pub ReadAs : (f : Formats) → List Member → List Row → List (List (Member × Value f)) → Type 0
ReadAs f ms [] [] = Unit {0}
ReadAs f ms (row ∷ rows) (o ∷ os) = (read_row f ms row ≡ some o) × ReadAs f ms rows os
ReadAs f ms [] (o ∷ os) = ⊥
ReadAs f ms (row ∷ rows) [] = ⊥

-- The two loops over the members, in `select` and in `select_many`, read alike.
module _ (f : Formats) (row : Row) where
  read_value_agree : (t : MemberType) (s : Bytes) → read_value_many f t s ≡ read_value f t s
  unfolding read_value_many read_value
  read_value_agree MemberType.int_ s = refl
  read_value_agree MemberType.long_ s = refl
  read_value_agree MemberType.short_ s = refl
  read_value_agree MemberType.bool_ s = refl
  read_value_agree MemberType.float_ s = refl
  read_value_agree MemberType.double_ s = refl
  read_value_agree MemberType.string s = refl
  read_value_agree MemberType.c_string s = refl
  read_value_agree MemberType.year_month_day s = refl
  read_value_agree MemberType.time_of_day s = refl
  read_value_agree MemberType.date_time s = refl
  read_value_agree MemberType.enum_ s = refl

  read_member_agree : (m : Member) → read_member_many f row m ≡ read_member f row m
  unfolding read_member_many read_member
  read_member_agree m = elim (Option-cases (row m.display_name)) [
    | inl e ↦ rw (read_member_many, read_member, e) refl
    | inr (none, e) ↦ rw (read_member_many, read_member, e) refl
    | inr (some s, e) ↦ rw (read_member_many, read_member, e) (read_value_agree m.value_type s)
  ]

  read_object_agree : (ms : List Member) → read_object f ms row ≡ read_row f ms row
  unfolding read_object read_row
  read_object_agree [] = refl
  read_object_agree (m ∷ ms) =
      let same = read_member_agree m in
      elim (Option-cases (read_member f row m)) [
        | inl e ↦ rw (read_object, same, read_row, e) refl
        | inr (v, e) ↦
            rw (read_object, same, read_row, e)
              (ap (map_option (λ o. (m, v) ∷ o)) (read_object_agree ms))
      ]

module _ (f : Formats) (ms : List Member) where
  read_all-ReadAs :
      (rows : List Row) (os : List (List (Member × Value f)))
      → read_all f ms rows ≡ some os
      → ReadAs f ms rows os
  unfolding read_all
  read_all-ReadAs [] [] e = tt
  read_all-ReadAs [] (o ∷ os) e = cc
  read_all-ReadAs (row ∷ rows) os e =
      let agree = read_object_agree f row ms in
      elim (Option-cases (read_row f ms row)) [
        | inl threw ↦ cc (rw (agree, threw, read_all) at e)
        | inr (o, h) ↦ elim (Option-cases (read_all f ms rows)) [
          | inl threw ↦ cc (rw (agree, h, threw, read_all) at e)
          | inr (os', h') ↦
              let same : o ∷ os' ≡ os = cc (rw (agree, h, h', read_all) at e) in
              rw (← same) (h, read_all-ReadAs rows os' h')
        ]
      ]

  read_first-first :
      (rows : List Row) (os : List (List (Member × Value f)))
      → ReadAs f ms rows os
      → read_first f ms rows ≡ some (first os)
  unfolding read_first
  read_first-first [] [] h = refl
  read_first-first (row ∷ rows) (o ∷ os) (h, hs) = rw h
  read_first-first [] (o ∷ os) h = elim h [ ]
  read_first-first (row ∷ rows) [] h = elim h [ ]

-- When `select_many` gives objects, they are the rows of the database's answer, each read by
-- itself, in their order; `select` with the same condition gives the first of them, or nothing
-- where there is none. Both send one and the same statement and commit nothing.
pub select-select_many :
    (f : Formats) (db : Database) (t : Table) (ms : List Member) (cond : Bytes)
    (os : List (List (Member × Value f)))
    → (select_many f db t ms cond).result ≡ some os
    → (answer : Response) × (db.exec (select_text t ++ cond) ≡ some answer)
      × ReadAs f ms answer.rows os
      × ((select f db t ms cond).result ≡ some (first os))
      × ((select f db t ms cond).commands ≡ Command.exec (select_text t ++ cond) ∷ [])
      × ((select_many f db t ms cond).commands ≡ Command.exec (select_text t ++ cond) ∷ [])
unfolding select select_many exec_rows
select-select_many f db t ms cond os e = elim (Option-cases (db.exec (select_text t ++ cond))) [
  | inl threw ↦ cc (rw (threw, exec_rows) at e)
  | inr (answer, h) ↦
      let rows : read_all f ms answer.rows ≡ some os = rw (h, exec_rows) at e in
      let each = read_all-ReadAs f ms answer.rows os rows in
      (
        answer,
        h,
        each,
        rw (h, exec_rows) (read_first-first f ms answer.rows os each),
        rw (h, exec_rows),
        rw (h, exec_rows),
      )
]
