-- ===== src/Orm/Insert/Laws.antt =====
-- The whole statement of an insertion.
use webcrown.Base.{
  ℕ, suc, ◌+◌, ◌<◌, ◌≡◌, refl, sym, List, [], ◌∷◌, ◌++◌, append_assoc, append-nil, Bytes, codes,
  Bool, true, not, ◌&&◌, ltb, ◌==◌, ==_iff, length, if◌then◌else◌, drop, none, some, arith,
  prefixed, intercalate, Bool-cases, inl, inr,
}
use webcrown.Orm.Schema.{Table, Member, ColumnFlags, flag_ignore_insert, flag_primarykey, has_flag}
use webcrown.Orm.Query.{fields_to_insert, insert_fields, insert_text}
use webcrown.Orm.Value.{Formats, normalize_type}
use webcrown.Orm.Database.{Database, exec_commit}
use webcrown.Orm.Insert.{Object, members, insert_values, insert_row, insert_object}

-- The members whose names are written: neither `ignore_insert`, nor `primarykey` alone.
abbrev pub is_named : Member → Bool
is_named m =
    not (has_flag m.column.attribute flag_ignore_insert)
    && not (m.column.attribute == flag_primarykey)

-- The members whose values are written: neither of the two flags.
abbrev pub is_valued : Member → Bool
is_valued m =
    not (has_flag m.column.attribute flag_ignore_insert)
    && not (has_flag m.column.attribute flag_primarykey)

abbrev pub names : List Member → List Bytes
names [] = []
names (m ∷ ms) = if is_named m then m.column.name ∷ names ms else names ms

abbrev pub values : (f : Formats) → Object f → List Bytes
values f [] = []
values f ((m, v) ∷ o) = if is_valued m then normalize_type f v ∷ values f o else values f o

-- The members that have a name in the statement and no value.
abbrev pub only_named : List Member → ℕ
only_named [] = 0
only_named (m ∷ ms) = if is_named m && not (is_valued m) then suc (only_named ms) else only_named ms

append_item : (acc sep x rest : Bytes) → (acc ++ (sep ++ x)) ++ rest ≡ acc ++ (sep ++ (x ++ rest))
append_item acc sep x rest = rw (append_assoc, append_assoc)

insert_fields_lem :
    (acc : Bytes) (ms : List Member)
    → insert_fields acc ms ≡ acc ++ prefixed (codes ",\n\t ") (names ms)
unfolding insert_fields
insert_fields_lem acc [] = sym (append-nil acc)
insert_fields_lem acc (m ∷ ms) =
    let sep = codes ",\n\t " in
    let item = append_item acc sep m.column.name (prefixed sep (names ms)) in
    ground
      (arith, insert_fields_lem acc ms, insert_fields_lem (acc ++ (sep ++ m.column.name)) ms, item)

insert_values_lem :
    (f : Formats) (acc : Bytes) (o : Object f)
    → insert_values f acc o ≡ acc ++ prefixed (codes ",\n\t") (values f o)
unfolding insert_values
insert_values_lem f acc [] = sym (append-nil acc)
insert_values_lem f acc ((m, v) ∷ o) =
    let sep = codes ",\n\t" in
    let item = append_item acc sep (normalize_type f v) (prefixed sep (values f o)) in
    ground (
      arith,
      insert_values_lem f acc o,
      insert_values_lem f (acc ++ (sep ++ normalize_type f v)) o,
      item,
    )

flag_of_primarykey :
    (a : ColumnFlags) → (a == flag_primarykey) ≡ true → has_flag a flag_primarykey ≡ true
unfolding has_flag
flag_of_primarykey a e = let e' = (==_iff a 1).0 e in rw e'

length-names :
    (f : Formats) (o : Object f)
    → length (names (members f o)) ≡ length (values f o) + only_named (members f o)
length-names f [] = omega arith
length-names f ((m, v) ∷ o) =
    let ih = length-names f o in let pk = flag_of_primarykey m.column.attribute in ground arith

-- A member that is counted has a name and a value.
counted_values :
    (f : Formats) (n : ℕ) (o : Object f)
    → n < fields_to_insert n (members f o)
    → 0 < length (values f o)
unfolding fields_to_insert
counted_values f n [] lt = absurd (omega arith)
counted_values f n ((m, v) ∷ o) lt = ground (arith, counted_values f n o)

-- What stands behind the separator of the first name.
names_text :
    (ns : List Bytes)
    → 0 < length ns
    → drop 2 (prefixed (codes ",\n\t ") ns) ≡ codes "\t " ++ intercalate (codes ",\n\t ") ns
names_text [] lt = elim lt [ ]
names_text (n ∷ ns) lt = refl

-- The statement with the names and the values of an object.
unfoldable pub insert_statement : Table → List Bytes → List Bytes → Bytes
insert_statement t ns vs =
    (codes "INSERT INTO "
      ++ (t.name
          ++ (codes " (\n" ++ ((codes "\t " ++ intercalate (codes ",\n\t ") ns) ++ codes "\n) "))))
    ++ (codes "VALUES (" ++ ((codes "\n\t" ++ intercalate (codes ",\n\t") vs) ++ codes "\n);"))

insert_row_lem :
    (f : Formats) (db : Database) (front : Bytes) (vs : List Bytes)
    → 0 < length vs
    → insert_row f db front (prefixed (codes ",\n\t") vs)
      ≡ exec_commit db
          (front
            ++ (codes "VALUES ("
                ++ ((codes "\n\t" ++ intercalate (codes ",\n\t") vs) ++ codes "\n);")))
          (λ answer. not (answer.affected_rows == 0))
unfolding insert_row
insert_row_lem f db front [] lt = elim lt [ ]
insert_row_lem f db front (v ∷ vs) lt = ground arith

-- The statement of an insertion names the columns of the members without `ignore_insert` whose
-- flags are not `primarykey` alone, in the order of the members, and gives the values of the
-- members with neither flag, in the same order, each as `normalize_type` writes it. There are as
-- many names as values, and as many more as there are members with `primarykey` beside another
-- flag than `ignore_insert`. The type compiles if a member is left that has neither flag and is of
-- no `primarykey` type; no text is too short for `substr`.
pub insert_object_lem :
    (f : Formats) (db : Database) (t : Table) (o : Object f)
    → (insert_object f db t o ≡ (
        if ltb 0 (fields_to_insert 0 (members f o))
        then some (
            exec_commit db
              (insert_statement t (names (members f o)) (values f o))
              (λ answer. not (answer.affected_rows == 0)))
        else none))
      × (length (names (members f o)) ≡ length (values f o) + only_named (members f o))
unfolding insert_object insert_text insert_statement
insert_object_lem f db t o = (written, length-names f o)
  where
    written : insert_object f db t o ≡ (
        if ltb 0 (fields_to_insert 0 (members f o))
        then some (
            exec_commit db
              (insert_statement t (names (members f o)) (values f o))
              (λ answer. not (answer.affected_rows == 0)))
        else none)
    written = elim (Bool-cases (ltb 0 (fields_to_insert 0 (members f o)))) [
      | inr no_field ↦ rw (insert_object, no_field)
      | inl fields ↦
          let lt : 0 < fields_to_insert 0 (members f o) = ground arith in
          let some_value = counted_values f 0 o lt in
          let some_name : 0 < length (names (members f o)) =
            omega (arith, length-names f o, some_value) in
          rw (
            insert_object,
            fields,
            insert_values_lem f [] o,
            insert_row_lem f db _ (values f o) some_value,
            insert_fields_lem [] (members f o),
            names_text (names (members f o)) some_name,
          )
    ]
