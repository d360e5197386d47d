-- ===== src/Orm/Update/Statement.antt =====
-- The statement of an update, from its assignments.
use webcrown.Base.{
  ℕ, ◌-◌, ◌≡◌, ap, ◌∙◌, sym, List, [], ◌∷◌, ◌++◌, append_assoc, append-nil, Bytes, codes, length,
  take, length-append, arith, intercalate, take-length_append,
}
use webcrown.Orm.Schema.{Table}
use webcrown.Orm.Query.{update_text}
use webcrown.Orm.Update.{update_statement}

-- Each text with a comma behind it.
abbrev pub ended : List Bytes → Bytes
ended [] = []
ended (x ∷ xs) = (x ++ codes ",") ++ ended xs

ended_lem :
    (x : Bytes) (xs : List Bytes) → ended (x ∷ xs) ≡ intercalate (codes ",") (x ∷ xs) ++ codes ","
ended_lem x [] = rw (append-nil, append-nil)
ended_lem x (y ∷ ys) =
    append_assoc x (codes ",") (ended (y ∷ ys))
    ∙ ap (λ (u : Bytes). x ++ (b',' ∷ u)) (ended_lem y ys)
    ∙ sym (append_assoc x (codes "," ++ intercalate (codes ",") (y ∷ ys)) (codes ","))

-- A text without its last character.
take_but_last : (s : Bytes) (c : ℕ) → take (length (s ++ c ∷ []) - 1) (s ++ c ∷ []) ≡ s
take_but_last s c =
    let size = length-append s (c ∷ []) in
    let n : length (s ++ c ∷ []) - 1 ≡ length s = omega (arith, size) in
    rw n (take-length_append s (c ∷ []))

-- The statement with the assignments, and the one without any, which no database takes.
abbrev pub update_with : Table → List Bytes → Bytes → Bytes
update_with t [] cond = (codes "UPDATE " ++ (t.name ++ codes " SET")) ++ (codes " " ++ cond)
update_with t (x ∷ xs) cond =
    ((codes "UPDATE " ++ (t.name ++ codes " SET ")) ++ intercalate (codes ",") (x ∷ xs))
    ++ (codes " " ++ cond)

last_off :
    (sql s : Bytes) (c : ℕ) (cond : Bytes)
    → sql ≡ s ++ c ∷ []
    → update_statement sql cond ≡ s ++ (codes " " ++ cond)
unfolding update_statement
last_off sql s c cond e = rw (e, take_but_last s c)

pub update_statement_lem :
    (t : Table) (items : List Bytes) (cond : Bytes)
    → update_statement (update_text t ++ ended items) cond ≡ update_with t items cond
unfolding update_text
update_statement_lem t [] cond =
    let front = codes "UPDATE " ++ (t.name ++ codes " SET") in
    let all : (codes "UPDATE " ++ (t.name ++ codes " SET ")) ++ [] ≡ front ++ codes " " =
      append-nil _
      ∙ ap (λ (u : Bytes). codes "UPDATE " ++ u)
          (sym (append_assoc t.name (codes " SET") (codes " "))) in
    last_off _ front b' ' cond all
update_statement_lem t (x ∷ xs) cond =
    let front = codes "UPDATE " ++ (t.name ++ codes " SET ") in
    let items = intercalate (codes ",") (x ∷ xs) in
    let all : front ++ ended (x ∷ xs) ≡ (front ++ items) ++ codes "," =
      ap (λ (u : Bytes). front ++ u) (ended_lem x xs)
      ∙ sym (append_assoc front items (codes ",")) in
    last_off _ (front ++ items) b',' cond all
