-- ===== src/Orm/Value/Laws.antt =====
-- What a database reads of the texts that `normalize_type` writes.
use webcrown.Base.{
  ℕ, ◌≡◌, ◌≢◌, refl, [], ◌∷◌, ◌++◌, append_assoc, Bytes, codes, ◌==◌, if◌then◌else◌, Option, none,
  some, arith,
}
use webcrown.StringUtils.Laws.{Lacks}
use webcrown.Orm.Value.{Formats, string, normalize_type}

-- A literal of SQL behind its opening quote: its text up to the closing one, and what follows. Two
-- quotes stand for one. `none` is a literal that is not closed.
abbrev and_before : ℕ → Option (Bytes × Bytes) → Option (Bytes × Bytes)
and_before c none = none
and_before c (some (s, rest)) = some (c ∷ s, rest)

unfoldable pub literal_rest : Bytes → Option (Bytes × Bytes)
literal_rest [] = none
literal_rest (c ∷ []) = if c == b'\'' then some ([], []) else none
literal_rest (c ∷ d ∷ s) =
    let longer = and_before c (literal_rest (d ∷ s)) in
    let quoted = and_before c (literal_rest s) in
    if c == b'\'' then if d == b'\'' then quoted else some ([], d ∷ s) else longer

-- A literal with its opening quote.
unfoldable pub read_literal : Bytes → Option (Bytes × Bytes)
unfolding literal_rest
read_literal [] = none
read_literal (c ∷ s) = if c == b'\'' then literal_rest s else none

-- The text does not begin with a quote.
abbrev pub Unquoted : Bytes → Type 0
Unquoted [] = Unit {0}
Unquoted (c ∷ s) = c ≢ b'\''

literal_rest-append :
    (v rest : Bytes)
    → Lacks b'\'' v
    → Unquoted rest
    → literal_rest (v ++ (b'\'' ∷ rest)) ≡ some (v, rest)
unfolding literal_rest
literal_rest-append [] [] h u = refl
literal_rest-append [] (d ∷ rest) h u = ground arith
literal_rest-append (c ∷ []) rest h u = ground (arith, literal_rest-append [] rest h.1 u)
literal_rest-append (c ∷ d ∷ v) rest h u = ground (arith, literal_rest-append (d ∷ v) rest h.1 u)

-- A text without a quote is written as a literal that a database reads back whole, whatever
-- follows that does not begin with a quote. Of a text with a quote in it and another character
-- behind that quote, a database reads as the literal what stands in front of the first quote: all
-- behind it is a part of the statement.
pub read_literal-normalize_type :
    (f : Formats) (v inside rest : Bytes) (c : ℕ)
    → Lacks b'\'' v
    → Unquoted rest
    → c ≢ b'\''
    → (read_literal (normalize_type f (string v) ++ rest) ≡ some (v, rest))
      × (read_literal (normalize_type f (string (v ++ (b'\'' ∷ c ∷ inside))) ++ rest)
          ≡ some (v, c ∷ (inside ++ (b'\'' ∷ rest))))
unfolding normalize_type read_literal
read_literal-normalize_type f v inside rest c h u k =
    let broken : (v ++ (b'\'' ∷ c ∷ inside)) ++ codes "'" ++ rest
        ≡ v ++ (b'\'' ∷ c ∷ (inside ++ (b'\'' ∷ rest))) =
      rw (append_assoc, append_assoc) in
    (
      rw append_assoc (literal_rest-append v rest h u),
      rw broken (literal_rest-append v (c ∷ (inside ++ (b'\'' ∷ rest))) h k),
    )
