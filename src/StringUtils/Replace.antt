-- ===== src/StringUtils/Replace.antt =====
-- `replace_all` against a direct definition, and its rounds.
use webcrown.Base.{
  ℕ, zero, suc, ◌+◌, ◌-◌, ◌≤◌, ◌<◌, ◌≡◌, refl, sym, ap, ◌∙◌, [], ◌∷◌, ◌++◌, append_assoc, Bytes,
  Bool, true, false, ◌||◌, Option, none, some, ltb, length, length-append, take, drop, drop_add,
  take-append-drop, length-drop, take-length_append, drop-length_append, is_prefix, is_prefix_split,
  find_from, Bool-cases, Option-cases, inl, inr, arith,
}
use webcrown.StringUtils.{find_at, replace_loop, replace_all}

is_prefix_nil : (sub : Bytes) → 0 < length sub → is_prefix sub [] ≡ false
unfolding is_prefix
is_prefix_nil [] lt = elim lt [ ]
is_prefix_nil (c ∷ sub) lt = refl

-- What is left of a text that begins a longer one, behind its first character.
tail_of :
    (sub s behind : Bytes) (c : ℕ)
    → 0 < length sub
    → c ∷ s ≡ sub ++ behind
    → (t : Bytes) × (s ≡ t ++ behind) × (length t ≡ length sub - 1)
tail_of [] s behind c lt e = elim lt [ ]
tail_of (x ∷ sub) s behind c lt e = (sub, cc e, omega arith)

module _ (substr with : Bytes) where
  -- The text with each occurrence replaced, from the left; the first number is how many characters
  -- of an occurrence are still to be passed over.
  unfoldable pub replaced : ℕ → Bytes → Bytes
  unfolding is_prefix
  replaced k [] = []
  replaced (suc k) (c ∷ s) = replaced k s
  replaced zero (c ∷ s) = elim (is_prefix substr (c ∷ s)) [
    | true ↦ with ++ replaced (length substr - 1) s
    | false ↦ c ∷ replaced zero s
  ]

  unfoldable pub occurs : Bytes → Bool
  unfolding is_prefix
  occurs [] = false
  occurs (c ∷ s) = is_prefix substr (c ∷ s) || occurs s

  replaced_skip : (s t : Bytes) → replaced (length s) (s ++ t) ≡ replaced zero t
  unfolding replaced
  replaced_skip [] t = refl
  replaced_skip (c ∷ s) t = replaced_skip s t

  -- The first occurrence, with what stands in front of it and behind it.
  pub record First (s : Bytes) (i j : ℕ) : Type 0 where
    pub front : Bytes
    pub behind : Bytes
    pub text : s ≡ front ++ (substr ++ behind)
    pub index : j ≡ i + length front
    pub result : replaced zero s ≡ front ++ (with ++ replaced zero behind)
    pub found : occurs s ≡ true

  module _ (some_text : 0 < length substr) where
    find_from-First : (s : Bytes) (i j : ℕ) → find_from substr s i ≡ some j → First s i j
    unfolding find_from replaced occurs
    find_from-First [] i j e = cc (rw (is_prefix_nil substr some_text, find_from) at e)
    find_from-First (c ∷ s) i j e = elim (Bool-cases (is_prefix substr (c ∷ s))) [
      | inl h ↦
          let (behind, text) = is_prefix_split substr (c ∷ s) h in
          let (t, rest, size) = tail_of substr s behind c some_text text in
          let same : some i ≡ some j = rw (h, find_from) at e in
          record {
            front = [];
            behind = behind;
            text = text;
            index = let here : i ≡ j = cc same in omega (arith, here);
            result =
                rw (h, replaced)
                  (ap (λ (u : Bytes). with ++ u) (rw (rest, ← size) (replaced_skip t behind)));
            found = rw (h, occurs);
          }
      | inr h ↦
          let later = find_from-First s (suc i) j (rw (h, find_from) at e) in
          record {
            front = c ∷ later.front;
            behind = later.behind;
            text = ap (λ (u : Bytes). c ∷ u) later.text;
            index = omega (arith, later.index);
            result = rw (h, replaced) (ap (λ (u : Bytes). c ∷ u) later.result);
            found = rw (h, occurs) later.found;
          }
    ]

    find_from_none :
        (s : Bytes) (i : ℕ)
        → find_from substr s i ≡ none
        → (replaced zero s ≡ s) × (occurs s ≡ false)
    unfolding find_from replaced occurs
    find_from_none [] i e = (refl, refl)
    find_from_none (c ∷ s) i e = elim (Bool-cases (is_prefix substr (c ∷ s))) [
      | inl h ↦ cc (rw (h, find_from) at e)
      | inr h ↦
          let (same, absent) = find_from_none s (suc i) (rw (h, find_from) at e) in
          (rw (h, replaced) (ap (λ (u : Bytes). c ∷ u) same), rw (h, occurs) absent)
    ]

    -- The text that a round makes.
    round_text :
        (done front behind : Bytes)
        → take (length done + length front) (done ++ (front ++ (substr ++ behind)))
            ++ (with
                ++ drop
                    (length done + length front + length substr)
                    (done ++ (front ++ (substr ++ behind))))
          ≡ (done ++ (front ++ with)) ++ behind
    round_text done front behind =
        let whole : done ++ (front ++ (substr ++ behind)) ≡ (done ++ front) ++ (substr ++ behind) =
          sym (append_assoc done front (substr ++ behind)) in
        let size : length done + length front ≡ length (done ++ front) =
          sym (length-append done front) in
        rw
          (
            whole,
            size,
            take-length_append (done ++ front) (substr ++ behind),
            ← drop_add (length (done ++ front)) (length substr)
                ((done ++ front) ++ (substr ++ behind)),
            drop-length_append (done ++ front) (substr ++ behind),
            drop-length_append substr behind,
          )
          (simp append_assoc)

    round_at :
        (done front behind rest : Bytes) (j : ℕ)
        → rest ≡ front ++ (substr ++ behind)
        → j ≡ length done + length front
        → take j (done ++ rest) ++ (with ++ drop (j + length substr) (done ++ rest))
          ≡ (done ++ (front ++ with)) ++ behind
    round_at done front behind rest j text index = rw (text, index) (round_text done front behind)

    round_result :
        (done front rest : Bytes) (result : Bool)
        → ◌≡◌ {A = Option (Bytes × Bool)}
            (some ((done ++ (front ++ with)) ++ rest, true))
            (some (done ++ (front ++ (with ++ rest)), result || true))
    round_result done front rest true = simp append_assoc
    round_result done front rest false = simp append_assoc

    replace_loop_lem :
        (n : ℕ) (done rest : Bytes) (result : Bool)
        → length rest < n
        → replace_loop substr with n (done ++ rest) (length done) result
          ≡ some (done ++ replaced zero rest, result || occurs rest)
    unfolding replace_loop find_at
    replace_loop_lem zero done rest result lt = absurd (omega arith)
    replace_loop_lem (suc n) done rest result lt =
        let inside : ltb (length (done ++ rest)) (length done) ≡ false =
          ground (arith, length-append done rest) in
        elim (Option-cases (find_from substr rest (length done))) [
          | inl e ↦
              let (same, absent) = find_from_none rest (length done) e in
              rw (inside, replace_loop, drop-length_append done rest, e, same, absent)
                (ground arith)
          | inr (j, e) ↦
              let first = find_from-First rest (length done) j e in
              let front = first.front in
              let behind = first.behind in
              let done' = done ++ (front ++ with) in
              let index = first.index in
              let at : j + length with ≡ length done' =
                omega (arith, length-append done (front ++ with), length-append front with) in
              let shorter : length behind < n = omega (
                arith,
                ap length first.text,
                length-append front (substr ++ behind),
                length-append substr behind,
              ) in
              let result' = first.result in
              let found = first.found in
              rw
                (
                  inside,
                  replace_loop,
                  drop-length_append done rest,
                  e,
                  round_at done front behind rest j first.text index,
                  at,
                  replace_loop_lem n done' behind true shorter,
                  result',
                  found,
                )
                (round_result done front (replaced zero behind) result)
        ]

find_empty : (s : Bytes) (i : ℕ) → find_from [] s i ≡ some i
unfolding find_from is_prefix
find_empty [] i = refl
find_empty (c ∷ s) i = refl

endless :
    (with : Bytes) (n pos : ℕ) (str : Bytes) (result : Bool)
    → pos ≤ length str
    → replace_loop [] with n str pos result ≡ none
unfolding replace_loop find_at
endless with zero pos str result le = refl
endless with (suc n) pos str result le =
    let inside : ltb (length str) pos ≡ false = ground arith in
    let str' = take pos str ++ (with ++ drop (pos + 0) str) in
    let le' : pos + length with ≤ length str' = omega (
      arith,
      length-append (take pos str) (with ++ drop (pos + 0) str),
      length-append with (drop (pos + 0) str),
      length-append (take pos str) (drop pos str),
      ap length (take-append-drop pos str),
      length-drop pos str,
    ) in
    rw (inside, replace_loop, find_empty (drop pos str) pos)
      (endless with n (pos + length with) str' true le')

-- `replace_all` of a text that is not empty ends, with a round for each character and one more, and
-- gives the text with each occurrence replaced, from the left and without overlaps, and whether
-- there was one; what was put in is not looked at again. More rounds give the same. For the empty
-- text the loop never ends, whatever the rounds.
pub replace_all-replaced :
    (str substr with : Bytes) (n : ℕ)
    → 0 < length substr
    → length str < n
    → (replace_all str substr with ≡ some (replaced substr with 0 str, occurs substr with str))
      × (replace_loop substr with n str 0 false ≡ replace_all str substr with)
      × (replace_loop [] with n str 0 false ≡ none)
unfolding replace_all
replace_all-replaced str substr with n some_text enough = (
  replace_loop_lem substr with some_text (length str + 1) [] str false (omega arith),
  replace_loop_lem substr with some_text n [] str false enough
      ∙ sym (replace_loop_lem substr with some_text (length str + 1) [] str false (omega arith)),
  endless with n 0 str false (omega arith),
)
