-- ===== src/Cstdlib/Laws.antt =====
-- `std::atoi` reads back what `std::to_string` writes.
use webcrown.Base.{
  ℕ, zero, suc, ◌+◌, ◌-◌, ◌*◌, ◌/◌, ◌%◌, ◌<◌, ◌≡◌, refl, [], ◌∷◌, ◌++◌, append_assoc, append-nil,
  Bytes, length, arith, ltb, Bool-cases, inl, inr, true, ap, ◌∙◌, pos,
}
use webcrown.CharClass.{is_digit, isspace}
use webcrown.Cstdlib.{atoi, to_string, decimal, digits_value, signed_value, skip_spaces}

is_digit_lem : (d : ℕ) → d < 10 → is_digit (b'0' + d) ≡ true
unfolding is_digit
is_digit_lem d lt = let e : (b'0' + d + 256 - b'0') % 256 ≡ d = omega arith in rw e (ground arith)

digits_value_step :
    (acc d : ℕ) (t : Bytes)
    → d < 10
    → digits_value acc ((b'0' + d) ∷ t) ≡ digits_value (10 * acc + d) t
unfolding digits_value
digits_value_step acc d t lt =
    let e : b'0' + d - b'0' ≡ d = omega arith in
    let digit : is_digit (b'0' + d) ≡ true = is_digit_lem d lt in rw (digit, e)

digits_value-decimal :
    (f n : ℕ) (t : Bytes) → n < f → digits_value 0 (decimal f n ++ t) ≡ digits_value n t
unfolding decimal
digits_value-decimal zero n t lt = absurd (omega arith)
digits_value-decimal (suc f) n t lt = elim (Bool-cases (ltb n 10)) [
  | inl e ↦
      let z : 10 * 0 + n ≡ n = omega arith in
      rw e (digits_value_step 0 n t (ground arith) ∙ ap (λ (m : ℕ). digits_value m t) z)
  | inr e ↦
      let z : 10 * (n / 10) + n % 10 ≡ n = omega arith in
      let less : n / 10 < f = ground arith in
      rw (e, append_assoc)
        (digits_value-decimal f (n / 10) ((b'0' + n % 10) ∷ t) less
          ∙ digits_value_step (n / 10) (n % 10) t (omega arith)
          ∙ ap (λ (m : ℕ). digits_value m t) z)
]

-- The text begins with a digit.
decimal_head : (f n : ℕ) → n < f → (d : ℕ) × (r : Bytes) × (d < 10) × (decimal f n ≡ (b'0' + d) ∷ r)
unfolding decimal
decimal_head zero n lt = absurd (omega arith)
decimal_head (suc f) n lt = elim (Bool-cases (ltb n 10)) [
  | inl e ↦ (n, [], ground arith, rw e)
  | inr e ↦
      let (d, r, l, h) = decimal_head f (n / 10) (ground arith) in
      (d, r ++ (b'0' + n % 10) ∷ [], l, rw (e, h))
]

atoi_digits :
    (d : ℕ) (r : Bytes) → d < 10 → atoi ((b'0' + d) ∷ r) ≡ pos (digits_value 0 ((b'0' + d) ∷ r))
unfolding atoi skip_spaces isspace signed_value
atoi_digits d r lt = ground arith

-- A number has a digit.
pub length-to_string : (n : ℕ) → 0 < length (to_string n)
unfolding to_string
length-to_string n =
    let (d, r, bound, e) = decimal_head (n + 1) n (omega arith) in rw e (omega arith)

digits_value-nil : (n : ℕ) → digits_value n [] ≡ n
unfolding digits_value
digits_value-nil n = refl

pub atoi-to_string : (n : ℕ) → atoi (to_string n) ≡ pos n
unfolding to_string
atoi-to_string n =
    let (d, r, l, h) = decimal_head (n + 1) n (omega arith) in
    let v = digits_value-decimal (n + 1) n [] (omega arith) in
    let whole = append-nil (decimal (n + 1) n) in
    rw h (atoi_digits d r l ∙ rw (← h, ← whole, v) (ap pos (digits_value-nil n)))
