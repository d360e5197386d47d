-- ===== src/Cstdlib.antt =====
-- `std::atoi` of <cstdlib>: blanks, a sign, digits. The source calls it on header values; a value
-- that an `int` does not hold is undefined there, and is read as the number itself here.
pub mod Laws
use webcrown.Base.{
  ℕ, zero, suc, ◌+◌, ◌-◌, ◌*◌, ◌/◌, ◌%◌, [], ◌∷◌, ◌++◌, ltb, Bytes, ◌==◌, if◌then◌else◌, ℤ, pos,
  negsuc,
}
use webcrown.CharClass.{isspace, is_digit}

unfoldable pub skip_spaces : Bytes → Bytes
unfolding isspace
skip_spaces [] = []
skip_spaces (c ∷ s) = if isspace c then skip_spaces s else c ∷ s

-- The digits at the head, after the number read so far.
unfoldable pub digits_value : ℕ → Bytes → ℕ
unfolding is_digit
digits_value acc [] = acc
digits_value acc (c ∷ s) =
    let rest = digits_value (10 * acc + (c - b'0')) s in if is_digit c then rest else acc

unfoldable pub negate : ℕ → ℤ
negate n = if n == 0 then pos 0 else negsuc (n - 1)

unfoldable pub signed_value : Bytes → ℤ
unfolding digits_value negate
signed_value [] = pos 0
signed_value (c ∷ s) =
    if c == b'-'
    then negate (digits_value 0 s)
    else if c == b'+'
    then pos (digits_value 0 s)
    else pos (digits_value 0 (c ∷ s))

unfoldable pub atoi : Bytes → ℤ
unfolding skip_spaces signed_value
atoi s = signed_value (skip_spaces s)

-- `std::to_string` of an unsigned number: its decimal digits, on fuel for the number of them.
unfoldable pub decimal : ℕ → ℕ → Bytes
decimal zero n = []
decimal (suc f) n =
    let rest = decimal f (n / 10) in
    if ltb n 10 then (b'0' + n) ∷ [] else rest ++ (b'0' + n % 10) ∷ []

unfoldable pub to_string : ℕ → Bytes
unfolding decimal
to_string n = decimal (n + 1) n
