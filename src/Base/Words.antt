-- ===== src/Base/Words.antt =====
-- Machine words and signed integers.
use Prim.Native.Nat.{ℕ, ◌+◌, ◌-◌, ◌%◌, ◌^◌}
use mathlib.Core.Path.{◌≡◌}
use native.Mathlib.Omega.{arith}
use mathlib.Core.Bool.{Bool, false}
use webcrown.Base.Tests.{ltb, if◌then◌else◌}

-- `negsuc n` is -(n + 1).
pub data ℤ : Type 0 where
  pos : ℕ → ℤ
  negsuc : ℕ → ℤ

abbrev pub size_t_mod : ℕ
size_t_mod = 2 ^ 64

-- `a + (b - c)` in `std::size_t`, where `b - c` is a pointer difference.
unfoldable pub add_delta : ℕ → ℕ → ℕ → ℕ
add_delta a b c = (a + b + (size_t_mod - c % size_t_mod)) % size_t_mod

-- The conversion of an `int` to `std::size_t`.
unfoldable pub to_size_t : ℤ → ℕ
to_size_t (ℤ.pos n) = n % size_t_mod
to_size_t (ℤ.negsuc n) = (size_t_mod - (n % size_t_mod) - 1) % size_t_mod

unfoldable pub is_positive : ℤ → Bool
is_positive (ℤ.pos n) = ltb 0 n
is_positive (ℤ.negsuc n) = false

-- The two parts of an integer, of which one is 0, and the integer of two numbers.
abbrev pub pos_part : ℤ → ℕ
pos_part (ℤ.pos n) = n
pos_part (ℤ.negsuc n) = 0

abbrev pub neg_part : ℤ → ℕ
neg_part (ℤ.pos n) = 0
neg_part (ℤ.negsuc n) = n + 1

abbrev pub difference : ℕ → ℕ → ℤ
difference a b = if ltb a b then ℤ.negsuc (b - a - 1) else ℤ.pos (a - b)

infixl 65 ◌+ℤ◌ ◌-ℤ◌
unfoldable pub ◌+ℤ◌ : ℤ → ℤ → ℤ
x +ℤ y = difference (pos_part x + pos_part y) (neg_part x + neg_part y)

unfoldable pub ◌-ℤ◌ : ℤ → ℤ → ℤ
x -ℤ y = difference (pos_part x + neg_part y) (neg_part x + pos_part y)

-- What the linear procedures are told of the two operations.
pub +ℤ_balance :
    (x y : ℤ)
    → pos_part (x +ℤ y) + (neg_part x + neg_part y) ≡ neg_part (x +ℤ y) + (pos_part x + pos_part y)
unfolding ◌+ℤ◌
+ℤ_balance x y = ground arith

pub -ℤ_balance :
    (x y : ℤ)
    → pos_part (x -ℤ y) + (neg_part x + pos_part y) ≡ neg_part (x -ℤ y) + (pos_part x + neg_part y)
unfolding ◌-ℤ◌
-ℤ_balance x y = ground arith

pub balanced : (x y : ℤ) → pos_part x + neg_part y ≡ pos_part y + neg_part x → x ≡ y
balanced x y h = ground arith
