-- ===== src/Base/Text.antt =====
-- Byte strings (`std::string`, `std::string_view`): lists of unsigned byte values.
use Prim.Native.Nat.{ℕ, suc}
use Prim.Native.Char.{code}
use Prim.Native.String.{String}
use mathlib.Core.Path.{◌≡◌, refl}
use mathlib.Core.Logic.{◌↔◌}
use mathlib.Core.Bool.{Bool, true, false, ◌&&◌}
use mathlib.Core.Option.{Option, none, some}
use mathlib.Core.List.{List, [], ◌∷◌, ◌++◌}
use native.Mathlib.Omega.{arith}
use webcrown.Base.Tests.{◌==◌, if◌then◌else◌}

abbrev pub Bytes : Type 0
Bytes = List ℕ

-- A literal's bytes; every literal used is ASCII.
abbrev pub codes : String → Bytes
codes String.[] = []
codes (String.◌∷◌ c s) = code c ∷ codes s

unfoldable pub bytes_eq : Bytes → Bytes → Bool
bytes_eq [] [] = true
bytes_eq [] (y ∷ ys) = false
bytes_eq (x ∷ xs) [] = false
bytes_eq (x ∷ xs) (y ∷ ys) = x == y && bytes_eq xs ys

pub bytes_eq_refl : (xs : Bytes) → bytes_eq xs xs ≡ true
unfolding bytes_eq
bytes_eq_refl [] = refl
bytes_eq_refl (x ∷ xs) = ground (arith, bytes_eq_refl xs)

pub eq_of_bytes_eq : (xs ys : Bytes) → bytes_eq xs ys ≡ true → xs ≡ ys
unfolding bytes_eq
eq_of_bytes_eq [] [] h = refl
eq_of_bytes_eq [] (y ∷ ys) h = cc
eq_of_bytes_eq (x ∷ xs) [] h = cc
eq_of_bytes_eq (x ∷ xs) (y ∷ ys) h = ground (arith, eq_of_bytes_eq xs ys)

pub bytes_eq_iff : (xs ys : Bytes) → (bytes_eq xs ys ≡ true) ↔ (xs ≡ ys)
bytes_eq_iff xs ys = (eq_of_bytes_eq xs ys, λ e. rw e (bytes_eq_refl ys))

-- `std::string::compare` of a prefix, as `starts_with` and `find` use it.
unfoldable pub is_prefix : Bytes → Bytes → Bool
is_prefix [] s = true
is_prefix (x ∷ xs) [] = false
is_prefix (x ∷ xs) (y ∷ ys) = x == y && is_prefix xs ys

pub is_prefix-append : (xs ys : Bytes) → is_prefix xs (xs ++ ys) ≡ true
unfolding is_prefix
is_prefix-append [] ys = refl
is_prefix-append (x ∷ xs) ys = ground (arith, is_prefix-append xs ys)

pub is_prefix_split : (xs ys : Bytes) → is_prefix xs ys ≡ true → (zs : Bytes) × (ys ≡ xs ++ zs)
unfolding is_prefix
is_prefix_split [] ys h = (ys, refl)
is_prefix_split (x ∷ xs) [] h = cc
is_prefix_split (x ∷ xs) (y ∷ ys) h =
    let (zs, e) = is_prefix_split xs ys (ground arith) in (zs, ground arith)

-- `std::string::find(needle)`: the index of the first occurrence, `none` for `npos`.
unfoldable pub find_from : Bytes → Bytes → ℕ → Option ℕ
unfolding is_prefix
find_from needle [] i = if is_prefix needle [] then some i else none
find_from needle (c ∷ s) i = if is_prefix needle (c ∷ s) then some i else find_from needle s (suc i)

unfoldable pub find : Bytes → Bytes → Option ℕ
unfolding find_from
find needle s = find_from needle s 0
