-- ===== src/Base/Lists.antt =====
-- Lists measured and indexed by native numbers, under the library's names.
use Prim.Native.Nat.{ℕ, zero, suc, ◌+◌, ◌-◌}
use mathlib.Core.Path.{◌≡◌, refl, ap}
use mathlib.Core.List.{List, [], ◌∷◌, ◌++◌}
use mathlib.Core.Bool.{Bool, true}
use native.Mathlib.Omega.{arith}

module _ {ℓ} {A : Type ℓ} where
  abbrev pub length : List A → ℕ
  length [] = 0
  length (x ∷ xs) = suc (length xs)

  abbrev pub get_or : List A → ℕ → A → A
  get_or [] i d = d
  get_or (x ∷ xs) zero d = x
  get_or (x ∷ xs) (suc i) d = get_or xs i d

  abbrev pub take : ℕ → List A → List A
  take zero xs = []
  take (suc n) [] = []
  take (suc n) (x ∷ xs) = x ∷ take n xs

  abbrev pub drop : ℕ → List A → List A
  drop zero xs = xs
  drop (suc n) [] = []
  drop (suc n) (x ∷ xs) = drop n xs

  pub length-append : (xs ys : List A) → length (xs ++ ys) ≡ length xs + length ys
  length-append [] ys = omega arith
  length-append (x ∷ xs) ys = omega (arith, length-append xs ys)

  pub take-append-drop : (n : ℕ) (xs : List A) → take n xs ++ drop n xs ≡ xs
  take-append-drop zero xs = refl
  take-append-drop (suc n) [] = refl
  take-append-drop (suc n) (x ∷ xs) = ap (λ (t : List A). x ∷ t) (take-append-drop n xs)

  pub length-drop : (n : ℕ) (xs : List A) → length (drop n xs) ≡ length xs - n
  length-drop zero xs = omega arith
  length-drop (suc n) [] = omega arith
  length-drop (suc n) (x ∷ xs) = omega (arith, length-drop n xs)

  pub drop-length_append : (xs ys : List A) → drop (length xs) (xs ++ ys) ≡ ys
  drop-length_append [] ys = refl
  drop-length_append (x ∷ xs) ys = drop-length_append xs ys

  pub take-length_append : (xs ys : List A) → take (length xs) (xs ++ ys) ≡ xs
  take-length_append [] ys = refl
  take-length_append (x ∷ xs) ys = ap (λ (t : List A). x ∷ t) (take-length_append xs ys)

  pub drop_add : (m n : ℕ) (s : List A) → drop n (drop m s) ≡ drop (m + n) s
  drop_add zero n s = let e : 0 + n ≡ n = omega arith in rw e
  drop_add (suc m) zero [] = let e : suc m + 0 ≡ suc m = omega arith in rw e
  drop_add (suc m) (suc n) [] = let e : suc m + suc n ≡ suc (m + suc n) = omega arith in rw e
  drop_add (suc m) n (c ∷ s) =
      let e : suc m + n ≡ suc (m + n) = omega arith in rw e (drop_add m n s)

  pub drop-length : (s : List A) → drop (length s) s ≡ []
  drop-length [] = refl
  drop-length (c ∷ s) = drop-length s

  -- Each list with a separator in front.
  abbrev pub prefixed : List A → List (List A) → List A
  prefixed sep [] = []
  prefixed sep (x ∷ xs) = sep ++ (x ++ prefixed sep xs)

  -- The lists with a separator between them.
  abbrev pub intercalate : List A → List (List A) → List A
  intercalate sep [] = []
  intercalate sep (x ∷ xs) = x ++ prefixed sep xs

  -- A test that every element passes.
  abbrev pub AllPass : (A → Bool) → List A → Type 0
  AllPass p [] = Unit
  AllPass p (x ∷ xs) = (p x ≡ true) × AllPass p xs
