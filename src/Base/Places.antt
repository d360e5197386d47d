-- ===== src/Base/Places.antt =====
-- The bytes at the places of a text that is put together of two.
use Prim.Native.Nat.{ℕ, zero, suc, ◌+◌, ◌≤◌, ◌<◌}
use mathlib.Core.Path.{◌≡◌, refl, ap}
use mathlib.Core.List.{[], ◌∷◌, ◌++◌}
use native.Mathlib.Omega.{arith}
use webcrown.Base.Lists.{length, get_or, take, drop}
use webcrown.Base.Text.{Bytes}

pub take_behind : (s t : Bytes) (c : ℕ) → take (suc (length s)) (s ++ c ∷ t) ≡ s ++ c ∷ []
take_behind [] t c = refl
take_behind (x ∷ s) t c = ap (λ (u : Bytes). x ∷ u) (take_behind s t c)

pub drop_behind : (s t : Bytes) (c : ℕ) → drop (suc (length s)) (s ++ c ∷ t) ≡ t
drop_behind [] t c = refl
drop_behind (x ∷ s) t c = drop_behind s t c

pub drop_all : (n : ℕ) (s : Bytes) → length s ≤ n → drop n s ≡ []
drop_all zero [] h = refl
drop_all zero (c ∷ s) h = elim h [ ]
drop_all (suc n) [] h = refl
drop_all (suc n) (c ∷ s) h = drop_all n s (omega arith)

pub get_or-append_right : (s t : Bytes) (c : ℕ) → get_or (s ++ c ∷ t) (length s) 0 ≡ c
get_or-append_right [] t c = refl
get_or-append_right (x ∷ s) t c = get_or-append_right s t c

pub get_or-append_left : (s t : Bytes) (i : ℕ) → i < length s → get_or (s ++ t) i 0 ≡ get_or s i 0
get_or-append_left [] t i h = elim h [ ]
get_or-append_left (x ∷ s) t zero h = refl
get_or-append_left (x ∷ s) t (suc i) h = get_or-append_left s t i (omega arith)

pub get_or-append : (s t : Bytes) (i : ℕ) → get_or (s ++ t) (length s + i) 0 ≡ get_or t i 0
get_or-append [] t i = let e : 0 + i ≡ i = omega arith in rw e
get_or-append (c ∷ s) t i =
    let e : suc (length s) + i ≡ suc (length s + i) = omega arith in rw e (get_or-append s t i)

pub take-length : (s : Bytes) → take (length s) s ≡ s
take-length [] = refl
take-length (c ∷ s) = ap (λ (t : Bytes). c ∷ t) (take-length s)
