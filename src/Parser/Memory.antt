-- ===== src/Parser/Memory.antt =====
-- The memory that a parse reads: `mem i` is the byte at `buffer + i`. The source also reads at and
-- past `last`, where the memory holds what the session's receive buffer has left there, so every
-- address has some byte; no definition assumes what it is.
use webcrown.Base.{
  ℕ, zero, suc, ◌+◌, ◌-◌, ◌≡◌, refl, ap, sym, [], ◌∷◌, ◌++◌, Bytes, Option, none, some, arith,
  length, get_or, leb, if◌then◌else◌, ◌∙◌,
}

abbrev pub Memory : Type 0
Memory = ℕ → ℕ

-- The `n` bytes from `i` on.
unfoldable pub slice : Memory → ℕ → ℕ → Bytes
slice mem i zero = []
slice mem i (suc n) = mem i ∷ slice mem (suc i) n

-- `make_string(first, last)`; `none` is a view whose length `last - first` wraps around, since
-- `last` lies before `first`: making an `std::string` of it throws `std::length_error`.
unfoldable pub make_string : Memory → ℕ → ℕ → Option Bytes
unfolding slice
make_string mem first last = if leb first last then some (slice mem first (last - first)) else none

-- A memory that holds a text, and zeros behind it.
abbrev pub holding : Bytes → Memory
holding s i = get_or s i 0

-- The memory holds a text from an address on.
abbrev pub Holds : Memory → ℕ → Bytes → Type 0
Holds mem i [] = Unit {0}
Holds mem i (c ∷ s) = (mem i ≡ c) × Holds mem (suc i) s

pub Holds-append :
    (mem : Memory) (i j : ℕ) (s t : Bytes)
    → i + length s ≡ j
    → Holds mem i (s ++ t)
    → Holds mem i s × Holds mem j t
Holds-append mem i j [] t e h = let e' : i ≡ j = omega arith in (tt, rw (← e') h)
Holds-append mem i j (c ∷ s) t e (h, hs) =
    let (a, b) = Holds-append mem (suc i) j s t (omega arith) hs in ((h, a), b)

pub Holds-join :
    (mem : Memory) (i j : ℕ) (s t : Bytes)
    → i + length s ≡ j
    → Holds mem i s
    → Holds mem j t
    → Holds mem i (s ++ t)
Holds-join mem i j [] t e h k = let e' : i ≡ j = omega arith in rw e' k
Holds-join mem i j (c ∷ s) t e (h, hs) k = (h, Holds-join mem (suc i) j s t (omega arith) hs k)

pub slice-Holds : (mem : Memory) (i : ℕ) (s : Bytes) → Holds mem i s → slice mem i (length s) ≡ s
unfolding slice
slice-Holds mem i [] h = refl
slice-Holds mem i (c ∷ s) (h, hs) = ground (arith, slice-Holds mem (suc i) s hs)

pub make_string-Holds :
    (mem : Memory) (i j : ℕ) (s : Bytes)
    → i + length s ≡ j
    → Holds mem i s
    → make_string mem i j ≡ some s
unfolding make_string
make_string-Holds mem i j s e h =
    let n : j - i ≡ length s = omega arith in rw n (ground (arith, slice-Holds mem i s h))

Holds-shift :
    (s : Bytes) (mem mem' : Memory) (i k : ℕ)
    → ((n : ℕ) → mem' (i + n) ≡ mem (k + n))
    → Holds mem k s
    → Holds mem' i s
Holds-shift [] mem mem' i k e h = tt
Holds-shift (c ∷ s) mem mem' i k e (h, hs) = (
  let e0 = e 0 in
      let p : i + 0 ≡ i = omega arith in
      let q : k + 0 ≡ k = omega arith in ap mem' (sym p) ∙ e0 ∙ ap mem q ∙ h,
  Holds-shift s mem mem' (suc i) (suc k)
      (λ n.
        let p : suc i + n ≡ i + suc n = omega arith in
        let q : k + suc n ≡ suc k + n = omega arith in ap mem' p ∙ e (suc n) ∙ ap mem q)
      hs,
)

suc_add : (n : ℕ) → 1 + n ≡ suc n
suc_add n = omega arith

zero_add : (n : ℕ) → 0 + n ≡ n
zero_add n = omega arith

-- A text lies at the start of the memory that holds it.
pub holding-Holds : (s t : Bytes) → Holds (holding (s ++ t)) 0 s
holding-Holds [] t = tt
holding-Holds (c ∷ s) t = (
  refl,
  Holds-shift s (holding (s ++ t)) (holding (c ∷ s ++ t)) 1 0
      (λ n. ap (holding (c ∷ s ++ t)) (suc_add n) ∙ ap (holding (s ++ t)) (sym (zero_add n)))
      (holding-Holds s t),
)
