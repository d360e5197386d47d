-- ===== src/Parser/Uploads/Ends.antt =====
-- Where a part ends in a buffer, said without the code: what `find_part_end` finds, the search in
-- `parse_media_type` of include/webcrown/server/http/http_parser.hpp.
use webcrown.Base.{
  ℕ, zero, suc, ◌+◌, ◌-◌, ◌<◌, ◌≤◌, ◌≡◌, refl, Bytes, Bool, true, false, ◌&&◌, ltb, ◌==◌, arith,
  length, Bool-cases, inl, inr,
}
use webcrown.Parser.Memory.{Memory}
use webcrown.Parser.Boundary.{verify_boundary_value}
use webcrown.Parser.Boundary.Laws.{Occurs, NoneIn, FirstPlace, verify_boundary_value_first}
use webcrown.Parser.MediaType.{PartEnd, part_end_loop, find_part_end}
use webcrown.Parser.Uploads.{NoneIn-Occurs, not_found}

-- CR LF lies at an address.
abbrev pub IsLineEnd : Memory → ℕ → Type 0
IsLineEnd mem j = (mem j ≡ 0x0d) × (mem (j + 1) ≡ 0x0a)

-- It lies at none of the next addresses, as many as the number says.
abbrev pub NoLineEnd : Memory → ℕ → ℕ → Type 0
NoLineEnd mem zero i = Unit {0}
NoLineEnd mem (suc n) i = (IsLineEnd mem i → ⊥) × NoLineEnd mem n (suc i)

-- Where the part ends in a buffer of some bytes, and whether it is complete there. Where the
-- boundary begins in the buffer, the part goes on to the end of the line that it first begins in:
-- behind that line's CR LF, so that the boundary is among its bytes. Where it does not, or its line
-- does not end in the buffer, the part goes on to the end of the buffer.
pub data PartEnds (mem : Memory) (bound : Bytes) (size : ℕ) : ℕ → Bool → Type 0 where
  without_boundary : NoneIn mem bound size 0 → PartEnds mem bound size size false
  with_line :
      (k j : ℕ)
      → k < size
      → Occurs mem bound k
      → NoneIn mem bound k 0
      → k ≤ j
      → j + 2 ≤ size
      → IsLineEnd mem j
      → NoLineEnd mem (j - k) k
      → PartEnds mem bound size (j + 2) true
  without_line :
      (k : ℕ)
      → k < size
      → Occurs mem bound k
      → NoneIn mem bound k 0
      → NoLineEnd mem (size - k - 1) k
      → PartEnds mem bound size size false

NoLineEnd-at :
    (mem : Memory) (n i j : ℕ) → NoLineEnd mem n i → i ≤ j → j < i + n → ¬ IsLineEnd mem j
NoLineEnd-at mem zero i j h le lt = absurd (omega arith)
NoLineEnd-at mem (suc n) i j (h, hs) le lt = elim (Bool-cases (i == j)) [
  | inl e ↦ let same : i ≡ j = ground arith in rw (← same) h
  | inr e ↦ NoLineEnd-at mem n (suc i) j hs (ground arith) (omega arith)
]

module _ (mem : Memory) (size : ℕ) where
  -- The loop finds the first line end that lies whole in the buffer.
  part_end_loop_found :
      (n i j : ℕ)
      → i + n ≡ size
      → i ≤ j
      → j + 2 ≤ size
      → IsLineEnd mem j
      → NoLineEnd mem (j - i) i
      → part_end_loop mem size n i ≡ (j + 2, true)
  unfolding part_end_loop
  part_end_loop_found zero i j e le fits h before = absurd (omega arith)
  part_end_loop_found (suc n) i j e le fits (cr, lf) before = elim (Bool-cases (i == j)) [
    | inl here ↦ let same : i ≡ j = ground arith in rw same (ground arith)
    | inr further ↦
        let rounds : j - i ≡ suc (j - suc i) = ground arith in
        let (no_end, rest) : NoLineEnd mem (suc (j - suc i)) i = rw rounds at before in
        let ih = part_end_loop_found n (suc i) j (omega arith) (ground arith) fits (cr, lf) rest in
        rw (part_end_loop, ih) (ground arith)
  ]

  -- Where there is none, it goes on to the end.
  part_end_loop_none :
      (n i : ℕ)
      → i + suc n ≡ size
      → NoLineEnd mem n i
      → part_end_loop mem size (suc n) i ≡ (size, false)
  unfolding part_end_loop
  part_end_loop_none zero i e before = ground arith
  part_end_loop_none (suc n) i e (no_end, rest) =
      let ih = part_end_loop_none n (suc i) (omega arith) rest in
      elim (Bool-cases (mem i == b'-')) [
        | inl dash ↦ rw (part_end_loop, dash, ih) refl
        | inr plain ↦ elim (Bool-cases (mem i == 0x0d && mem (i + 1) == 0x0a)) [
          | inl found ↦
              let cr : mem i ≡ 0x0d = ground arith in
              let lf : mem (i + 1) ≡ 0x0a = ground arith in absurd (no_end (cr, lf))
          | inr other ↦ rw (part_end_loop, other, ih) (ground arith)
        ]
      ]

FirstPlace-unique :
    (mem : Memory) (bound : Bytes) (n k : ℕ) (r : ℕ × Bool)
    → FirstPlace mem bound n 0 r
    → k < n
    → Occurs mem bound k
    → NoneIn mem bound k 0
    → r ≡ (k, true)
FirstPlace-unique mem bound n k (i, false) none_there lt o before =
    absurd (NoneIn-Occurs mem bound n 0 k none_there (omega arith) (omega arith) o)
FirstPlace-unique mem bound n k (i, true) (le, lt', o', before') lt o before =
    elim (Bool-cases (ltb i k)) [
      | inl e ↦
          let less : i < k = ground arith in
          absurd (NoneIn-Occurs mem bound k 0 i before (omega arith) (omega arith) o')
      | inr e ↦ elim (Bool-cases (ltb k i)) [
        | inl f ↦
            let less : k < i = ground arith in
            absurd (NoneIn-Occurs mem bound (i - 0) 0 k before' (omega arith) (omega arith) o)
        | inr f ↦ let same : i ≡ k = ground arith in rw same refl
      ]
    ]

-- `find_part_end` finds the end that is described.
module _ (mem : Memory) (bound : Bytes) (size : ℕ) (lt : 0 < length bound) where
  first_found :
      (k : ℕ)
      → k < size
      → Occurs mem bound k
      → NoneIn mem bound k 0
      → verify_boundary_value mem size 0 bound (length bound) ≡ (k, true)
  first_found k less o before =
      let all : size - 0 ≡ size = omega arith in
      FirstPlace-unique mem bound size k _
        (rw all at (verify_boundary_value_first mem size 0 bound lt)) less o before

  pub find_part_end-PartEnds :
      (end : ℕ) (reached : Bool)
      → PartEnds mem bound size end reached
      → (e : PartEnd) × (find_part_end mem size bound (length bound) 0 ≡ e)
        × (e.buffer_end ≡ end)
        × (e.reached ≡ reached)
  unfolding find_part_end
  find_part_end-PartEnds _ _ (without_boundary none_there) =
      let all : size - 0 ≡ size = omega arith in
      let first = rw all at (verify_boundary_value_first mem size 0 bound lt) in
      let missing = not_found mem bound size 0 _ none_there first in
      (_, refl, rw missing refl, rw missing refl)
  find_part_end-PartEnds _ _ (with_line k j less o before le fits ends none_before) =
      let found = first_found k less o before in
      let loop =
        part_end_loop_found mem size (size - k) k j (omega arith) le fits ends none_before in
      (_, refl, rw (found, loop) refl, rw (found, loop) refl)
  find_part_end-PartEnds _ _ (without_line k less o before none_behind) =
      let found = first_found k less o before in
      let rounds : size - k ≡ suc (size - k - 1) = omega arith in
      let loop = part_end_loop_none mem size (size - k - 1) k (omega arith) none_behind in
      (_, refl, rw (found, rounds, loop) refl, rw (found, rounds, loop) refl)
