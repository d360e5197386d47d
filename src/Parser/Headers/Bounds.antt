-- ===== src/Parser/Headers/Bounds.antt =====
-- Where the loop over the headers stops, and how far from the end of the buffer.
use webcrown.Base.{
  ℕ, zero, suc, ◌+◌, ◌-◌, ◌≤◌, ◌<◌, ◌≡◌, refl, true, false, ltb, arith, Bool-cases, inl, inr, ◌⊎◌,
}
use webcrown.Http.Error.{ErrorCode}
use webcrown.Parser.Memory.{Memory}
use webcrown.Parser.Headers.{
  HeaderState, name_loop, parse_message_header_name, skip_loop, value_loop,
  parse_message_header_value, header_line, line_end, is_last_line, next_line, header_loop,
  parse_message_header,
}

module _ (mem : Memory) (last : ℕ) where
  name_loop_le :
      (n it : ℕ) → (it ≤ (name_loop mem last n it).0) × ((name_loop mem last n it).0 ≤ it + n)
  unfolding name_loop
  name_loop_le zero it = (omega arith, omega arith)
  name_loop_le (suc n) it = let ih = name_loop_le n (suc it) in (ground arith, ground arith)

  skip_loop_le :
      (n it : ℕ) → (it ≤ (skip_loop mem last n it).0) × ((skip_loop mem last n it).0 ≤ it + n)
  unfolding skip_loop
  skip_loop_le zero it = (omega arith, omega arith)
  skip_loop_le (suc n) it = let ih = skip_loop_le n (suc it) in (ground arith, ground arith)

  value_loop_le :
      (n it : ℕ) → (it ≤ (value_loop mem last n it).0) × ((value_loop mem last n it).0 ≤ it + n)
  unfolding value_loop
  value_loop_le zero it = (omega arith, omega arith)
  value_loop_le (suc n) it = let ih = value_loop_le n (suc it) in (ground arith, ground arith)

  name_le :
      (first : ℕ) (ec : ErrorCode)
      → first < last
      → (first ≤ (parse_message_header_name mem last first ec).it)
        × ((parse_message_header_name mem last first ec).it ≤ last + 1)
  unfolding parse_message_header_name
  name_le first ec lt = let ih = name_loop_le (last - first) first in (ground arith, ground arith)

  value_le :
      (it : ℕ) (ec : ErrorCode)
      → it ≤ last + 1
      → (it ≤ (parse_message_header_value mem last it ec).it)
        × ((parse_message_header_value mem last it ec).it ≤ last + 1)
  unfolding parse_message_header_value
  value_le it ec le =
      let start = skip_loop_le (last - it) it in
      let s = (skip_loop mem last (last - it) it).0 in
      let end = value_loop_le (last - s) s in (ground arith, ground arith)

  header_line_le :
      (s : HeaderState)
      → s.it < last
      → (s.it ≤ (line_end mem last (header_line mem last s)).it)
        × ((line_end mem last (header_line mem last s)).it ≤ last + 1)
  unfolding line_end header_line
  header_line_le s lt =
      let name = parse_message_header_name mem last s.it s.ec in
      let name_at = name_le s.it s.ec lt in
      let value_at = value_le name.it name.ec name_at.1 in (ground arith, ground arith)

  next_line_le :
      (s : HeaderState)
      → (s.it < (next_line mem last s).it) × ((next_line mem last s).it ≤ s.it + 2)
  unfolding next_line
  next_line_le s = (ground arith, ground arith)

  -- The loop has come to an end: at the end of the buffer, or in front of a blank line.
  abbrev pub Ended : HeaderState → Type 0
  Ended s = (last ≤ s.it) ⊎ (is_last_line mem last s ≡ true)

  -- The state at the next round, and how far it is.
  abbrev read : HeaderState → HeaderState
  read s = line_end mem last (header_line mem last s)

  next_read_le :
      (s : HeaderState)
      → s.it < last
      → (s.it < (next_line mem last (read s)).it) × ((next_line mem last (read s)).it ≤ last + 3)
  next_read_le s lt =
      let line = header_line_le s lt in
      let step = next_line_le (read s) in
      (omega (arith, line.0, step.0), omega (arith, line.1, step.1))

  header_loop_same :
      (n m : ℕ) (s : HeaderState)
      → last - s.it ≤ n
      → last - s.it ≤ m
      → header_loop mem last n s ≡ header_loop mem last m s
  unfolding header_loop
  header_loop_same zero zero s e f = refl
  header_loop_same zero (suc m) s e f =
      let past : ltb s.it last ≡ false = ground arith in rw past refl
  header_loop_same (suc n) zero s e f =
      let past : ltb s.it last ≡ false = ground arith in rw past refl
  header_loop_same (suc n) (suc m) s e f = elim (Bool-cases (ltb s.it last)) [
    | inr past ↦ rw past refl
    | inl inside ↦
        let lt : s.it < last = ground arith in
        let at = next_read_le s lt in
        let ih =
          header_loop_same n m (next_line mem last (read s)) (omega (arith, at.0))
            (omega (arith, at.0)) in
        rw ih refl
  ]

  header_loop_le :
      (n : ℕ) (s : HeaderState)
      → s.it ≤ last + 3
      → last - s.it ≤ n
      → (s.it ≤ (header_loop mem last n s).it)
        × ((header_loop mem last n s).it ≤ last + 3)
        × Ended (header_loop mem last n s)
  unfolding header_loop
  header_loop_le zero s le enough = (omega arith, le, inl (omega arith))
  header_loop_le (suc n) s le enough = elim (Bool-cases (ltb s.it last)) [
    | inr past ↦ rw (past, header_loop) (omega arith, le, inl (ground arith))
    | inl inside ↦
        let lt : s.it < last = ground arith in
        let line = header_line_le s lt in
        let at = next_read_le s lt in
        let ih = header_loop_le n (next_line mem last (read s)) at.1 (omega (arith, at.0)) in
        elim (Bool-cases (is_last_line mem last (read s))) [
          | inl ends ↦ rw (inside, ends, header_loop) (line.0, omega (arith, line.1), inr ends)
          | inr more ↦ rw (inside, more, header_loop) (omega (arith, at.0, ih.0), ih.1, ih.2)
        ]
  ]

-- `parse_message_header` of a buffer that has two bytes left at least comes to the end of its loop:
-- however many rounds the loop is given beyond one for each byte that is left, it gives the same; its
-- pointer stands at or behind the end of the buffer, or in front of a blank line; it has not gone
-- back, and is at most three bytes behind the end.
pub parse_message_header_bounds :
    (mem : Memory) (last n : ℕ) (s : HeaderState)
    → s.it + 2 ≤ last
    → last - s.it ≤ n
    → ((parse_message_header mem last s).0 ≡ header_loop mem last n s)
      × Ended mem last (parse_message_header mem last s).0
      × (s.it ≤ (parse_message_header mem last s).0.it)
      × ((parse_message_header mem last s).0.it ≤ last + 3)
unfolding parse_message_header
parse_message_header_bounds mem last n s two enough =
    let room : ltb last (s.it + 2) ≡ false = ground arith in
    let (onward, near, ended) =
      header_loop_le mem last (last - s.it) s (omega arith) (omega arith) in
    rw room (header_loop_same mem last (last - s.it) n s (omega arith) enough, ended, onward, near)
