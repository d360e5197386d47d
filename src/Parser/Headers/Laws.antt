-- ===== src/Parser/Headers/Laws.antt =====
-- Message headers read back from a memory that holds them.
use webcrown.Base.{
  ℕ, zero, suc, ◌+◌, ◌-◌, ◌≤◌, ◌<◌, ◌≡◌, refl, List, [], ◌∷◌, ◌++◌, Bytes, true, false, arith,
  length, length-append, ltb, AllPass, ◌||◌, ◌==◌, ap, ◌≢◌, sym, ◌∙◌, insert, StringMap,
  append_assoc,
}
use webcrown.CharClass.{is_valid_token, isprint}
use webcrown.StringUtils.{to_lower}
use webcrown.Http.Error.{ErrorCode}
use webcrown.Parser.Memory.{Memory, Holds, Holds-append, slice-Holds}
use webcrown.Parser.Text.{crlf, header_text, headers_text, stored}
use webcrown.Parser.Headers.{
  HeaderState, name_loop, parse_message_header_name, skip_loop, value_loop,
  parse_message_header_value, header_line, line_end, is_last_line, next_line, header_loop,
}

-- A name is valid tokens; a value is printable and does not begin with a blank.
abbrev pub NoBlankFirst : Bytes → Type 0
NoBlankFirst [] = Unit {0}
NoBlankFirst (c ∷ s) = c ≢ b' '

abbrev pub IsHeader : Bytes × Bytes → Type 0
IsHeader (name, value) = AllPass is_valid_token name × AllPass isprint value × NoBlankFirst value

abbrev pub AllHeaders : List (Bytes × Bytes) → Type 0
AllHeaders [] = Unit {0}
AllHeaders (h ∷ hs) = IsHeader h × AllHeaders hs

token_colon : (c : ℕ) → is_valid_token c ≡ true → (c == b':') ≡ false
unfolding is_valid_token
token_colon c h = ground arith

token_cr : (c : ℕ) → is_valid_token c ≡ true → (c == 0x0d) ≡ false
unfolding is_valid_token
token_cr c h = ground arith

print_cr : (c : ℕ) → isprint c ≡ true → (c == 0x0d) ≡ false
unfolding isprint
print_cr c h = ground arith

print_tab : (c : ℕ) → isprint c ≡ true → (c == 0x09) ≡ false
unfolding isprint
print_tab c h = ground arith

module _ (mem : Memory) (last : ℕ) where
  pub name_loop_lem :
      (s : Bytes) (n it : ℕ)
      → AllPass is_valid_token s
      → Holds mem it s
      → mem (it + length s) ≡ b':'
      → length s < n
      → name_loop mem last n it ≡ (it + length s, false)
  unfolding name_loop
  name_loop_lem [] (suc n) it a h e k =
      let z : it + 0 ≡ it = omega arith in rw z (ground (arith, ap mem z))
  name_loop_lem (c ∷ s) (suc n) it a h e k =
      let z : it + suc (length s) ≡ suc it + length s = omega arith in
      ground (arith, token_colon c a.0, ap mem z, name_loop_lem s n (suc it) a.1 h.1)
  name_loop_lem s zero it a h e k = elim k [ ]

  value_loop_lem :
      (s : Bytes) (n it : ℕ)
      → AllPass isprint s
      → Holds mem it s
      → Holds mem (it + length s) crlf
      → length s < n
      → value_loop mem last n it ≡ (it + length s, false)
  unfolding value_loop
  value_loop_lem [] (suc n) it a h e k =
      let z : it + 0 ≡ it = omega arith in
      let y : suc (it + 0) ≡ it + 1 = omega arith in rw z (ground (arith, ap mem z, ap mem y))
  value_loop_lem (c ∷ s) (suc n) it a h e k =
      let z : it + suc (length s) ≡ suc it + length s = omega arith in
      ground (arith, print_cr c a.0, value_loop_lem s n (suc it) a.1 h.1 (rw (← z) e))
  value_loop_lem s zero it a h e k = elim k [ ]

  -- Where a value begins: with its first character, or with the CRLF.
  first_lem :
      (s : Bytes) (it : ℕ)
      → AllPass isprint s
      → NoBlankFirst s
      → Holds mem it (s ++ crlf)
      → (mem it == b' ' || mem it == 0x09) ≡ false
  first_lem [] it a b h = ground arith
  first_lem (c ∷ s) it a b h = ground (arith, print_tab c a.0)

  skip_loop_lem :
      (s : Bytes) (n it : ℕ)
      → AllPass isprint s
      → NoBlankFirst s
      → Holds mem it (b' ' ∷ (s ++ crlf))
      → 1 < n
      → skip_loop mem last n it ≡ (suc it, false)
  unfolding skip_loop
  skip_loop_lem s (suc (suc n)) it a b h k = ground (arith, first_lem s (suc it) a b h.1)
  skip_loop_lem s (suc zero) it a b h k = absurd (omega arith)
  skip_loop_lem s zero it a b h k = elim k [ ]

  -- A header line is read whole: its name is lowered and its value stored.
  pub header_line_lem :
      (name value : Bytes) (s : HeaderState)
      → IsHeader (name, value)
      → Holds mem s.it (header_text (name, value) ++ crlf)
      → s.it + length (header_text (name, value)) + 2 ≤ last
      → header_line mem last s ≡ record {
        it = s.it + length (header_text (name, value));
        headers = insert (to_lower name) value s.headers;
        ec = s.ec;
      }
  unfolding header_line parse_message_header_name parse_message_header_value
  header_line_lem name value s g h k =
      let i = s.it in
      let ln = length name in
      let e : header_text (name, value) ++ crlf ≡ name ++ (b':' ∷ b' ' ∷ (value ++ crlf)) =
        append_assoc name (b':' ∷ b' ' ∷ value) crlf in
      let total : length (header_text (name, value)) ≡ ln + (2 + length value) =
        omega (arith, length-append {0} name (b':' ∷ b' ' ∷ value)) in
      let (hn, hr) =
        Holds-append mem i (i + ln) name (b':' ∷ b' ' ∷ (value ++ crlf)) refl (rw e at h) in
      let (hv, hc) =
        Holds-append mem (suc (suc (i + ln))) (suc (suc (i + ln)) + length value) value crlf refl
          hr.1.1 in
      let e1 = name_loop_lem name (last - i) i g.0 hn hr.0 (omega (arith, total)) in
      let n1 : i + ln - i ≡ ln = omega arith in
      let j1 : i + ln + 1 ≡ suc (i + ln) = omega arith in
      let e2 =
        skip_loop_lem value (last - suc (i + ln)) (suc (i + ln)) g.1 g.2 hr.1
          (omega (arith, total)) in
      let v = suc (suc (i + ln)) in
      let e3 = value_loop_lem value (last - v) v g.1 hv hc (omega (arith, total)) in
      let n2 : v + length value - v ≡ length value = omega arith in
      let fin : v + length value ≡ i + length (header_text (name, value)) = omega (arith, total) in
      rw (e1, n1, slice-Holds mem i name hn, j1, e2, e3, n2, slice-Holds mem v value hv, fin)

  header_begin :
      (h : Bytes × Bytes) (rest : Bytes) (i : ℕ)
      → IsHeader h
      → Holds mem i (header_text h ++ rest)
      → (mem i == 0x0d) ≡ false
  header_begin ([], value) rest i g h = ground arith
  header_begin (c ∷ name, value) rest i g h = ground (arith, token_cr c g.0.0)

  -- The loop reads well-formed headers up to the blank line, and stops in front of it.
  pub header_loop_lem :
      (h : Bytes × Bytes) (hs : List (Bytes × Bytes)) (n i j : ℕ) (m : StringMap) (ec : ErrorCode)
      → AllHeaders (h ∷ hs)
      → Holds mem i (headers_text (h ∷ hs) ++ crlf)
      → i + length (headers_text (h ∷ hs)) ≡ j + 2
      → j + 4 ≤ last
      → last - i ≤ n
      → header_loop mem last n (record { it = i; headers = m; ec = ec })
        ≡ record { it = j; headers = stored (h ∷ hs) m; ec = ec }
  unfolding header_loop line_end is_last_line next_line stored
  header_loop_lem h [] (suc n) i j m ec g t e l r =
      let s : HeaderState = record { it = i; headers = m; ec = ec } in
      let a : headers_text (h ∷ []) ++ crlf ≡ (header_text h ++ crlf) ++ crlf =
        append_assoc (header_text h) (crlf ++ []) crlf
        ∙ sym (append_assoc (header_text h) crlf crlf) in
      let total : length (headers_text (h ∷ [])) ≡ length (header_text h) + 2 =
        omega (arith, length-append {0} (header_text h) (crlf ++ [])) in
      let k : i + length (header_text h) ≡ j = omega (arith, total) in
      let (hh, hb) =
        Holds-append mem i (j + 2) (header_text h ++ crlf) crlf
          (omega (arith, length-append {0} (header_text h) crlf)) (rw a at t) in
      let (_, hc) = Holds-append mem i j (header_text h) crlf k hh in
      let line = header_line_lem h.0 h.1 s g.0 hh (omega arith) in
      let run : ltb i last ≡ true = ground arith in
      let y : suc j ≡ j + 1 = omega arith in
      let y3 : suc (j + 2) ≡ j + 3 = omega arith in
      rw (line, k, run) (ground (arith, ap mem y, ap mem y3))
  header_loop_lem h (g' ∷ hs) (suc n) i j m ec g t e l r =
      let s : HeaderState = record { it = i; headers = m; ec = ec } in
      let rest = headers_text (g' ∷ hs) in
      let a : headers_text (h ∷ g' ∷ hs) ++ crlf ≡ (header_text h ++ crlf) ++ (rest ++ crlf) =
        append_assoc (header_text h) (crlf ++ rest) crlf
        ∙ sym (append_assoc (header_text h) crlf (rest ++ crlf)) in
      let total : length (headers_text (h ∷ g' ∷ hs)) ≡ length (header_text h) + (2 + length rest) =
        omega (arith, length-append {0} (header_text h) (crlf ++ rest)) in
      let k = i + length (header_text h) in
      let (hh, hb) =
        Holds-append mem i (k + 2) (header_text h ++ crlf) (rest ++ crlf)
          (omega (arith, length-append {0} (header_text h) crlf)) (rw a at t) in
      let (_, hc) = Holds-append mem i k (header_text h) crlf refl hh in
      let short : 2 ≤ length rest =
        omega (arith, length-append {0} (header_text g') (crlf ++ headers_text hs)) in
      let line = header_line_lem h.0 h.1 s g.0 hh (omega (arith, total)) in
      let run : ltb i last ≡ true = ground (arith, total) in
      let y : suc k ≡ k + 1 = omega arith in
      let next_at : k + 1 + 1 ≡ k + 2 = omega arith in
      let b : rest ++ crlf ≡ header_text g' ++ ((crlf ++ headers_text hs) ++ crlf) =
        append_assoc (header_text g') (crlf ++ headers_text hs) crlf in
      let more : (mem (k + 2) == 0x0d) ≡ false = header_begin g' _ (k + 2) g.1.0 (rw b at hb) in
      let cr : (mem k == 0x0d) ≡ true = ground arith in
      let lf : (mem (k + 1) == 0x0a) ≡ true = rw (← ap mem y) (ground arith) in
      let ih =
        header_loop_lem g' hs n (k + 2) j (insert (to_lower h.0) h.1 m) ec g.1 hb
          (omega (arith, total)) l (omega arith) in
      rw (line, run, cr, lf, more, cr, next_at) ih
  header_loop_lem h hs zero i j m ec g t e l r = absurd (omega arith)
