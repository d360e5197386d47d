-- ===== src/Parser/Headers/Cut.antt =====
-- The loop over the headers of a buffer that ends in the name of its first one.
use webcrown.Base.{
  ℕ, zero, suc, ◌+◌, ◌-◌, ◌≤◌, ◌<◌, ◌≡◌, ◌≢◌, refl, [], ◌∷◌, Bytes, true, false, arith, length, ltb,
  ◌==◌, AllPass, none, some, insert,
}
use webcrown.CharClass.{is_valid_token}
use webcrown.StringUtils.{to_lower}
use webcrown.Http.Error.{incomplete_message_header}
use webcrown.Parser.Memory.{Memory, slice-Holds, Holds}
use webcrown.Parser.Headers.{
  HeaderState, name_loop, parse_message_header_name, skip_loop, parse_message_header_value,
  header_line, line_end, is_last_line, next_line, header_loop,
}

module _ (mem : Memory) (last : ℕ) where
  token_colon : (c : ℕ) → is_valid_token c ≡ true → (c == b':') ≡ false
  unfolding is_valid_token
  token_colon c h = ground arith

  -- A name that the buffer cuts off.
  name_loop_cut :
      (s : Bytes) (n it : ℕ)
      → AllPass is_valid_token s
      → Holds mem it s
      → n ≡ length s
      → name_loop mem last n it ≡ (it + n, false)
  unfolding name_loop
  name_loop_cut [] zero it a h e = let z : it + 0 ≡ it = omega arith in rw z
  name_loop_cut [] (suc n) it a h e = absurd (omega arith)
  name_loop_cut (c ∷ s) zero it a h e = absurd (omega arith)
  name_loop_cut (c ∷ s) (suc n) it a h e =
      let z : it + suc n ≡ suc it + n = omega arith in
      ground (arith, token_colon c a.0, name_loop_cut s n (suc it) a.1 h.1)

  -- Past the end the loop does nothing.
  header_loop_past : (n : ℕ) (s : HeaderState) → last ≤ s.it → header_loop mem last n s ≡ s
  unfolding header_loop
  header_loop_past zero s h = refl
  header_loop_past (suc n) s h = let out : ltb s.it last ≡ false = ground arith in rw out

  cut_line :
      (s : Bytes) (i : ℕ)
      → AllPass is_valid_token s
      → Holds mem i s
      → i + length s ≡ last
      → header_line mem last (record { it = i; headers = []; ec = none }) ≡ record {
        it = last + 1;
        headers = insert (to_lower s) [] [];
        ec = some incomplete_message_header;
      }
  unfolding header_line parse_message_header_name parse_message_header_value skip_loop
  cut_line s i a h e =
      let n : last - i ≡ length s = omega arith in
      let m : i + length s - i ≡ length s = omega arith in
      let z : last - (last + 1) ≡ 0 = omega arith in
      rw (n, name_loop_cut s (length s) i a h refl, m, slice-Holds mem i s h, e, z)

  pub cut_loop :
      (s : Bytes) (i n : ℕ)
      → AllPass is_valid_token s
      → Holds mem i s
      → i + length s ≡ last
      → 0 < length s
      → mem (last + 1) ≢ 0x0d
      → header_loop mem last (suc n) (record { it = i; headers = []; ec = none }) ≡ record {
        it = last + 2;
        headers = insert (to_lower s) [] [];
        ec = some incomplete_message_header;
      }
  unfolding header_loop line_end is_last_line next_line
  cut_loop s i n a h e k ne =
      let run : ltb i last ≡ true = ground arith in
      let cr : (mem (last + 1) == 0x0d) ≡ false = ground arith in
      let step : last + 1 + 1 ≡ last + 2 = omega arith in
      let r : HeaderState = record {
        it = last + 2;
        headers = insert (to_lower s) [] [];
        ec = some incomplete_message_header;
      } in
      rw (run, cut_line s i a h e, cr, cr, step) (header_loop_past n r (omega arith))
