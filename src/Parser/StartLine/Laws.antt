-- ===== src/Parser/StartLine/Laws.antt =====
-- The request line read back from a memory that holds it.
use webcrown.Base.{
  ℕ, zero, suc, ◌+◌, ◌-◌, ◌≤◌, ◌<◌, ◌≡◌, refl, [], ◌∷◌, ◌++◌, Bytes, codes, false, arith, length,
  length-append, leb, ltb, AllPass, not, ◌&&◌, ◌==◌, ap, ◌∙◌,
}
use webcrown.CharClass.{is_token_char, is_pathchar, is_digit, isalpha, isspace}
use webcrown.CharClass.Laws.{is_token_char_of_isalpha, isspace_of_isalpha}
use webcrown.Http.Phase.{ParsePhase}
use webcrown.Parser.Memory.{Memory, Holds, Holds-append, slice-Holds}
use webcrown.Parser.Text.{crlf, request_line_text}
use webcrown.Parser.Defs.{Parser, Cursor, next, M, ◌>>=◌, ◌>>◌, bind_next, then_next}
use webcrown.Parser.StartLine.{
  method_loop, parse_method, target_loop, parse_target, expect, digit, set_version, parse_protocol,
  request_line, set_method, set_target, get_version,
}

zero_add : (n : ℕ) → 0 + n ≡ n
zero_add n = omega arith

token_space : is_token_char b' ' ≡ false
unfolding is_token_char
token_space = refl

pub path_space : is_pathchar b' ' ≡ false
unfolding is_pathchar
path_space = refl

module _ (mem : Memory) (last : ℕ) where
  method_loop_lem :
      (s : Bytes) (n it : ℕ)
      → AllPass isalpha s
      → Holds mem it s
      → is_token_char (mem (it + length s)) ≡ false
      → length s < n
      → method_loop mem last n it ≡ (it + length s, false)
  unfolding method_loop
  method_loop_lem [] (suc n) it a h e k =
      let z : it + 0 ≡ it = omega arith in
      rw z (ground (arith, ap (λ (j : ℕ). is_token_char (mem j)) z))
  method_loop_lem (c ∷ s) (suc n) it a h e k =
      let z : it + suc (length s) ≡ suc it + length s = omega arith in
      ground (
        arith,
        is_token_char_of_isalpha c a.0,
        ap (λ (j : ℕ). is_token_char (mem j)) z,
        method_loop_lem s n (suc it) a.1 h.1,
      )
  method_loop_lem s zero it a h e k = elim k [ ]

  target_loop_lem :
      (s : Bytes) (n it : ℕ)
      → AllPass is_pathchar s
      → Holds mem it s
      → is_pathchar (mem (it + length s)) ≡ false
      → length s < n
      → target_loop mem last n it ≡ it + length s
  unfolding target_loop
  target_loop_lem [] (suc n) it a h e k =
      let z : it + 0 ≡ it = omega arith in
      rw z (ground (arith, ap (λ (j : ℕ). is_pathchar (mem j)) z))
  target_loop_lem (c ∷ s) (suc n) it a h e k =
      let z : it + suc (length s) ≡ suc it + length s = omega arith in
      ground (arith, ap (λ (j : ℕ). is_pathchar (mem j)) z, target_loop_lem s n (suc it) a.1 h.1)
  target_loop_lem s zero it a h e k = elim k [ ]

  -- A step that succeeds, and what follows it.
  module _ {B : Type 0} where
    expect_then :
        (ch i : ℕ) (p : Parser) (k : M B)
        → mem i ≡ ch
        → (expect mem last ch >> k) (record { parser = p; it = i })
          ≡ k (record { parser = p; it = suc i })
    unfolding expect
    expect_then ch i p k h =
        let same : not (mem i == ch) ≡ false = ground arith in
        let step : i + 1 ≡ suc i = omega arith in rw (same, ◌>>◌, step)

    digit_then :
        (d i : ℕ) (p : Parser) (k : ℕ → M B)
        → mem i ≡ b'0' + d
        → d < 10
        → (digit mem last >>= k) (record { parser = p; it = i })
          ≡ k d (record { parser = p; it = suc i })
    unfolding digit is_digit
    digit_then d i p k h l =
        let test : not (is_digit (mem i)) ≡ false = rw h (ground arith) in
        let value : mem i - b'0' ≡ d = omega arith in
        let step : i + 1 ≡ suc i = omega arith in rw (test, ◌>>=◌, value, step)

  parse_protocol_lem :
      (c : Cursor)
      → Holds mem c.it (codes "HTTP/1.1")
      → c.it + 8 ≤ last
      → parse_protocol mem last c
        ≡ next tt (record {
          parser = record (c.parser) {
            protocol_version = 11;
            parse_phase = ParsePhase.parse_protocol_version_finished;
          };
          it = c.it + 8;
        })
  unfolding parse_protocol set_version
  parse_protocol_lem c (h, (t1, (t2, (p, (slash, (one, (dot, (minor, _)))))))) k =
      let long : ltb last (c.it + 8) ≡ false = ground arith in
      let far : c.it + 8 ≡ suc (suc (suc (suc (suc (suc (suc (suc c.it))))))) = omega arith in
      rw (long) (
        expect_then b'H' _ _ _ h
        ∙ expect_then b'T' _ _ _ t1
        ∙ expect_then b'T' _ _ _ t2
        ∙ expect_then b'P' _ _ _ p
        ∙ expect_then b'/' _ _ _ slash
        ∙ digit_then 1 _ _ _ one (omega arith)
        ∙ expect_then b'.' _ _ _ dot
        ∙ digit_then 1 _ _ _ minor (omega arith)
        ∙ rw (far))

  parse_method_lem :
      (x : ℕ) (s : Bytes) (i : ℕ) (p : Parser)
      → AllPass isalpha (x ∷ s)
      → Holds mem i (x ∷ s)
      → mem (i + length (x ∷ s)) ≡ b' '
      → i + length (x ∷ s) + 1 < last
      → parse_method mem last (record { parser = p; it = i })
        ≡ next (x ∷ s) (record {
          parser = record p { parse_phase = ParsePhase.parse_method_finished };
          it = i + length (x ∷ s) + 1;
        })
  unfolding parse_method
  parse_method_lem x s i p a h sp k =
      let e0 : isspace (mem i) ≡ false = rw (h.0) (isspace_of_isalpha x a.0) in
      let e1 : method_loop mem last (last - i) i ≡ (i + length (x ∷ s), false) =
        method_loop_lem (x ∷ s) (last - i) i a h (rw sp token_space) (omega arith) in
      let e2 : leb last (i + length (x ∷ s) + 1) ≡ false = ground arith in
      let e3 : not (mem (i + length (x ∷ s)) == b' ') ≡ false = ground arith in
      let e4 : (i + length (x ∷ s) == last) ≡ false = ground arith in
      let n : i + length (x ∷ s) - i ≡ length (x ∷ s) = omega arith in
      rw (e0, e1, e2, e3, e4, n, slice-Holds mem i (x ∷ s) h)

  parse_target_lem :
      (x : ℕ) (s : Bytes) (i : ℕ) (p : Parser)
      → AllPass is_pathchar (x ∷ s)
      → Holds mem i (x ∷ s)
      → mem (i + length (x ∷ s)) ≡ b' '
      → i + length (x ∷ s) + 1 < last
      → parse_target mem last (record { parser = p; it = i })
        ≡ next (x ∷ s) (record {
          parser = record p { parse_phase = ParsePhase.parse_target_finished };
          it = i + length (x ∷ s) + 1;
        })
  unfolding parse_target
  parse_target_lem x s i p a h sp k =
      let e0 : not (is_pathchar (mem i)) ≡ false = rw (h.0, a.0) in
      let e1 : target_loop mem last (last - i) i ≡ i + length (x ∷ s) =
        target_loop_lem (x ∷ s) (last - i) i a h (rw sp path_space) (omega arith) in
      let e2 : leb last (i + length (x ∷ s) + 1) ≡ false = ground arith in
      let e3 : not (mem (i + length (x ∷ s)) == b' ') ≡ false = ground arith in
      let e4 : (i + length (x ∷ s) == last) ≡ false = ground arith in
      let n : i + length (x ∷ s) - i ≡ length (x ∷ s) = omega arith in
      rw (e0, e1, e2, e3, e4, n, slice-Holds mem i (x ∷ s) h)

  -- A well-formed request line is read whole.
  pub request_line_lem :
      (x : ℕ) (m : Bytes) (y : ℕ) (t : Bytes) (p : Parser)
      → AllPass isalpha (x ∷ m)
      → AllPass is_pathchar (y ∷ t)
      → Holds mem 0 (request_line_text (x ∷ m) (y ∷ t))
      → length (request_line_text (x ∷ m) (y ∷ t)) ≤ last
      → request_line mem last (record { parser = p; it = 0 })
        ≡ next tt (record {
          parser = record p {
            method = x ∷ m;
            target = y ∷ t;
            protocol_version = 11;
            parse_phase = ParsePhase.parse_protocol_version_finished;
          };
          it = length (request_line_text (x ∷ m) (y ∷ t));
        })
  unfolding request_line set_method set_target get_version
  request_line_lem x m y t p am a_t h k =
      let version = codes "HTTP/1.1" ++ crlf in
      let i1 = length (x ∷ m) in
      let rest = (y ∷ t) ++ (b' ' ∷ version) in
      let total : length (request_line_text (x ∷ m) (y ∷ t)) ≡ i1 + length (y ∷ t) + 12 = omega (
        arith,
        length-append {0} (x ∷ m) (b' ' ∷ rest),
        length-append {0} (y ∷ t) (b' ' ∷ version),
      ) in
      let (hm, hr) = Holds-append mem 0 i1 (x ∷ m) (b' ' ∷ rest) (omega arith) h in
      let (ht, hv) =
        Holds-append mem (suc i1) (suc i1 + length (y ∷ t)) (y ∷ t) (b' ' ∷ version) refl hr.1 in
      let (hp, hc) =
        Holds-append mem (suc (suc i1 + length (y ∷ t))) (suc (suc i1 + length (y ∷ t)) + 8)
          (codes "HTTP/1.1") crlf refl hv.1 in
      let p0 = record p { parse_phase = ParsePhase.parse_start_line_started } in
      let p1 = record p { method = x ∷ m; parse_phase = ParsePhase.parse_method_finished } in
      let j1 : 0 + i1 + 1 ≡ suc i1 = omega arith in
      let e1 = parse_method_lem x m 0 p0 am hm (rw (zero_add i1) hr.0) (omega (arith, total)) in
      let e2 = parse_target_lem y t (suc i1) p1 a_t ht hv.0 (omega (arith, total)) in
      let i2 = suc i1 + length (y ∷ t) + 1 in
      let j2 : i2 ≡ suc (suc i1 + length (y ∷ t)) = omega arith in
      let p2 = record p {
        method = x ∷ m;
        target = y ∷ t;
        parse_phase = ParsePhase.parse_target_finished;
      } in
      let e3 =
        parse_protocol_lem (record { parser = p2; it = suc (suc i1 + length (y ∷ t)) }) hp
          (omega (arith, total)) in
      let i3 = suc (suc i1 + length (y ∷ t)) + 8 in
      let long : ltb last (i3 + 2) ≡ false = ground (arith, total) in
      let ends : (not (mem i3 == 0x0d) && not (mem (i3 + 1) == 0x0a)) ≡ false = ground arith in
      let final : i3 + 2 ≡ length (request_line_text (x ∷ m) (y ∷ t)) = omega (arith, total) in
      bind_next (parse_method mem last) _ e1
      ∙ rw j1 (
          bind_next (parse_target mem last) _ e2
          ∙ rw j2 (then_next (parse_protocol mem last) _ e3 ∙ rw (long, ends, final)))
