-- ===== src/Parser/StartLine/Sound.antt =====
-- What the memory holds when `parse_start_line` of include/webcrown/server/http/http_parser.hpp
-- has accepted a request line.
use webcrown.Base.{
  ℕ, suc, ◌+◌, ◌-◌, ◌*◌, ◌≤◌, ◌<◌, ◌≡◌, refl, sym, ◌∷◌, ◌++◌, Bytes, codes, true, false, arith,
  length, ltb, AllPass, not, ◌&&◌, ◌||◌, ◌==◌, ap, ◌∙◌, Bool-cases, ◌⊎◌, inl, inr, ==_iff,
}
use webcrown.CharClass.{is_pathchar, is_digit, isalpha}
use webcrown.Http.Phase.{ParsePhase}
use webcrown.Parser.Memory.{Memory, Holds, Holds-join}
use webcrown.Parser.Defs.{Parser, Cursor, at, in_phase, next, bind_inv, then_inv}
use webcrown.Parser.StartLine.{
  parse_method, parse_target, parse_protocol, request_line, set_method, set_target, get_version,
}
use webcrown.Parser.StartLine.Inverse.{
  fails, parse_method_inv, parse_target_inv, parse_protocol_inv,
}

-- The digits of a version that is accepted.
version_digits :
    (a b : ℕ)
    → is_digit a ≡ true
    → is_digit b ≡ true
    → (ltb (10 * (a - b'0') + (b - b'0')) 11 || ltb 11 (10 * (a - b'0') + (b - b'0'))) ≡ false
    → (a ≡ b'1') × (b ≡ b'1')
unfolding is_digit
version_digits a b h k e = ground arith

-- The parser behind the version, and behind the whole line.
abbrev accepted_at : ℕ → Bytes → Parser → Parser
accepted_at v t p = record p {
  target = t;
  protocol_version = v;
  parse_phase = ParsePhase.parse_protocol_version_finished;
}

abbrev accepted : Bytes → Bytes → Parser → Parser
accepted m t p = accepted_at 11 t (record p { method = m })

line_end :
    (mem : Memory) (i n : ℕ)
    → i ≡ n + 10
    → (not (mem i == 0x0d) && not (mem (i + 1) == 0x0a)) ≡ false
    → (mem (n + 10) ≡ 0x0d) ⊎ (mem (n + 11) ≡ 0x0a)
line_end mem i n e h =
    let k : i + 1 ≡ n + 11 = omega arith in
    elim (Bool-cases (mem i == 0x0d)) [
      | inl f ↦ inl (ap mem (sym e) ∙ (==_iff (mem i) 0x0d).0 f)
      | inr f ↦ inr (ap mem (sym k) ∙ (==_iff (mem (i + 1)) 0x0a).0 (ground arith))
    ]

test_leb : (last i n : ℕ) → i + 2 ≡ n → ltb last (i + 2) ≡ false → n ≤ last
test_leb last i n e h = ground arith

module _ (mem : Memory) (last : ℕ) where
  abbrev with_method : Bytes → Cursor → Cursor
  with_method m c = record { parser = record (c.parser) { method = m }; it = c.it }

  abbrev with_target : Bytes → Cursor → Cursor
  with_target t c = record { parser = record (c.parser) { target = t }; it = c.it }

  -- The three parts of a request line, one behind the other, and the tests behind them.
  record Steps (p : Parser) (c : Cursor) : Type 0 where
    m : Bytes
    t : Bytes
    c1 : Cursor
    c3 : Cursor
    c5 : Cursor
    method_read :
        parse_method mem last
          (in_phase (record { parser = p; it = 0 }) ParsePhase.parse_start_line_started)
        ≡ next m c1
    target_read : parse_target mem last (with_method m c1) ≡ next t c3
    protocol_read : parse_protocol mem last (with_target t c3) ≡ next tt c5
    version_test : (ltb c5.parser.protocol_version 11 || ltb 11 c5.parser.protocol_version) ≡ false
    room_test : ltb last (c5.it + 2) ≡ false
    line_test : (not (mem c5.it == 0x0d) && not (mem (c5.it + 1) == 0x0a)) ≡ false
    end_read : c ≡ at c5 (c5.it + 2)

  request_line-Steps :
      (p : Parser) (c : Cursor)
      → request_line mem last (record { parser = p; it = 0 }) ≡ next tt c
      → Steps p c
  unfolding request_line set_method set_target get_version
  request_line-Steps p c h =
      let (m, c1, s1, h1) = bind_inv (parse_method mem last) _ _ c tt h in
      let (t, c3, s2, h2) = bind_inv (parse_target mem last) _ (with_method m c1) c tt h1 in
      let (u, c5, s3, h3) = then_inv (parse_protocol mem last) _ (with_target t c3) c tt h2 in
      let v = c5.parser.protocol_version in
      let f1 = fails (ltb v 11 || ltb 11 v) (λ e. cc (rw e at h3)) in
      let h4 = rw f1 at h3 in
      let f2 = fails (ltb last (c5.it + 2)) (λ e. cc (rw e at h4)) in
      let h5 = rw f2 at h4 in
      let f3 =
        fails (not (mem c5.it == 0x0d) && not (mem (c5.it + 1) == 0x0a)) (λ e. cc (rw e at h5)) in
      let h6 = rw f3 at h5 in
      record {
        m = m;
        t = t;
        c1 = c1;
        c3 = c3;
        c5 = c5;
        method_read = s1;
        target_read = s2;
        protocol_read = s3;
        version_test = f1;
        room_test = f2;
        line_test = f3;
        end_read = cc h6;
      }

  -- A request line that is accepted is a method of letters, a target of path characters and
  -- HTTP/1.1, with a blank between each two, and behind it a byte that is CR before any other, or
  -- any other before a byte that is LF; the parser has taken the method, the target and the
  -- version, and its pointer is behind the two bytes, at the end of the buffer or before.
  pub request_line_inv :
      (p : Parser) (c : Cursor)
      → request_line mem last (record { parser = p; it = 0 }) ≡ next tt c
      → (m : Bytes) × (t : Bytes) × AllPass isalpha m
        × AllPass is_pathchar t
        × (0 < length m)
        × (0 < length t)
        × Holds mem 0 (m ++ (b' ' ∷ (t ++ (b' ' ∷ codes "HTTP/1.1"))))
        × ((mem (length m + length t + 10) ≡ 0x0d) ⊎ (mem (length m + length t + 11) ≡ 0x0a))
        × (length m + length t + 12 ≤ last)
        × (c ≡ record {
          parser = record p {
            method = m;
            target = t;
            protocol_version = 11;
            parse_phase = ParsePhase.parse_protocol_version_finished;
          };
          it = length m + length t + 12;
        })
  request_line_inv p c h =
      let s = request_line-Steps p c h in
      let (am, (lm, hm, bm, im, e1)) = parse_method_inv mem last _ s.c1 s.m s.method_read in
      let (a_t, (lt, ht, bt, it, e2)) = parse_target_inv mem last _ s.c3 s.t s.target_read in
      let (major, minor, hv, d1, d2, e3) = parse_protocol_inv mem last _ s.c5 s.protocol_read in
      let n1 : s.c1.it ≡ suc (length s.m) = omega (arith, ap Cursor.it e1) in
      let n3 : s.c3.it ≡ suc (suc (length s.m) + length s.t) = omega (arith, n1, ap Cursor.it e2) in
      let n5 : s.c5.it ≡ length s.m + length s.t + 10 = omega (arith, n3, ap Cursor.it e3) in
      let ver : s.c5.parser.protocol_version ≡ 10 * (major - b'0') + (minor - b'0') =
        ap (λ (x : Cursor). x.parser.protocol_version) e3 in
      let (v1, v2) = version_digits major minor d1 d2 (rw ver at s.version_test) in
      let text = codes "HTTP/1.1" in
      let h3 : Holds mem s.c3.it text = rw (v1, v2) at hv in
      let k3 : suc (s.c1.it + length s.t) ≡ s.c3.it = omega (arith, n1, n3) in
      let k0 : 0 + length s.m ≡ length s.m = omega arith in
      let h2 : Holds mem s.c1.it (s.t ++ (b' ' ∷ text)) =
        Holds-join mem s.c1.it (s.c1.it + length s.t) s.t (b' ' ∷ text) refl ht (bt, rw k3 h3) in
      let h1 : Holds mem 0 (s.m ++ (b' ' ∷ (s.t ++ (b' ' ∷ text)))) =
        Holds-join mem 0 (length s.m) s.m (b' ' ∷ (s.t ++ (b' ' ∷ text))) k0 hm
          (rw k0 at bm, rw (← n1) h2) in
      let q1 : s.c1.parser ≡ record p { parse_phase = ParsePhase.parse_method_finished } =
        ap Cursor.parser e1 in
      let q3 : s.c3.parser
          ≡ record p { method = s.m; parse_phase = ParsePhase.parse_target_finished } =
        ap Cursor.parser e2
        ∙ ap
            (λ (q : Parser). record q {
              method = s.m;
              parse_phase = ParsePhase.parse_target_finished;
            })
            q1 in
      let q5 : s.c5.parser ≡ accepted s.m s.t p =
        ap Cursor.parser e3
        ∙ ap (accepted_at (10 * (major - b'0') + (minor - b'0')) s.t) q3
        ∙ (λ i. accepted_at (10 * (v1 i - b'0') + (v2 i - b'0')) s.t (record p { method = s.m })) in
      let n6 : s.c5.it + 2 ≡ length s.m + length s.t + 12 = omega (arith, n5) in
      (
        s.m,
        s.t,
        am,
        a_t,
        lm,
        lt,
        h1,
        line_end mem s.c5.it (length s.m + length s.t) n5 s.line_test,
        test_leb last s.c5.it _ n6 s.room_test,
        s.end_read ∙ (λ i. record { parser = q5 i; it = n6 i }),
      )
