-- ===== src/Parser/StartLine/Inverse.antt =====
-- What holds when `parse_method`, `parse_target` or `parse_protocol` of
-- include/webcrown/server/http/http_parser.hpp has read its part without an error.
use webcrown.Base.{
  ℕ, zero, suc, ◌+◌, ◌-◌, ◌*◌, ◌<◌, ◌≡◌, ◌≢◌, refl, sym, [], ◌∷◌, Bytes, true, false, arith, length,
  leb, ltb, AllPass, not, ◌==◌, ap, ◌∙◌, Bool, Bool-cases, inl, inr, ==_iff,
}
use webcrown.CharClass.{is_token_char, is_pathchar, is_digit, isalpha, isspace}
use webcrown.Parser.StartLine.Laws.{path_space}
use webcrown.Http.Phase.{ParsePhase}
use webcrown.Parser.Memory.{Memory, Holds, slice-Holds, slice}
use webcrown.Parser.Defs.{Cursor, at, in_phase, next, M, ◌>>=◌, ◌>>◌, bind_inv, then_inv}
use webcrown.Parser.StartLine.{
  method_loop, parse_method, target_loop, parse_target, expect, digit, set_version, parse_protocol,
}

pub fails : (b : Bool) → ¬ (b ≡ true) → b ≡ false
fails true h = absurd (h refl)
fails false h = refl

space_ne : (c : ℕ) → isspace c ≡ false → c ≢ b' '
unfolding isspace
space_ne c h e = ground arith

path_ne : (c : ℕ) → is_pathchar c ≡ true → c ≢ b' '
path_ne c h e = cc (sym h ∙ ap is_pathchar e ∙ path_space)

is_long : (s : Bytes) (i end : ℕ) → end ≡ i + length s → end ≢ i → 0 < length s
is_long s i end e ne = ground arith

module _ (mem : Memory) (last : ℕ) where
  -- The loop ends behind letters.
  method_loop_inv :
      (n it : ℕ)
      → (method_loop mem last n it).1 ≡ false
      → (s : Bytes) × ((method_loop mem last n it).0 ≡ it + length s)
        × AllPass isalpha s
        × Holds mem it s
  unfolding method_loop
  method_loop_inv zero it h = ([], omega arith, tt, tt)
  method_loop_inv (suc n) it h = elim (Bool-cases (is_token_char (mem it))) [
    | inr e ↦ rw e ([], omega arith, tt, tt)
    | inl e ↦ elim (Bool-cases (isalpha (mem it))) [
      | inr f ↦ cc (rw (e, f) at h)
      | inl f ↦
          let (s, i, a, k) = method_loop_inv n (suc it) (rw (e, f) at h) in
          rw (e, f) (mem it ∷ s, omega (arith, i), (f, a), (refl, k))
    ]
  ]

  target_loop_inv :
      (n it : ℕ)
      → (s : Bytes) × (target_loop mem last n it ≡ it + length s)
        × AllPass is_pathchar s
        × Holds mem it s
  unfolding target_loop
  target_loop_inv zero it = ([], omega arith, tt, tt)
  target_loop_inv (suc n) it = elim (Bool-cases (is_pathchar (mem it))) [
    | inr e ↦ rw e ([], omega arith, tt, tt)
    | inl e ↦
        let (s, i, a, k) = target_loop_inv n (suc it) in
        rw e (mem it ∷ s, omega (arith, i), (e, a), (refl, k))
  ]

  -- A word that ends in a blank, and the cursor behind it.
  abbrev pub Word : ParsePhase → Cursor → Bytes → Cursor → Type 0
  Word phase c s d =
      (0 < length s)
      × Holds mem c.it s
      × (mem (c.it + length s) ≡ b' ')
      × (c.it + length s + 1 < last)
      × (d ≡ at (in_phase c phase) (c.it + length s + 1))

  Word-of :
      (phase : ParsePhase) (c d : Cursor) (s : Bytes) (end : ℕ)
      → end ≡ c.it + length s
      → mem c.it ≢ b' '
      → Holds mem c.it s
      → leb last (end + 1) ≡ false
      → (mem end == b' ') ≡ true
      → d ≡ at (in_phase c phase) (end + 1)
      → Word phase c s d
  Word-of phase c d s end i ne k e f g = (
    is_long s c.it end i (λ e. ne (ap mem (sym e) ∙ (==_iff (mem end) b' ').0 f)),
    k,
    sym (ap mem i) ∙ (==_iff (mem end) b' ').0 f,
    ground arith,
    g ∙ ap (λ (j : ℕ). at (in_phase c phase) (j + 1)) i,
  )

  parse_method_tests :
      (c d : Cursor) (s : Bytes)
      → parse_method mem last c ≡ next s d
      → (isspace (mem c.it) ≡ false)
        × ((method_loop mem last (last - c.it) c.it).1 ≡ false)
        × (leb last ((method_loop mem last (last - c.it) c.it).0 + 1) ≡ false)
        × ((mem (method_loop mem last (last - c.it) c.it).0 == b' ') ≡ true)
        × (s ≡ slice mem c.it ((method_loop mem last (last - c.it) c.it).0 - c.it))
        × (d
            ≡ at
                (in_phase c ParsePhase.parse_method_finished)
                ((method_loop mem last (last - c.it) c.it).0 + 1))
  unfolding parse_method
  parse_method_tests c d s h =
      let end = method_loop mem last (last - c.it) c.it in
      let e1 = fails (isspace (mem c.it)) (λ e. cc (rw e at h)) in
      let h1 = rw e1 at h in
      let e2 = fails (end.1) (λ e. cc (rw e at h1)) in
      let h2 = rw e2 at h1 in
      let e3 = fails (leb last (end.0 + 1)) (λ e. cc (rw e at h2)) in
      let h3 = rw e3 at h2 in
      let e4 = fails (not (mem (end.0) == b' ')) (λ e. cc (rw e at h3)) in
      let h4 = rw e4 at h3 in
      let e5 = fails (end.0 == last) (λ e. cc (rw e at h4)) in
      let h5 = rw e5 at h4 in (e1, e2, e3, ground arith, cc (h5), cc (h5))

  pub parse_method_inv :
      (c d : Cursor) (s : Bytes)
      → parse_method mem last c ≡ next s d
      → AllPass isalpha s × Word ParsePhase.parse_method_finished c s d
  parse_method_inv c d s h =
      let (e1, e2, e3, e4, e5, e6) = parse_method_tests c d s h in
      let (t, i, a, k) = method_loop_inv (last - c.it) c.it e2 in
      let n : c.it + length t - c.it ≡ length t = omega arith in
      let same : s ≡ t = e5 ∙ rw (i, n) (slice-Holds mem c.it t k) in
      rw same
        (a, Word-of ParsePhase.parse_method_finished c d t _ i (space_ne (mem c.it) e1) k e3 e4 e6)

  parse_target_tests :
      (c d : Cursor) (s : Bytes)
      → parse_target mem last c ≡ next s d
      → (is_pathchar (mem c.it) ≡ true)
        × (leb last (target_loop mem last (last - c.it) c.it + 1) ≡ false)
        × ((mem (target_loop mem last (last - c.it) c.it) == b' ') ≡ true)
        × (s ≡ slice mem c.it (target_loop mem last (last - c.it) c.it - c.it))
        × (d
            ≡ at
                (in_phase c ParsePhase.parse_target_finished)
                (target_loop mem last (last - c.it) c.it + 1))
  unfolding parse_target
  parse_target_tests c d s h =
      let end = target_loop mem last (last - c.it) c.it in
      let e1 = fails (not (is_pathchar (mem c.it))) (λ e. cc (rw e at h)) in
      let h1 = rw e1 at h in
      let e2 = fails (leb last (end + 1)) (λ e. cc (rw e at h1)) in
      let h2 = rw e2 at h1 in
      let e3 = fails (not (mem end == b' ')) (λ e. cc (rw e at h2)) in
      let h3 = rw e3 at h2 in
      let e4 = fails (end == last) (λ e. cc (rw e at h3)) in
      let h4 = rw e4 at h3 in (ground arith, e2, ground arith, cc h4, cc h4)

  pub parse_target_inv :
      (c d : Cursor) (s : Bytes)
      → parse_target mem last c ≡ next s d
      → AllPass is_pathchar s × Word ParsePhase.parse_target_finished c s d
  parse_target_inv c d s h =
      let (e1, e2, e3, e4, e5) = parse_target_tests c d s h in
      let (t, i, a, k) = target_loop_inv (last - c.it) c.it in
      let n : c.it + length t - c.it ≡ length t = omega arith in
      let same : s ≡ t = e4 ∙ rw (i, n) (slice-Holds mem c.it t k) in
      rw same
        (a, Word-of ParsePhase.parse_target_finished c d t _ i (path_ne (mem c.it) e1) k e2 e3 e5)

  expect_inv :
      (ch : ℕ) (c d : Cursor)
      → expect mem last ch c ≡ next tt d
      → (mem c.it ≡ ch) × (d ≡ at c (c.it + 1))
  unfolding expect
  expect_inv ch c d h =
      let e1 = fails (not (mem c.it == ch)) (λ e. cc (rw e at h)) in
      let h1 = rw e1 at h in (ground arith, cc h1)

  digit_inv :
      (c d : Cursor) (n : ℕ)
      → digit mem last c ≡ next n d
      → (is_digit (mem c.it) ≡ true) × (n ≡ mem c.it - b'0') × (d ≡ at c (c.it + 1))
  unfolding digit
  digit_inv c d n h =
      let e1 = fails (not (is_digit (mem c.it))) (λ e. cc (rw e at h)) in
      let h1 = rw e1 at h in (ground arith, cc h1, cc h1)

  expects :
      {B : Type 0} (ch : ℕ) (k : M B) (c d : Cursor) (b : B)
      → (expect mem last ch >> k) c ≡ next b d
      → (mem c.it ≡ ch) × (k (at c (suc c.it)) ≡ next b d)
  expects ch k c d b h =
      let (u, i, e, h1) = then_inv (expect mem last ch) k c d b h in
      let (f, g) = expect_inv ch c i e in
      let step : c.it + 1 ≡ suc c.it = omega arith in (f, rw (← step, ← g) h1)

  digits :
      {B : Type 0} (k : ℕ → M B) (c d : Cursor) (b : B)
      → (digit mem last >>= k) c ≡ next b d
      → (is_digit (mem c.it) ≡ true) × (k (mem c.it - b'0') (at c (suc c.it)) ≡ next b d)
  digits k c d b h =
      let (n, i, e, h1) = bind_inv (digit mem last) k c d b h in
      let (f, v, g) = digit_inv c i n e in
      let step : c.it + 1 ≡ suc c.it = omega arith in (f, rw (← step, ← g, ← v) h1)

  -- `HTTP/`, two digits with a point between them, and the version that they give.
  pub parse_protocol_inv :
      (c d : Cursor)
      → parse_protocol mem last c ≡ next tt d
      → (major : ℕ) × (minor : ℕ) × Holds mem c.it
          (b'H' ∷ b'T' ∷ b'T' ∷ b'P' ∷ b'/' ∷ major ∷ b'.' ∷ minor ∷ [])
        × (is_digit major ≡ true)
        × (is_digit minor ≡ true)
        × (d ≡ record {
          parser = record (c.parser) {
            protocol_version = 10 * (major - b'0') + (minor - b'0');
            parse_phase = ParsePhase.parse_protocol_version_finished;
          };
          it = c.it + 8;
        })
  unfolding parse_protocol set_version
  parse_protocol_inv c d h =
      let c0 = in_phase c ParsePhase.parse_protocol_version in
      let e1 = fails (ltb last (c.it + 8)) (λ e. cc (rw e at h)) in
      let h1 = rw e1 at h in
      let (m1, h2) = expects b'H' _ c0 d tt h1 in
      let (m2, h3) = expects b'T' _ _ d tt h2 in
      let (m3, h4) = expects b'T' _ _ d tt h3 in
      let (m4, h5) = expects b'P' _ _ d tt h4 in
      let (m5, h6) = expects b'/' _ _ d tt h5 in
      let (m6, h7) = digits _ _ d tt h6 in
      let (m7, h8) = expects b'.' _ _ d tt h7 in
      let (m8, h9) = digits _ _ d tt h8 in
      let far : c.it + 8 ≡ suc (suc (suc (suc (suc (suc (suc (suc c.it))))))) = omega arith in
      (_, _, (m1, (m2, (m3, (m4, (m5, (refl, (m7, (refl, tt)))))))), m6, m8, rw far (cc h9))
