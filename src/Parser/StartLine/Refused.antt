-- ===== src/Parser/StartLine/Refused.antt =====
-- In which phase `parse_start_line` of include/webcrown/server/http/http_parser.hpp leaves the
-- parser when it refuses the request line.
use webcrown.Base.{
  ℕ, suc, ◌+◌, ◌-◌, ◌≡◌, ◌==◌, ◌⊎◌, ◌&&◌, ◌||◌, not, leb, ltb, arith, ap, subst, Bool-cases, inl,
  inr,
}
use webcrown.CharClass.{is_digit, isspace, is_pathchar}
use webcrown.Parser.StartLine.Inverse.{parse_protocol_inv}
use webcrown.Http.Error.{HttpError}
use webcrown.Http.Phase.{ParsePhase}
use webcrown.Parser.Memory.{Memory}
use webcrown.Parser.Defs.{
  Parser, bind_stop_inv, then_stop_inv, Cursor, Flow, next, stop, M, ◌>>=◌, ◌>>◌, at, in_phase,
}
use webcrown.Parser.StartLine.{
  method_loop, target_loop, parse_method, parse_target, expect, digit, set_version, parse_protocol,
  set_method, set_target, get_version, request_line,
}

-- The phases that a start line which is refused leaves behind.
pub data IsRefused : ParsePhase → Type 0 where
  in_method : IsRefused ParsePhase.parse_method
  in_target : IsRefused ParsePhase.parse_target
  in_version : IsRefused ParsePhase.parse_protocol_version
  behind_version : IsRefused ParsePhase.parse_protocol_version_finished

abbrev phase_of {ℓ} : {A : Type ℓ} → Flow A → ParsePhase
phase_of (next a d) = d.parser.parse_phase
phase_of (stop e d) = d.parser.parse_phase

stopped_in {ℓ} :
    {A : Type ℓ} {e k : HttpError} {c d : Cursor}
    → IsRefused c.parser.parse_phase
    → Path (Flow A) (stop e c) (stop k d)
    → IsRefused d.parser.parse_phase
stopped_in i h = subst IsRefused (ap phase_of h) i

module _ (mem : Memory) (last : ℕ) where
  parse_method-IsRefused :
      (c d : Cursor) (k : HttpError)
      → parse_method mem last c ≡ stop k d
      → IsRefused d.parser.parse_phase
  unfolding parse_method
  parse_method-IsRefused c d k h =
      let end = method_loop mem last (last - c.it) c.it in
      elim (Bool-cases (isspace (mem c.it))) [
        | inl e ↦ stopped_in in_method (rw e at h)
        | inr e ↦
            let h1 = rw e at h in
            elim (Bool-cases (end.1)) [
              | inl e ↦ stopped_in in_method (rw e at h1)
              | inr e ↦
                  let h2 = rw e at h1 in
                  elim (Bool-cases (leb last (end.0 + 1))) [
                    | inl e ↦ stopped_in in_method (rw e at h2)
                    | inr e ↦
                        let h3 = rw e at h2 in
                        elim (Bool-cases (not (mem (end.0) == b' '))) [
                          | inl e ↦ stopped_in in_method (rw e at h3)
                          | inr e ↦
                              let h4 = rw e at h3 in
                              elim (Bool-cases (end.0 == last)) [
                                | inl e ↦ stopped_in in_method (rw e at h4)
                                | inr e ↦ cc (rw e at h4)
                              ]
                        ]
                  ]
            ]
      ]

  parse_target-IsRefused :
      (c d : Cursor) (k : HttpError)
      → parse_target mem last c ≡ stop k d
      → IsRefused d.parser.parse_phase
  unfolding parse_target
  parse_target-IsRefused c d k h =
      let end = target_loop mem last (last - c.it) c.it in
      elim (Bool-cases (not (is_pathchar (mem c.it)))) [
        | inl e ↦ stopped_in in_target (rw e at h)
        | inr e ↦
            let h1 = rw e at h in
            elim (Bool-cases (leb last (end + 1))) [
              | inl e ↦ stopped_in in_target (rw e at h1)
              | inr e ↦
                  let h2 = rw e at h1 in
                  elim (Bool-cases (not (mem end == b' '))) [
                    | inl e ↦ stopped_in in_target (rw e at h2)
                    | inr e ↦
                        let h3 = rw e at h2 in
                        elim (Bool-cases (end == last)) [
                          | inl e ↦ stopped_in in_target (rw e at h3)
                          | inr e ↦ cc (rw e at h3)
                        ]
                  ]
            ]
      ]

  -- `HTTP/x.y`: a character that is refused, or what follows it.
  expects_or :
      {B : Type 0} (ch : ℕ) (k : M B) (c d : Cursor) (x : HttpError)
      → (expect mem last ch >> k) c ≡ stop x d
      → IsRefused c.parser.parse_phase
      → IsRefused d.parser.parse_phase ⊎ (k (at c (suc c.it)) ≡ stop x d)
  unfolding expect
  expects_or ch k c d x h i = elim (Bool-cases (mem c.it == ch)) [
    | inr e ↦ inl (stopped_in i (rw (e, ◌>>◌, expect) at h))
    | inl e ↦
        let step : c.it + 1 ≡ suc c.it = omega arith in
        let h1 = rw (e, ◌>>◌, expect) at h in inr (rw (← step) h1)
  ]

  digits_or :
      {B : Type 0} (k : ℕ → M B) (c d : Cursor) (x : HttpError)
      → (digit mem last >>= k) c ≡ stop x d
      → IsRefused c.parser.parse_phase
      → IsRefused d.parser.parse_phase ⊎ (k (mem c.it - b'0') (at c (suc c.it)) ≡ stop x d)
  unfolding digit
  digits_or k c d x h i = elim (Bool-cases (is_digit (mem c.it))) [
    | inr e ↦ inl (stopped_in i (rw (e, ◌>>=◌, digit) at h))
    | inl e ↦
        let step : c.it + 1 ≡ suc c.it = omega arith in
        let h1 = rw (e, ◌>>=◌, digit) at h in inr (rw (← step) h1)
  ]

  or_from : {P Q : Type 0} → P ⊎ Q → (Q → P) → P
  or_from (inl p) f = p
  or_from (inr q) f = f q

  parse_protocol-IsRefused :
      (c d : Cursor) (x : HttpError)
      → parse_protocol mem last c ≡ stop x d
      → IsRefused d.parser.parse_phase
  unfolding parse_protocol set_version
  parse_protocol-IsRefused c d x h =
      let c0 = in_phase c ParsePhase.parse_protocol_version in
      elim (Bool-cases (ltb last (c.it + 8))) [
        | inl e ↦ stopped_in in_version (rw e at h)
        | inr e ↦
            let h1 = rw e at h in
            or_from (expects_or b'H' _ c0 d x h1 in_version) λ h2.
              or_from (expects_or b'T' _ _ d x h2 in_version) λ h3.
                or_from (expects_or b'T' _ _ d x h3 in_version) λ h4.
                  or_from (expects_or b'P' _ _ d x h4 in_version) λ h5.
                    or_from (expects_or b'/' _ _ d x h5 in_version) λ h6.
                      or_from (digits_or _ _ d x h6 in_version) λ h7.
                        or_from (expects_or b'.' _ _ d x h7 in_version)
                          λ h8. or_from (digits_or _ _ d x h8 in_version) λ h9. cc h9
      ]

  behind_protocol :
      (c d : Cursor) → parse_protocol mem last c ≡ next tt d → IsRefused d.parser.parse_phase
  behind_protocol c d h =
      let (a, b, k, y, z, e) = parse_protocol_inv mem last c d h in rw e behind_version

  -- A request line that is refused leaves the parser in the phase of the part that was refused.
  pub request_line-IsRefused :
      (p : Parser) (d : Cursor) (x : HttpError)
      → request_line mem last (record { parser = p; it = 0 }) ≡ stop x d
      → IsRefused d.parser.parse_phase
  unfolding request_line set_method set_target get_version
  request_line-IsRefused p d x h = elim (bind_stop_inv (parse_method mem last) _ _ d x h) [
    | inl e ↦ parse_method-IsRefused _ d x e
    | inr (m, c1, s1, h1) ↦ elim (bind_stop_inv (parse_target mem last) _ _ d x h1) [
      | inl e ↦ parse_target-IsRefused _ d x e
      | inr (t, c3, s2, h2) ↦ elim (then_stop_inv (parse_protocol mem last) _ _ d x h2) [
        | inl e ↦ parse_protocol-IsRefused _ d x e
        | inr (u, c5, s3, h3) ↦
            let i = behind_protocol _ c5 s3 in
            let v = c5.parser.protocol_version in
            elim (Bool-cases (ltb v 11 || ltb 11 v)) [
              | inl e ↦ stopped_in i (rw e at h3)
              | inr e ↦
                  let h4 = rw e at h3 in
                  elim (Bool-cases (ltb last (c5.it + 2))) [
                    | inl e ↦ stopped_in i (rw e at h4)
                    | inr e ↦
                        let h5 = rw e at h4 in
                        elim (Bool-cases
                          (not (mem c5.it == 0x0d) && not (mem (c5.it + 1) == 0x0a))) [
                            | inl e ↦ stopped_in i (rw e at h5)
                            | inr e ↦ cc (rw e at h5)
                          ]
                  ]
            ]
      ]
    ]
  ]
