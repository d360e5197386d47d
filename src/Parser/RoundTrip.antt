-- ===== src/Parser/RoundTrip.antt =====
-- `parser::parse` on the text of a request, in one buffer or with its body in a second one.
use webcrown.Base.{
  ℕ, ◌+◌, ◌≡◌, refl, List, [], ◌∷◌, ◌++◌, Bytes, true, false, arith, length, length-append, leb,
  ◌&&◌, ◌==◌, ◌≢◌, ◌∙◌, none, some, Bool-cases, inl, inr,
}
use webcrown.Http.Method.{to_method}
use webcrown.Http.Request.{with_body}
use webcrown.Http.Phase.{ParsePhase}
use webcrown.Parser.Memory.{Memory, make_string, Holds}
use webcrown.Parser.Text.{crlf, header_text, headers_text, stored}
use webcrown.Parser.Defs.{Parser, new_parser}
use webcrown.Parser.Headers.{content_type_of}
use webcrown.Parser.MediaType.{MediaState, with_phase}
use webcrown.Parser.Parse.{
  returned, BodyKind, body_kind, parse_body, read_body, body_is_pending, after_start,
  is_empty_start, parse,
}
use webcrown.Parser.Reading.{
  length-request, body_text, request_text, read_parser, announces, IsRequest, body_start, start_lem,
}

-- The call of `parse` once the start line and the headers are read.
pub parse_headers_read :
    (m t : Bytes) (hs : List (Bytes × Bytes)) (body : Bytes) (mem : Memory)
    → IsRequest m t hs
    → Holds mem 0 (request_text m t hs body)
    → parse new_parser mem (length (request_text m t hs body))
      ≡ after_start mem
          (length (request_text m t hs body))
          ParsePhase.parse_content_type_finished
          (record {
            parser = read_parser m t (stored hs []) ParsePhase.parse_content_type_finished;
            it = body_start m t hs;
            ec = none;
          })
unfolding parse is_empty_start new_parser
parse_headers_read m t hs body mem r held =
    let e = start_lem m t hs body mem r held in
    let some_bytes : (length (request_text m t hs body) == 0) ≡ false =
      ground (arith, length-request mem m t hs body) in
    rw (some_bytes, e)

pub body_start_size :
    (m t : Bytes) (hs : List (Bytes × Bytes)) (body : Bytes) (mem : Memory)
    → hs ≢ []
    → length (request_text m t hs body) ≡ body_start m t hs + 4 + length body
body_start_size m t [] body mem ne = absurd (ne refl)
body_start_size m t (h ∷ hs) body mem ne = omega (
  arith,
  length-request mem m t (h ∷ hs) body,
  length-append {0} (header_text h) (crlf ++ headers_text hs),
)

pub body_is_pending_lem :
    (mem : Memory) (last i : ℕ) (p : Parser)
    → body_is_pending mem last (record { parser = p; it = i; ec = none })
      ≡ (announces p.headers && leb last (i + 4))
unfolding body_is_pending
body_is_pending_lem mem last i p = ground arith

pub body_text_of :
    (mem : Memory) (m t : Bytes) (hs : List (Bytes × Bytes)) (body : Bytes)
    → hs ≢ []
    → Holds mem 0 (request_text m t hs body)
    → make_string mem (body_start m t hs) (length (request_text m t hs body))
      ≡ some (crlf ++ (crlf ++ body))
body_text_of mem m t [] body ne held = absurd (ne refl)
body_text_of mem m t (h ∷ hs) body ne held = body_text mem m t h hs body held

pub has_body : (body : Bytes) (n : ℕ) → body ≢ [] → leb (n + length body) n ≡ false
has_body [] n ne = absurd (ne refl)
has_body (c ∷ body) n ne = ground arith

pub not_pending :
    (m t : Bytes) (hs : List (Bytes × Bytes)) (body : Bytes) (mem : Memory)
    → hs ≢ []
    → (announces (stored hs []) ≡ true → body ≢ [])
    → (announces (stored hs []) && leb (length (request_text m t hs body)) (body_start m t hs + 4))
      ≡ false
not_pending m t hs body mem ne full = elim (Bool-cases (announces (stored hs []))) [
  | inl e ↦ rw (e, body_start_size m t hs body mem ne) (has_body body _ (full e))
  | inr e ↦ rw e
]

pub parse_body_lem :
    (mem : Memory) (last : ℕ) (s : MediaState) (b : Bytes)
    → make_string mem s.it last ≡ some b
    → parse_body mem last s
      ≡ returned
          (some (
            with_body
              (to_method s.parser.method)
              s.parser.protocol_version
              s.parser.target
              s.parser.headers
              b))
          (with_phase s.parser ParsePhase.finished)
          s.ec
unfolding parse_body
parse_body_lem mem last s b h = rw (h, parse_body)

-- A request in one buffer: it is read into its method, target, version 1.1 and headers, and the
-- parser is finished with no error, if its content type is one whose body is text and a length
-- that its headers announce comes with a body. The body that is handed on begins with the CRLF of
-- the last header and that of the blank line. This holds whatever lies in memory behind the buffer.
pub parse-request_text :
    (m t : Bytes) (hs : List (Bytes × Bytes)) (body : Bytes) (mem : Memory)
    → IsRequest m t hs
    → body_kind (content_type_of (stored hs [])) ≡ BodyKind.plain
    → (announces (stored hs []) ≡ true → body ≢ [])
    → Holds mem 0 (request_text m t hs body)
    → parse new_parser mem (length (request_text m t hs body))
      ≡ returned
          (some (with_body (to_method m) 11 t (stored hs []) (crlf ++ (crlf ++ body))))
          (read_parser m t (stored hs []) ParsePhase.finished)
          none
unfolding after_start read_body
parse-request_text m t hs body mem r kind full held =
    let p = read_parser m t (stored hs []) ParsePhase.parse_content_type_finished in
    let size = length (request_text m t hs body) in
    parse_headers_read m t hs body mem r held
    ∙ rw
        (
          body_is_pending_lem mem size (body_start m t hs) p,
          not_pending m t hs body mem r.some_header full,
          kind,
        )
        (parse_body_lem mem size (record { parser = p; it = body_start m t hs; ec = none }) _
          (body_text_of mem m t hs body r.some_header held))
