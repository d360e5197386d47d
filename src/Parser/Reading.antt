-- ===== src/Parser/Reading.antt =====
-- The start line and the headers of a request's text, as `parse_start_line` reads them.
use webcrown.Base.{
  ℕ, ◌+◌, ◌-◌, ◌≤◌, ◌≡◌, refl, List, [], ◌∷◌, ◌++◌, Bytes, codes, Bool, true, false, arith, length,
  length-append, ltb, AllPass, ap, ◌≢◌, sym, ◌∙◌, none, some, StringMap, append_assoc, lookup,
  is_positive,
}
use webcrown.CharClass.{is_pathchar, isalpha}
use webcrown.Cstdlib.{atoi}
use webcrown.Http.Phase.{ParsePhase}
use webcrown.Parser.Memory.{Memory, make_string, make_string-Holds, Holds, Holds-append}
use webcrown.Parser.Text.{crlf, request_line_text, header_text, headers_text, stored}
use webcrown.Parser.Defs.{Parser, new_parser}
use webcrown.Parser.StartLine.Laws.{request_line_lem}
use webcrown.Parser.Headers.{
  parse_message_header, parse_content_type, content_type_of, is_supported, headers_part,
  parse_start_line,
}
use webcrown.Parser.Headers.Laws.{AllHeaders, header_loop_lem}
use webcrown.Parser.MediaType.{with_phase}
use webcrown.Parser.Parse.{start}

-- Request line, headers, blank line and body.
abbrev pub request_text : Bytes → Bytes → List (Bytes × Bytes) → Bytes → Bytes
request_text method target headers body =
    request_line_text method target ++ (headers_text headers ++ (crlf ++ body))

-- The parser once it has read a start line and headers.
abbrev pub read_parser : Bytes → Bytes → StringMap → ParsePhase → Parser
read_parser method target headers phase = record {
  parse_phase = phase;
  method = method;
  target = target;
  protocol_version = 11;
  headers = headers;
  uploads = [];
  header_content_type = content_type_of headers;
  buffer_size_readed = 0;
  multipart_buffer = [];
  boundary_value_length = 0;
  boundary_value = [];
  upload_body_headers = [];
}

-- A positive content length.
abbrev pub announces : StringMap → Bool
announces headers = elim (lookup (codes "content-length") headers) [
  | none ↦ false
  | some value ↦ is_positive (atoi value)
]

module _ (mem : Memory) (last : ℕ) where
  start_line_lem :
      (x : ℕ) (m : Bytes) (y : ℕ) (t : Bytes) (h : Bytes × Bytes) (hs : List (Bytes × Bytes))
      (j : ℕ)
      → AllPass isalpha (x ∷ m)
      → AllPass is_pathchar (y ∷ t)
      → AllHeaders (h ∷ hs)
      → is_supported (content_type_of (stored (h ∷ hs) [])) ≡ true
      → Holds mem 0 (request_line_text (x ∷ m) (y ∷ t))
      → Holds mem (length (request_line_text (x ∷ m) (y ∷ t))) (headers_text (h ∷ hs) ++ crlf)
      → length (request_line_text (x ∷ m) (y ∷ t)) + length (headers_text (h ∷ hs)) ≡ j + 2
      → j + 4 ≤ last
      → parse_start_line mem last
          (record { parser = with_phase new_parser ParsePhase.parse_start_line; it = 0 })
        ≡ (
          record {
            parser =
                read_parser
                  (x ∷ m)
                  (y ∷ t)
                  (stored (h ∷ hs) [])
                  ParsePhase.parse_content_type_finished;
            it = j;
          },
          none,
        )
  unfolding parse_start_line new_parser headers_part parse_content_type parse_message_header
  start_line_lem x m y t h hs j am a_t g ok ht hh e l =
      let i = length (request_line_text (x ∷ m) (y ∷ t)) in
      let line =
        request_line_lem mem last x m y t (with_phase new_parser ParsePhase.parse_start_line) am a_t
          ht (omega arith) in
      let heads = header_loop_lem mem last h hs (last - i) i j [] none g hh e l (omega arith) in
      let short : 2 ≤ length (headers_text (h ∷ hs)) =
        omega (arith, length-append {0} (header_text h) (crlf ++ headers_text hs)) in
      let room : ltb last (i + 2) ≡ false = ground arith in
      rw (line, parse_start_line, room, heads, ok)

abbrev pub IsWord : (ℕ → Bool) → Bytes → Type 0
IsWord p s = (s ≢ []) × AllPass p s

-- A request line and headers that are well formed, of a content type that is let through.
pub record IsRequest (method target : Bytes) (headers : List (Bytes × Bytes)) : Type 0 where
  pub method_letters : IsWord isalpha method
  pub target_chars : IsWord is_pathchar target
  pub some_header : headers ≢ []
  pub headers_formed : AllHeaders headers
  pub supported : is_supported (content_type_of (stored headers [])) ≡ true

-- The pointer behind the headers: at the CRLF of the last one.
abbrev pub body_start : Bytes → Bytes → List (Bytes × Bytes) → ℕ
body_start m t hs = length (request_line_text m t) + length (headers_text hs) - 2

-- The lines of headers end in a CRLF.
pub headers_end :
    (h : Bytes × Bytes) (hs : List (Bytes × Bytes))
    → (s : Bytes) × (headers_text (h ∷ hs) ≡ s ++ crlf)
headers_end h [] = (header_text h, refl)
headers_end h (g ∷ hs) =
    let (s, e) = headers_end g hs in
    (header_text h ++ (crlf ++ s), rw e (sym (append_assoc (header_text h) (crlf ++ s) crlf)))

module _ (mem : Memory) where
  module _ (m t : Bytes) (hs : List (Bytes × Bytes)) (body : Bytes) where
    pub length-request :
        length (request_text m t hs body)
        ≡ length (request_line_text m t) + (length (headers_text hs) + (2 + length body))
    length-request = omega (
      arith,
      length-append {0} (request_line_text m t) (headers_text hs ++ (crlf ++ body)),
      length-append {0} (headers_text hs) (crlf ++ body),
    )

  start_request :
      (m t : Bytes) (hs : List (Bytes × Bytes)) (body : Bytes) (last : ℕ)
      → IsRequest m t hs
      → Holds mem 0 (request_text m t hs body)
      → length (request_text m t hs body) ≤ last
      → parse_start_line mem last
          (record { parser = with_phase new_parser ParsePhase.parse_start_line; it = 0 })
        ≡ (
          record {
            parser = read_parser m t (stored hs []) ParsePhase.parse_content_type_finished;
            it = body_start m t hs;
          },
          none,
        )
  start_request [] t hs body last r h l = absurd (r.method_letters.0 refl)
  start_request (x ∷ m) [] hs body last r h l = absurd (r.target_chars.0 refl)
  start_request (x ∷ m) (y ∷ t) [] body last r h l = absurd (r.some_header refl)
  start_request (x ∷ m) (y ∷ t) (g ∷ hs) body last r h l =
      let line = request_line_text (x ∷ m) (y ∷ t) in
      let heads = headers_text (g ∷ hs) in
      let i = length line in
      let total = length-request (x ∷ m) (y ∷ t) (g ∷ hs) body in
      let short : 2 ≤ length heads =
        omega (arith, length-append {0} (header_text g) (crlf ++ headers_text hs)) in
      let (hl, hr) = Holds-append mem 0 i line (heads ++ (crlf ++ body)) (omega arith) h in
      let (hh, _) =
        Holds-append mem i (i + length heads + 2) (heads ++ crlf) body
          (omega (arith, length-append {0} heads crlf))
          (rw (← append_assoc heads crlf body) at hr) in
      start_line_lem mem last x m y t g hs (body_start (x ∷ m) (y ∷ t) (g ∷ hs)) r.method_letters.1
        r.target_chars.1 r.headers_formed r.supported hl hh (omega arith) (omega (arith, total))

  -- The rest of the buffer behind the headers: the last header's CRLF, the blank line, the body.
  pub body_text :
      (m t : Bytes) (h : Bytes × Bytes) (hs : List (Bytes × Bytes)) (body : Bytes)
      → Holds mem 0 (request_text m t (h ∷ hs) body)
      → make_string mem (body_start m t (h ∷ hs)) (length (request_text m t (h ∷ hs) body))
        ≡ some (crlf ++ (crlf ++ body))
  body_text m t h hs body held =
      let line = request_line_text m t in
      let heads = headers_text (h ∷ hs) in
      let (s, e) = headers_end h hs in
      let total = length-request m t (h ∷ hs) body in
      let size : length heads ≡ length s + 2 = ap length e ∙ length-append s crlf in
      let (_, hr) =
        Holds-append mem 0 (length line) line (heads ++ (crlf ++ body)) (omega arith) held in
      let e' : heads ++ (crlf ++ body) ≡ s ++ (crlf ++ (crlf ++ body)) =
        ap (λ (u : Bytes). u ++ (crlf ++ body)) e ∙ append_assoc s crlf (crlf ++ body) in
      let (_, hb) =
        Holds-append mem (length line) (body_start m t (h ∷ hs)) s (crlf ++ (crlf ++ body))
          (omega (arith, size)) (rw e' at hr) in
      make_string-Holds mem (body_start m t (h ∷ hs)) (length (request_text m t (h ∷ hs) body))
        (crlf ++ (crlf ++ body)) (omega (arith, total, size)) hb

pub start_lem :
    (m t : Bytes) (hs : List (Bytes × Bytes)) (body : Bytes) (mem : Memory)
    → IsRequest m t hs
    → Holds mem 0 (request_text m t hs body)
    → start mem (length (request_text m t hs body)) ParsePhase.not_started new_parser none
      ≡ record {
        parser = read_parser m t (stored hs []) ParsePhase.parse_content_type_finished;
        it = body_start m t hs;
        ec = none;
      }
unfolding start
start_lem m t hs body mem r held =
    rw (start_request mem m t hs body (length (request_text m t hs body)) r held (omega arith))
