-- ===== src/Parser/Pending.antt =====
-- `parser::parse` on a second buffer: a body that comes behind its headers, and the calls behind a
-- start line that was refused, which change nothing.
use webcrown.Base.{
  ℕ, ◌+◌, ◌<◌, ◌≤◌, ◌⊎◌, inl, inr, ◌∷◌, ◌++◌, codes, AllPass, false, ◌==◌, ◌≡◌, refl, List, [],
  Bytes, true, arith, length, leb, ◌≢◌, none, some, ◌∙◌, StringMap,
}
use webcrown.Http.Method.{to_method}
use webcrown.Http.Request.{with_body}
use webcrown.Http.Phase.{ParsePhase}
use webcrown.Parser.Memory.{Memory, make_string-Holds, Holds}
use webcrown.Parser.Text.{stored}
use webcrown.CharClass.{isalpha, is_pathchar}
use webcrown.Http.Error.{HttpError}
use webcrown.Parser.StartLine.{request_line}
use webcrown.Parser.StartLine.Sound.{request_line_inv}
use webcrown.Parser.StartLine.Refused.{
  IsRefused, in_method, in_target, in_version, behind_version, request_line-IsRefused,
}
use webcrown.Parser.Defs.{Parser, Cursor, stop, Flow-cases, new_parser}
use webcrown.Parser.Headers.{content_type_of, parse_start_line}
use webcrown.Parser.MediaType.{parse_media_type, media_type_in, with_phase}
use webcrown.Parser.Parse.{
  returned, plain, media, body_kind, finish_uploads, more_media, read_body, after_start, start,
  is_empty_start, parse,
}
use webcrown.Parser.Reading.{request_text, read_parser, announces, IsRequest, body_start}
use webcrown.Parser.RoundTrip.{
  body_start_size, parse_headers_read, body_is_pending_lem, parse_body_lem,
}

-- The headers alone leave the parser waiting for a body.
first_pending :
    (m t : Bytes) (hs : List (Bytes × Bytes)) (mem : Memory)
    → IsRequest m t hs
    → announces (stored hs []) ≡ true
    → Holds mem 0 (request_text m t hs [])
    → parse new_parser mem (length (request_text m t hs []))
      ≡ returned none (read_parser m t (stored hs []) ParsePhase.parse_body_pending) none
unfolding after_start
first_pending m t hs mem r a held =
    let p = read_parser m t (stored hs []) ParsePhase.parse_content_type_finished in
    let size = length (request_text m t hs []) in
    let empty : leb size (body_start m t hs + 4) ≡ true =
      ground (arith, body_start_size m t hs [] mem r.some_header) in
    parse_headers_read m t hs [] mem r held
    ∙ rw (body_is_pending_lem mem size (body_start m t hs) p, a, empty)

then_body :
    (m t : Bytes) (headers : StringMap) (body : Bytes) (mem : Memory)
    → body_kind (content_type_of headers) ≡ plain
    → Holds mem 0 body
    → parse (read_parser m t headers ParsePhase.parse_body_pending) mem (length body)
      ≡ returned
          (some (with_body (to_method m) 11 t headers body))
          (read_parser m t headers ParsePhase.finished)
          none
unfolding parse start is_empty_start after_start read_body
then_body m t headers body mem kind held = rw kind (
    parse_body_lem mem (length body)
      (record { parser = read_parser m t headers ParsePhase.parse_body_pending; it = 0; ec = none })
      body (make_string-Holds mem 0 (length body) body (omega arith) held))

-- A request in two buffers, the headers with a positive content length in the first and the body
-- in the second: the first call returns nothing and waits, and the second returns the request with
-- exactly the second buffer as its body.
pub parse_two_buffers :
    (m t : Bytes) (hs : List (Bytes × Bytes)) (body : Bytes) (mem mem' : Memory)
    → IsRequest m t hs
    → announces (stored hs []) ≡ true
    → body_kind (content_type_of (stored hs [])) ≡ plain
    → Holds mem 0 (request_text m t hs [])
    → Holds mem' 0 body
    → (p : Parser) × (parse new_parser mem (length (request_text m t hs [])) ≡ returned none p none)
      × (p.parse_phase ≡ ParsePhase.parse_body_pending)
      × (parse p mem' (length body)
          ≡ returned
              (some (with_body (to_method m) 11 t (stored hs []) body))
              (read_parser m t (stored hs []) ParsePhase.finished)
              none)
parse_two_buffers m t hs body mem mem' r a kind held held' = (
  read_parser m t (stored hs []) ParsePhase.parse_body_pending,
  first_pending m t hs mem r a held,
  refl,
  then_body m t (stored hs []) body mem' kind held',
)

-- A multipart or image request whose headers and body come in two buffers is never read: every
-- later call, whatever the buffer, returns nothing and leaves the parser waiting as it was.
pub parse_media_pending :
    (m t : Bytes) (hs : List (Bytes × Bytes)) (mem mem' : Memory) (size : ℕ)
    → IsRequest m t hs
    → announces (stored hs []) ≡ true
    → body_kind (content_type_of (stored hs [])) ≡ media
    → Holds mem 0 (request_text m t hs [])
    → (p : Parser) × (parse new_parser mem (length (request_text m t hs [])) ≡ returned none p none)
      × (p.parse_phase ≢ ParsePhase.finished)
      × (parse p mem' size ≡ returned none p none)
unfolding parse start is_empty_start after_start read_body parse_media_type media_type_in more_media
    finish_uploads
parse_media_pending m t hs mem mem' size r a kind held = (
  read_parser m t (stored hs []) ParsePhase.parse_body_pending,
  first_pending m t hs mem r a held,
  λ e. cc,
  rw kind,
)

-- Such a parser takes nothing more: each call returns nothing, with no error, and changes nothing.
refused_takes_nothing :
    (p : Parser) (phase : ParsePhase) (mem : Memory) (size : ℕ)
    → p.parse_phase ≡ phase
    → IsRefused phase
    → parse p mem size ≡ returned none p none
unfolding parse start is_empty_start after_start more_media finish_uploads
refused_takes_nothing p _ mem size e in_method = rw e
refused_takes_nothing p _ mem size e in_target = rw e
refused_takes_nothing p _ mem size e in_version = rw e
refused_takes_nothing p _ mem size e behind_version = rw e

refused_goes_through :
    (mem : Memory) (size : ℕ) (q : Parser) (phase : ParsePhase) (i : ℕ) (x : HttpError)
    → IsRefused phase
    → after_start mem size phase (record { parser = q; it = i; ec = some x })
      ≡ returned none q (some x)
unfolding after_start more_media finish_uploads
refused_goes_through mem size q _ i x in_method = refl
refused_goes_through mem size q _ i x in_target = refl
refused_goes_through mem size q _ i x in_version = refl
refused_goes_through mem size q _ i x behind_version = refl

new_phase : new_parser.parse_phase ≡ ParsePhase.not_started
unfolding new_parser
new_phase = refl

-- A first buffer that is refused: the error, and the phase that is left.
refused_start :
    (mem : Memory) (size : ℕ) (d : Cursor) (x : HttpError)
    → request_line mem size
        (record { parser = with_phase new_parser ParsePhase.parse_start_line; it = 0 })
      ≡ stop x d
    → start mem size ParsePhase.not_started new_parser none
      ≡ record { parser = d.parser; it = d.it; ec = some x }
unfolding start parse_start_line
refused_start mem size d x h = rw (start, parse_start_line, h) refl

refused_first :
    (mem : Memory) (size : ℕ) (d : Cursor) (x : HttpError)
    → 0 < size
    → request_line mem size
        (record { parser = with_phase new_parser ParsePhase.parse_start_line; it = 0 })
      ≡ stop x d
    → parse new_parser mem size ≡ returned none d.parser (some x)
unfolding parse is_empty_start after_start start
refused_first mem size d x lt h =
    let some_bytes : (size == 0) ≡ false = ground arith in
    let phase : new_parser.parse_phase ≡ ParsePhase.not_started = new_phase in
    rw (parse, phase, some_bytes, refused_start mem size d x h)
      (refused_goes_through mem size d.parser d.parser.parse_phase d.it x
        (request_line-IsRefused mem size _ d x h))

-- The buffer begins with a request line: a method of letters, a target of path characters and
-- HTTP/1.1, none of them empty and with a blank between each two, and behind it a byte that is CR
-- before any other, or any other before a byte that is LF.
abbrev pub IsLine : Memory → ℕ → Type 0
IsLine mem size =
    (m : Bytes) × (t : Bytes) × AllPass isalpha m
    × AllPass is_pathchar t
    × (0 < length m)
    × (0 < length t)
    × Holds mem 0 (m ++ (b' ' ∷ (t ++ (b' ' ∷ codes "HTTP/1.1"))))
    × ((mem (length m + length t + 10) ≡ 0x0d) ⊎ (mem (length m + length t + 11) ≡ 0x0a))
    × (length m + length t + 12 ≤ size)

-- A first buffer that is not empty and does not begin with a request line is refused with an
-- error, and for good: each later call returns nothing, with no error, and changes nothing,
-- whatever its buffer holds.
pub refused_line_is_final :
    (mem mem' : Memory) (size size' : ℕ)
    → 0 < size
    → ¬ IsLine mem size
    → (q : Parser) × (x : HttpError) × (parse new_parser mem size ≡ returned none q (some x))
      × (parse q mem' size' ≡ returned none q none)
refused_line_is_final mem mem' size size' lt no_line =
    let p = with_phase new_parser ParsePhase.parse_start_line in
    elim (Flow-cases (request_line mem size (record { parser = p; it = 0 }))) [
      | inl (u, d, h) ↦
          let (m, t, am, a_t, lm, l_t, held, behind, fits, _) = request_line_inv mem size p d h in
          absurd (no_line (m, t, am, a_t, lm, l_t, held, behind, fits))
      | inr (x, d, h) ↦ (
        d.parser,
        x,
        refused_first mem size d x lt h,
        refused_takes_nothing d.parser d.parser.parse_phase mem' size' refl
            (request_line-IsRefused mem size p d x h),
      )
    ]
