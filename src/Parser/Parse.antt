-- ===== src/Parser/Parse.antt =====
-- `parser::parse`, one call for each buffer that the session receives.
use webcrown.Base.{
  ℕ, ◌+◌, codes, Option, none, some, Bool, false, ◌&&◌, leb, ◌==◌, if◌then◌else◌, lookup,
  is_positive,
}
use webcrown.Cstdlib.{atoi}
use webcrown.Http.Error.{ErrorCode, need_more}
use webcrown.Http.Method.{to_method}
use webcrown.Http.Phase.{ParsePhase, ContentType}
use webcrown.Http.Request.{HttpRequest, with_body, with_uploads}
use webcrown.Parser.Memory.{Memory, make_string}
use webcrown.Parser.Defs.{Parser}
use webcrown.Parser.Headers.{parse_start_line}
use webcrown.Parser.MediaType.{MediaState, with_phase, parse_media_type}

-- What a call gives: its result, the parser and the error code, or the exception of a text whose
-- length wraps around.
pub data Parsed : Type 0 where
  returned : Option HttpRequest → Parser → ErrorCode → Parsed
  threw_length_error : Parsed

pub data BodyKind : Type 0 where
  plain media neither : BodyKind

-- The two tests on `header_content_type_`.
unfoldable pub body_kind : ContentType → BodyKind
body_kind ContentType.text = plain
body_kind ContentType.application_json = plain
body_kind ContentType.application_form_urlencoded = plain
body_kind ContentType.not_specified = plain
body_kind ContentType.image = media
body_kind ContentType.image_jpeg = media
body_kind ContentType.multipart_formdata = media
body_kind _ = neither

module _ (mem : Memory) (last : ℕ) where
  -- `parse_body`, and the phase behind it.
  unfoldable pub parse_body : MediaState → Parsed
  parse_body s = elim (make_string mem s.it last) [
    | none ↦ threw_length_error
    | some body ↦
        let p = s.parser in
        returned (some (with_body (to_method p.method) p.protocol_version p.target p.headers body))
          (with_phase p ParsePhase.finished) s.ec
  ]

  -- The last test of `parse`.
  unfoldable pub finish_uploads : ParsePhase → MediaState → Parsed
  finish_uploads ParsePhase.parse_media_type_finished s =
      let p = s.parser in
      returned
        (some (with_uploads (to_method p.method) p.protocol_version p.target p.headers p.uploads))
        (with_phase p ParsePhase.finished) s.ec
  finish_uploads _ s = returned none s.parser s.ec

  abbrev or_throw : Option MediaState → (MediaState → Parsed) → Parsed
  or_throw none k = threw_length_error
  or_throw (some s) k = k s

  -- From the test for `parse_media_type_need_more` on.
  unfoldable pub more_media : ParsePhase → MediaState → Parsed
  more_media ParsePhase.parse_media_type_need_more s =
      or_throw (parse_media_type mem last s) λ t. finish_uploads t.parser.parse_phase t
  more_media phase s = finish_uploads phase s

  unfoldable pub read_body : BodyKind → MediaState → Parsed
  read_body plain s = parse_body s
  read_body media s = or_throw (parse_media_type mem last s) λ t. more_media t.parser.parse_phase t
  read_body neither s = more_media s.parser.parse_phase s

  -- A body is announced, and the buffer ends with the headers.
  unfoldable pub body_is_pending : MediaState → Bool
  body_is_pending s = elim (lookup (codes "content-length") s.parser.headers) [
    | none ↦ false
    | some value ↦ is_positive (atoi value) && leb last (s.it + 4)
  ]

  -- `parse` behind the start line.
  unfoldable pub after_start : ParsePhase → MediaState → Parsed
  after_start ParsePhase.parse_content_type_finished s =
      if body_is_pending s
      then returned none (with_phase s.parser ParsePhase.parse_body_pending) s.ec
      else read_body (body_kind s.parser.header_content_type) s
  after_start ParsePhase.parse_body_pending s = read_body (body_kind s.parser.header_content_type) s
  after_start phase s = more_media phase s

  -- The start line, on the first buffer only.
  unfoldable pub start : ParsePhase → Parser → ErrorCode → MediaState
  start ParsePhase.not_started p ec =
      let read =
        parse_start_line mem last
          (record { parser = with_phase p ParsePhase.parse_start_line; it = 0 }) in
      record { parser = read.0.parser; it = read.0.it; ec = read.1 }
  start _ p ec = record { parser = p; it = 0; ec = ec }

  -- `none`: there is something to parse.
  unfoldable pub is_empty_start : ParsePhase → Bool
  is_empty_start ParsePhase.not_started = last == 0
  is_empty_start _ = false

-- The caller passes a clear error code.
unfoldable pub parse : Parser → Memory → ℕ → Parsed
parse p mem size =
    let s = start mem size p.parse_phase p none in
    if is_empty_start mem size p.parse_phase
    then returned none p (some need_more)
    else after_start mem size s.parser.parse_phase s
