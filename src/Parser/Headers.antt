-- ===== src/Parser/Headers.antt =====
-- `parse_message_header`, its name and value, `parse_content_type` and `parse_start_line`. A header
-- that is refused sets the error and the loop goes on, so errors are part of the loop's state.
pub mod Laws
pub mod Bounds
pub mod Cut
use webcrown.Base.{
  ℕ, zero, suc, ◌+◌, ◌-◌, List, [], ◌∷◌, Bytes, codes, StringMap, Option, none, some, Bool, true,
  false, ◌&&◌, ◌||◌, not, leb, ltb, ◌==◌, if◌then◌else◌, insert, lookup, bytes_eq,
}
use webcrown.CharClass.{is_valid_token, isprint}
use webcrown.StringUtils.{split, to_lower}
use webcrown.Http.Error.{
  HttpError, ErrorCode, incomplete_message_header, bad_field, bad_field_value,
  invalid_message_header_crlf, content_type_not_implemented,
}
use webcrown.Http.Phase.{ParsePhase, ContentType}
use webcrown.Parser.Memory.{Memory, slice}
use webcrown.Parser.Defs.{Parser, Cursor, in_phase, Flow, next, stop}
use webcrown.Parser.StartLine.{request_line}

-- A piece of a header: the text (empty where the source returned before setting it), the pointer
-- and the error.
pub record Piece : Type 0 where
  pub text : Bytes
  pub it : ℕ
  pub ec : ErrorCode

-- The variables of the loop of `parse_message_header`.
pub record HeaderState : Type 0 where
  pub it : ℕ
  pub headers : StringMap
  pub ec : ErrorCode

module _ (mem : Memory) (last : ℕ) where
  -- The loop of `parse_message_header_name`: where it ends, and whether at a bad character.
  unfoldable pub name_loop : ℕ → ℕ → ℕ × Bool
  name_loop zero it = (it, false)
  name_loop (suc n) it =
      let rest = name_loop n (suc it) in
      if mem it == b':'
      then (it, false)
      else if not (is_valid_token (mem it))
      then (it, true)
      else rest

  unfoldable pub parse_message_header_name : ℕ → ErrorCode → Piece
  parse_message_header_name first ec =
      let end = name_loop (last - first) first in
      if end.1
      then record { text = []; it = end.0; ec = some bad_field }
      else record { text = slice mem first (end.0 - first); it = end.0 + 1; ec = ec }

  -- Leading blanks of a value; `true` if the buffer ends first.
  unfoldable pub skip_loop : ℕ → ℕ → ℕ × Bool
  skip_loop zero it = (it, true)
  skip_loop (suc n) it =
      let rest = skip_loop n (suc it) in
      if not (mem it == b' ' || mem it == 0x09) then (it, false) else rest

  -- The value's characters up to a CRLF; `true` if one is not printable.
  unfoldable pub value_loop : ℕ → ℕ → ℕ × Bool
  value_loop zero it = (it, false)
  value_loop (suc n) it =
      let rest = value_loop n (suc it) in
      if mem it == 0x0d && mem (it + 1) == 0x0a
      then (it, false)
      else if not (isprint (mem it))
      then (it, true)
      else rest

  unfoldable pub parse_message_header_value : ℕ → ErrorCode → Piece
  parse_message_header_value it ec =
      let start = skip_loop (last - it) it in
      let end = value_loop (last - start.0) start.0 in
      if start.1
      then record { text = []; it = start.0; ec = some incomplete_message_header }
      else if end.1
      then record { text = []; it = end.0; ec = some bad_field_value }
      else record { text = slice mem start.0 (end.0 - start.0); it = end.0; ec = ec }

  -- A round up to the insertion of the header.
  unfoldable pub header_line : HeaderState → HeaderState
  header_line s =
      let name = parse_message_header_name s.it s.ec in
      let value = parse_message_header_value name.it name.ec in
      record {
        it = value.it;
        headers = insert (to_lower name.text) value.text s.headers;
        ec = value.ec;
      }

  -- The CRLF check of a round.
  unfoldable pub line_end : HeaderState → HeaderState
  line_end s =
      if mem s.it == 0x0d
      then if not (mem (s.it + 1) == 0x0a)
        then record s { ec = some invalid_message_header_crlf }
        else s
      else s

  -- `break`: a blank line follows.
  unfoldable pub is_last_line : HeaderState → Bool
  is_last_line s = mem s.it == 0x0d && (mem (s.it + 2) == 0x0d && mem (s.it + 3) == 0x0a)

  -- The pointer at the next round, past the `\r` and, where there is one, the byte behind it.
  unfoldable pub next_line : HeaderState → HeaderState
  next_line s = record s { it = (if mem s.it == 0x0d then s.it + 1 else s.it) + 1 }

  -- On the count of rounds left; each moves the pointer on, so `last - it` rounds are enough.
  unfoldable pub header_loop : ℕ → HeaderState → HeaderState
  header_loop zero s = s
  header_loop (suc n) s =
      let read = line_end (header_line s) in
      let rest = header_loop n (next_line read) in
      if ltb s.it last then if is_last_line read then read else rest else s

  -- The phase that it sets is `parse_headers` on the early return, and `parse_headers_finished`.
  unfoldable pub parse_message_header : HeaderState → HeaderState × ParsePhase
  parse_message_header s =
      if ltb last (s.it + 2)
      then (record s { ec = some incomplete_message_header }, ParsePhase.parse_headers)
      else (header_loop (last - s.it) s, ParsePhase.parse_headers_finished)

-- The first token of a list, or the whole text if there is none.
unfoldable pub first_or : List Bytes → Bytes → Bytes
first_or [] s = s
first_or (t ∷ ts) s = t

unfoldable pub media_type_of : Bytes → ContentType
media_type_of type =
    if bytes_eq type (codes "multipart/form-data")
    then ContentType.multipart_formdata
    else if bytes_eq type (codes "application/json")
    then ContentType.application_json
    else if bytes_eq type (codes "image/jpeg")
    then ContentType.image_jpeg
    else if bytes_eq type (codes "application/x-www-form-urlencoded")
    then ContentType.application_form_urlencoded
    else ContentType.unknown

-- `parse_content_type`, which ends in the phase `parse_content_type_finished` on both its paths.
unfoldable pub content_type_of : StringMap → ContentType
content_type_of headers = elim (lookup (codes "content-type") headers) [
  | none ↦ ContentType.not_specified
  | some value ↦ media_type_of (first_or (split value b';' false) value)
]

-- The content types that `parse_start_line` lets through.
unfoldable pub is_supported : ContentType → Bool
is_supported ContentType.application_json = true
is_supported ContentType.multipart_formdata = true
is_supported ContentType.not_specified = true
is_supported ContentType.application_form_urlencoded = true
is_supported ContentType.image_jpeg = true
is_supported _ = false

unfoldable pub parse_content_type : Parser → Parser
parse_content_type p = record p {
  header_content_type = content_type_of p.headers;
  parse_phase = ParsePhase.parse_content_type_finished;
}

-- `parse_start_line` behind the request line: headers, content type and its check.
unfoldable pub headers_part : Memory → ℕ → Cursor → Cursor × ErrorCode
headers_part mem last c =
    let read =
      (parse_message_header mem last
        (record { it = c.it; headers = c.parser.headers; ec = none })).0 in
    let p = parse_content_type (record (c.parser) { headers = read.headers }) in
    (
      record { parser = p; it = read.it },
      if not (is_supported p.header_content_type)
          then some content_type_not_implemented
          else read.ec,
    )

unfoldable pub parse_start_line : Memory → ℕ → Cursor → Cursor × ErrorCode
parse_start_line mem last c = elim (request_line mem last c) [
  | stop e d ↦ (d, some e)
  | next _ d ↦ headers_part mem last d
]
