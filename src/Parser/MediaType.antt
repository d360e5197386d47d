-- ===== src/Parser/MediaType.antt =====
-- `parse_media_type`: `parse_media_type_begin` and `parse_media_type_more`.
use webcrown.Base.{
  ℕ, zero, suc, ◌+◌, ◌-◌, ◌^◌, [], ◌∷◌, ◌++◌, Bytes, codes, Option, none, some, Bool, true, false,
  ◌&&◌, not, ltb, ◌==◌, if◌then◌else◌, lookup, bytes_eq, find, drop, length, add_delta, to_size_t,
}
use webcrown.Cstdlib.{atoi}
use webcrown.Http.Error.{ErrorCode, no_boundary_header_for_multipart}
use webcrown.Http.Phase.{ParsePhase}
use webcrown.Parser.Memory.{Memory, slice}
use webcrown.Parser.Defs.{Parser}
use webcrown.Parser.Headers.{parse_message_header}
use webcrown.Parser.Boundary.{verify_boundary_value, boundary_of}

-- The parser, the pointer and the error while a part is read.
pub record MediaState : Type 0 where
  pub parser : Parser
  pub it : ℕ
  pub ec : ErrorCode

abbrev pub with_phase : Parser → ParsePhase → Parser
with_phase p phase = record p { parse_phase = phase }

-- `buffer_end`, the pointer and `endbuffer_was_reached`.
pub record PartEnd : Type 0 where
  pub buffer_end : ℕ
  pub it : ℕ
  pub reached : Bool

-- The largest size that `std::vector<std::byte>::reserve` takes.
abbrev pub vector_max_size : ℕ
vector_max_size = 2 ^ 63 - 1

module _ (mem : Memory) (last : ℕ) where
  -- `-` characters in front of the delimiter line.
  unfoldable pub dash_loop : ℕ → ℕ → ℕ
  dash_loop zero it = it
  dash_loop (suc n) it = let rest = dash_loop n (suc it) in if mem it == b'-' then rest else it

  -- The end of the delimiter line; `true` at the last one, which ends in `--`.
  unfoldable pub delimiter_loop : ℕ → ℕ → ℕ × Bool
  delimiter_loop zero it = (it, false)
  delimiter_loop (suc n) it =
      let rest = delimiter_loop n (suc it) in
      if mem it == b'-' && (mem (it + 1) == b'-' && (mem (it + 2) == 0x0d && mem (it + 3) == 0x0a))
      then (it, true)
      else if mem it == 0x0d && mem (it + 1) == 0x0a
      then (it, false)
      else rest

  -- The part's headers, behind its delimiter line.
  unfoldable pub part_headers : MediaState → MediaState
  part_headers s =
      let read =
        parse_message_header mem last (record { it = s.it + 2; headers = []; ec = s.ec }) in
      let p = with_phase s.parser read.1 in
      elim (lookup (codes "content-type") read.0.headers) [
        | none ↦ record { parser = p; it = read.0.it; ec = read.0.ec }
        | some _ ↦ record {
          parser = record p { upload_body_headers = read.0.headers };
          it = read.0.it + 4;
          ec = read.0.ec;
        }
      ]

  -- The delimiter line, once the boundary is known.
  unfoldable pub delimiter_line : MediaState → MediaState
  delimiter_line s =
      let bound = s.parser.boundary_value in
      let i = dash_loop (last - s.it) s.it in
      let first = (verify_boundary_value mem last i bound s.parser.boundary_value_length).0 in
      let end = delimiter_loop (last - first) first in
      let stopped : MediaState = record s { it = end.0 } in
      if end.1
      then stopped
      else if not (bytes_eq (slice mem first (end.0 - first)) bound)
      then stopped
      else part_headers stopped

  abbrev blank_line : ℕ → Bool
  blank_line i =
      mem i == 0x0d && (mem (i + 1) == 0x0a && (mem (i + 2) == 0x0d && mem (i + 3) == 0x0a))

  -- From the boundary parameter, the text of the content type from `boundary=` on.
  unfoldable pub boundary_begin : Bytes → MediaState → MediaState
  boundary_begin param s =
      let found = boundary_of param in
      let p = record (s.parser) { boundary_value = found.0 } in
      if not found.1
      then record s { parser = p }
      else if ltb last (s.it + 4)
      then record s { parser = p }
      else delimiter_line (record s {
        parser = record p { boundary_value_length = length found.0 };
        it = if blank_line s.it then s.it + 4 else s.it;
      })

  unfoldable pub parse_media_type_begin : MediaState → MediaState
  parse_media_type_begin s =
      let t : MediaState = record s { parser = with_phase s.parser ParsePhase.parse_media_type } in
      elim (lookup (codes "content-type") s.parser.headers) [
        | none ↦ t
        | some value ↦ elim (find (codes "boundary=") value) [
          | none ↦ record t { ec = some no_boundary_header_for_multipart }
          | some i ↦ boundary_begin (drop i value) t
        ]
      ]

  -- Behind the closing boundary: the pointer past the CRLF, and whether there is one.
  unfoldable pub part_end_loop : ℕ → ℕ → ℕ × Bool
  part_end_loop zero it = (it, false)
  part_end_loop (suc n) it =
      let rest = part_end_loop n (suc it) in
      if mem it == b'-'
      then rest
      else if ltb last (it + 2)
      then rest
      else if mem it == 0x0d && mem (it + 1) == 0x0a
      then (it + 2, true)
      else rest

  unfoldable pub find_part_end : Bytes → ℕ → ℕ → PartEnd
  find_part_end bound len it =
      let found = verify_boundary_value mem last it bound len in
      let end = part_end_loop (last - found.0) found.0 in
      if found.1
      then record { buffer_end = end.0; it = end.0; reached = end.1 }
      else record { buffer_end = last; it = found.0; reached = false }

  -- The part's bytes are appended, and the upload is made when the part is complete.
  unfoldable pub append_part : Bytes → PartEnd → MediaState → MediaState
  append_part content_length end s =
      let p = s.parser in
      let bytes = p.multipart_buffer ++ slice mem s.it (end.buffer_end - s.it) in
      let readed = add_delta p.buffer_size_readed end.buffer_end s.it in
      let q = record p { buffer_size_readed = readed; multipart_buffer = bytes } in
      if not end.reached && ltb readed (to_size_t (atoi content_length))
      then record s { parser = with_phase q ParsePhase.parse_media_type_need_more; it = end.it }
      else record s {
        parser = record q {
          uploads = p.uploads ++ record { bytes = bytes; headers = p.upload_body_headers } ∷ [];
          parse_phase = ParsePhase.parse_media_type_finished;
        };
        it = end.it;
      }

  -- `none`: `reserve` throws `std::length_error`.
  unfoldable pub parse_media_type_more : MediaState → Option MediaState
  parse_media_type_more s = elim (lookup (codes "content-length") s.parser.headers) [
    | none ↦ some s
    | some content_length ↦
        let end = find_part_end s.parser.boundary_value s.parser.boundary_value_length s.it in
        if s.it == last
        then some (record s { parser = with_phase s.parser ParsePhase.parse_media_type_need_more })
        else if ltb vector_max_size (add_delta s.parser.buffer_size_readed end.buffer_end s.it)
        then none
        else some (append_part content_length end s)
  ]

  -- `parse_media_type` acts in two phases only.
  unfoldable pub media_type_in : ParsePhase → MediaState → Option MediaState
  media_type_in ParsePhase.parse_content_type_finished s =
      parse_media_type_more (parse_media_type_begin s)
  media_type_in ParsePhase.parse_media_type_need_more s = parse_media_type_more s
  media_type_in _ s = some s

  unfoldable pub parse_media_type : MediaState → Option MediaState
  parse_media_type s = media_type_in s.parser.parse_phase s
