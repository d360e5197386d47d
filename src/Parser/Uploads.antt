-- ===== src/Parser/Uploads.antt =====
-- An upload that comes in several buffers: `parse` of
-- include/webcrown/server/http/http_parser.hpp while it waits for more of a part.
pub mod Buffers
pub mod Ends
mod Witness
use webcrown.Base.{
  ℕ, zero, suc, ◌+◌, ◌-◌, ◌*◌, ◌^◌, ◌%◌, ◌≤◌, ◌<◌, ◌≡◌, refl, ◌∙◌, sym, ap, List, [], ◌∷◌, ◌++◌,
  append_assoc, append-nil, Bytes, Option, none, some, Bool, true, false, ◌&&◌, not, ltb, leb, ◌==◌,
  if◌then◌else◌, arith, length, lookup, codes, add_delta, to_size_t, size_t_mod, Bool-cases, inl,
  inr,
}
use webcrown.Cstdlib.{atoi}
use webcrown.Http.Method.{to_method}
use webcrown.Http.Error.{HttpError}
use webcrown.Http.Phase.{ParsePhase}
use webcrown.Http.Request.{HttpRequest, with_uploads}
use webcrown.Parser.Memory.{Memory, slice}
use webcrown.Parser.Defs.{Parser}
use webcrown.Parser.Boundary.{verify_boundary_value}
use webcrown.Parser.Boundary.Laws.{Occurs, NoneIn, FirstPlace, verify_boundary_value_first}
use webcrown.Parser.MediaType.{
  MediaState, PartEnd, with_phase, find_part_end, append_part, parse_media_type_more, media_type_in,
  parse_media_type,
}
use webcrown.Parser.Parse.{
  Parsed, returned, threw_length_error, finish_uploads, more_media, after_start, start,
  is_empty_start, parse,
}

pub NoneIn-Occurs :
    (mem : Memory) (bound : Bytes) (n i k : ℕ)
    → NoneIn mem bound n i
    → i ≤ k
    → k < i + n
    → ¬ Occurs mem bound k
NoneIn-Occurs mem bound zero i k h le lt = absurd (omega arith)
NoneIn-Occurs mem bound (suc n) i k (h, hs) le lt = elim (Bool-cases (i == k)) [
  | inl e ↦ let same : i ≡ k = ground arith in rw (← same) h
  | inr e ↦ NoneIn-Occurs mem bound n (suc i) k hs (ground arith) (omega arith)
]

pub not_found :
    (mem : Memory) (bound : Bytes) (n i : ℕ) (r : ℕ × Bool)
    → NoneIn mem bound n i
    → FirstPlace mem bound n i r
    → r.1 ≡ false
not_found mem bound n i (k, true) h (le, lt, o, before) =
    absurd (NoneIn-Occurs mem bound n i k h le lt o)
not_found mem bound n i (k, false) h f = refl

-- A parser with a boundary and an announced length, in front of the bytes of a part.
pub record IsWaiting (p : Parser) (size : ℕ) : Type 0 where
  pub value : Bytes
  pub announced : lookup (codes "content-length") p.headers ≡ some value
  pub announced_size : to_size_t (atoi value) ≡ size
  pub some_boundary : 0 < length p.boundary_value
  pub boundary_size : p.boundary_value_length ≡ length p.boundary_value

-- The parser when it waits for more of the part.
abbrev pub waiting : Parser → Parser
waiting p = with_phase p ParsePhase.parse_media_type_need_more

-- The parser with more of the part.
abbrev pub with_more : Bytes → Parser → Parser
with_more s p = record p {
  multipart_buffer = p.multipart_buffer ++ s;
  buffer_size_readed = p.buffer_size_readed + length s;
}

-- The parser with a part that is complete, and the upload that it makes.
abbrev pub completed : Parser → Parser
completed p = record p {
  uploads =
      p.uploads ++ record { bytes = p.multipart_buffer; headers = p.upload_body_headers } ∷ [];
}

pub length-slice : (mem : Memory) (i n : ℕ) → length (slice mem i n) ≡ n
unfolding slice
length-slice mem i zero = refl
length-slice mem i (suc n) = ap suc (length-slice mem (suc i) n)

added : (a n : ℕ) → a + n < 2 ^ 63 → add_delta a n 0 ≡ a + n
unfolding add_delta
added a n lt = omega arith

module _ (p : Parser) (size : ℕ) (w : IsWaiting p size) (mem : Memory) (n : ℕ) where
  -- A buffer without the boundary is a part of the part to its end.
  waiting_end :
      NoneIn mem p.boundary_value n 0
      → find_part_end mem n p.boundary_value p.boundary_value_length 0 ≡ record {
        buffer_end = n;
        it = (verify_boundary_value mem n 0 p.boundary_value (length p.boundary_value)).0;
        reached = false;
      }
  unfolding find_part_end
  waiting_end h =
      let zero_less : n - 0 ≡ n = omega arith in
      let first : FirstPlace mem p.boundary_value n 0
          (verify_boundary_value mem n 0 p.boundary_value (length p.boundary_value)) =
        rw zero_less at (verify_boundary_value_first mem n 0 p.boundary_value w.some_boundary) in
      let none_there = not_found mem p.boundary_value n 0 _ h first in
      rw (w.boundary_size, none_there) refl

  more_read :
      (end : PartEnd) (t : MediaState)
      → 0 < n
      → find_part_end mem n p.boundary_value p.boundary_value_length 0 ≡ end
      → p.buffer_size_readed + end.buffer_end < 2 ^ 63
      → append_part mem n w.value end (record { parser = waiting p; it = 0; ec = none }) ≡ t
      → parse_media_type_more mem n (record { parser = waiting p; it = 0; ec = none }) ≡ some t
  unfolding parse_media_type_more
  more_read end t some_bytes e room same =
      let nonempty : (0 == n) ≡ false = ground arith in
      let small : ltb (2 ^ 63 - 1) (add_delta p.buffer_size_readed end.buffer_end 0) ≡ false =
        rw (added _ _ room) (ground arith) in
      rw (parse_media_type_more, w.announced, e, nonempty, small, same) refl

  -- `parse`, once it is known where the part ends in the buffer.
  parse_waiting :
      (end : PartEnd) (t : MediaState)
      → 0 < n
      → find_part_end mem n p.boundary_value p.boundary_value_length 0 ≡ end
      → p.buffer_size_readed + end.buffer_end < 2 ^ 63
      → append_part mem n w.value end (record { parser = waiting p; it = 0; ec = none }) ≡ t
      → parse (waiting p) mem n ≡ finish_uploads mem n t.parser.parse_phase t
  unfolding parse after_start start is_empty_start more_media parse_media_type media_type_in
  parse_waiting end t some_bytes e room same = rw (more_read end t some_bytes e room same) refl

  abbrev at_end : PartEnd → Parser → MediaState
  at_end end q = record { parser = q; it = end.it; ec = none }

  abbrev finished_part : PartEnd → Parser
  finished_part end =
      with_phase (completed (with_more (slice mem 0 end.buffer_end) p))
        ParsePhase.parse_media_type_finished

  append_lem :
      (end : PartEnd)
      → p.buffer_size_readed + end.buffer_end < 2 ^ 63
      → append_part mem n w.value end (record { parser = waiting p; it = 0; ec = none }) ≡ (
          if not end.reached && ltb (p.buffer_size_readed + end.buffer_end) size
          then at_end end (waiting (with_more (slice mem 0 end.buffer_end) p))
          else at_end end (finished_part end))
  unfolding append_part
  append_lem end room =
      let all : end.buffer_end - 0 ≡ end.buffer_end = omega arith in
      rw (added _ _ room, w.announced_size, all, length-slice mem 0 end.buffer_end) refl

  -- A buffer without the boundary, which does not bring as much as is announced.
  pub parse_more :
      0 < n
      → NoneIn mem p.boundary_value n 0
      → p.buffer_size_readed + n < size
      → size < 2 ^ 63
      → parse (waiting p) mem n ≡ returned none (waiting (with_more (slice mem 0 n) p)) none
  unfolding finish_uploads
  parse_more some_bytes none_in less room =
      let short : ltb (p.buffer_size_readed + n) size ≡ true = ground arith in
      let end : PartEnd = record {
        buffer_end = n;
        it = (verify_boundary_value mem n 0 p.boundary_value (length p.boundary_value)).0;
        reached = false;
      } in
      let t = at_end end (waiting (with_more (slice mem 0 n) p)) in
      parse_waiting end t some_bytes (waiting_end none_in) (omega arith) (
        append_lem end (omega arith)
        ∙ ap (λ (b : Bool). if b then t else at_end end (finished_part end)) short)

  -- A buffer in which the part ends, or which brings as much as is announced.
  pub parse_last :
      (end : PartEnd)
      → 0 < n
      → find_part_end mem n p.boundary_value p.boundary_value_length 0 ≡ end
      → (not end.reached && ltb (p.buffer_size_readed + end.buffer_end) size) ≡ false
      → p.buffer_size_readed + end.buffer_end < 2 ^ 63
      → (q : Parser) × (q ≡ completed (with_more (slice mem 0 end.buffer_end) p))
        × (parse (waiting p) mem n
            ≡ returned
                (some (
                  with_uploads
                    (to_method p.method)
                    p.protocol_version
                    p.target
                    p.headers
                    q.uploads))
                (with_phase q ParsePhase.finished)
                none)
  unfolding finish_uploads
  parse_last end some_bytes e over room =
      let t = at_end end (waiting (with_more (slice mem 0 end.buffer_end) p)) in
      let u = at_end end (finished_part end) in
      (
        completed (with_more (slice mem 0 end.buffer_end) p),
        refl,
        parse_waiting end u some_bytes e room
            (append_lem end room ∙ ap (λ (b : Bool). if b then t else u) over),
      )
