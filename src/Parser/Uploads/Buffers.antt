-- ===== src/Parser/Uploads/Buffers.antt =====
-- A part of an upload over any number of buffers, each given to `parse` as a session gives it
-- (include/webcrown/server/http/http_parser.hpp).
use webcrown.Base.{
  ℕ, ◌+◌, ◌^◌, ◌<◌, ◌≡◌, refl, ◌∙◌, ap, List, [], ◌∷◌, ◌++◌, append_assoc, Bytes, none, some, Bool,
  false, ◌&&◌, not, ltb, arith,
}
use webcrown.Http.Method.{to_method}
use webcrown.Http.Phase.{ParsePhase}
use webcrown.Http.Request.{with_uploads}
use webcrown.Parser.Memory.{Memory, slice}
use webcrown.Parser.Defs.{Parser}
use webcrown.Parser.Boundary.Laws.{NoneIn}
use webcrown.Parser.MediaType.{PartEnd, with_phase, find_part_end}
use webcrown.Parser.Parse.{Parsed, returned, parse}
use webcrown.Parser.Uploads.Ends.{PartEnds, find_part_end-PartEnds}
use webcrown.Parser.Uploads.{IsWaiting, waiting, with_more, length-slice, parse_more, parse_last}

-- What a session has read: the memory of its receive buffer, and the bytes in it.
pub record Buffer : Type 0 where
  pub memory : Memory
  pub size : ℕ

-- A session's calls of `parse`: the next buffer is given while there is no request and no error.
unfoldable pub feed : Parser → List Buffer → Parsed
feed p [] = returned none p none
feed p (b ∷ bs) = elim (parse p b.memory b.size) [ returned none q none ↦ feed q bs | x ↦ x ]

abbrev pub contents : List Buffer → Bytes
contents [] = []
contents (b ∷ bs) = slice b.memory 0 b.size ++ contents bs

abbrev pub total : List Buffer → ℕ
total [] = 0
total (b ∷ bs) = b.size + total bs

-- No buffer is empty, and the boundary begins in none.
abbrev pub WithoutBoundary : Bytes → List Buffer → Type 0
WithoutBoundary bound [] = Unit {0}
WithoutBoundary bound (b ∷ bs) =
    (0 < b.size) × NoneIn b.memory bound b.size 0 × WithoutBoundary bound bs

-- The buffers, once it is known where the part ends in the last one.
read_in_buffers :
    (p : Parser) (size : ℕ) (bs : List Buffer) (b : Buffer) (end : PartEnd)
    → IsWaiting p size
    → WithoutBoundary p.boundary_value bs
    → 0 < b.size
    → p.buffer_size_readed + total bs < size
    → size < 2 ^ 63
    → find_part_end b.memory b.size p.boundary_value p.boundary_value_length 0 ≡ end
    → (not end.reached && ltb (p.buffer_size_readed + total bs + end.buffer_end) size) ≡ false
    → p.buffer_size_readed + total bs + end.buffer_end < 2 ^ 63
    → (q : Parser) × (q.uploads
        ≡ p.uploads
          ++ record {
            bytes = p.multipart_buffer ++ (contents bs ++ slice b.memory 0 end.buffer_end);
            headers = p.upload_body_headers;
          }
            ∷ [])
      × (feed (waiting p) (bs ++ b ∷ [])
          ≡ returned
              (some
                (with_uploads (to_method p.method) p.protocol_version p.target p.headers q.uploads))
              (with_phase q ParsePhase.finished)
              none)
unfolding feed
read_in_buffers p size [] b end w h some_bytes less room e over fits =
    let zero_more : p.buffer_size_readed + 0 + end.buffer_end
        ≡ p.buffer_size_readed + end.buffer_end =
      omega arith in
    let (q, same, last) =
      parse_last p size w b.memory b.size end some_bytes e (rw zero_more at over) (omega arith) in
    (q, ap Parser.uploads same, rw (feed, last) refl)
read_in_buffers p size (c ∷ cs) b end w (filled, none_in, h) some_bytes less room e over fits =
    let s = slice c.memory 0 c.size in
    let p' = with_more s p in
    let w' : IsWaiting p' size = record {
      value = w.value;
      announced = w.announced;
      announced_size = w.announced_size;
      some_boundary = w.some_boundary;
      boundary_size = w.boundary_size;
    } in
    let n = length-slice c.memory 0 c.size in
    let first = parse_more p size w c.memory c.size filled none_in (omega arith) room in
    let read : p'.buffer_size_readed + total cs ≡ p.buffer_size_readed + (c.size + total cs) =
      omega (arith, n) in
    let (q, made, last) =
      read_in_buffers p' size cs b end w' h some_bytes (omega arith) room e (rw read over)
        (omega arith) in
    (q, made ∙ simp append_assoc, rw (feed, first) last)

-- A parser waits for a part, with a boundary that is not empty and an announced length; it is given
-- buffers, none of them empty, in which the boundary does not begin and which together do not bring
-- the announced length, and then one in which the part is complete, or which brings that length. In
-- it the part goes on behind the CR LF of the line in which the boundary first begins, and to the
-- end of the buffer where there is no such line or none that ends there (`PartEnds`). Then the
-- request is made with the last buffer, its last upload is the bytes that the parser had, those of
-- the buffers and those of the last one up to there, in their order, the closing boundary's line
-- included, and there is no error. The sizes are below `2 ^ 63`.
pub upload_in_buffers :
    (p : Parser) (size : ℕ) (bs : List Buffer) (b : Buffer) (end : ℕ) (reached : Bool)
    → IsWaiting p size
    → WithoutBoundary p.boundary_value bs
    → 0 < b.size
    → p.buffer_size_readed + total bs < size
    → size < 2 ^ 63
    → PartEnds b.memory p.boundary_value b.size end reached
    → (not reached && ltb (p.buffer_size_readed + total bs + end) size) ≡ false
    → p.buffer_size_readed + total bs + end < 2 ^ 63
    → (q : Parser) × (q.uploads
        ≡ p.uploads
          ++ record {
            bytes = p.multipart_buffer ++ (contents bs ++ slice b.memory 0 end);
            headers = p.upload_body_headers;
          }
            ∷ [])
      × (feed (waiting p) (bs ++ b ∷ [])
          ≡ returned
              (some
                (with_uploads (to_method p.method) p.protocol_version p.target p.headers q.uploads))
              (with_phase q ParsePhase.finished)
              none)
upload_in_buffers p size bs b end reached w h some_bytes less room ends over fits =
    let (e, found, at_end, is_reached) =
      find_part_end-PartEnds b.memory p.boundary_value b.size w.some_boundary end reached ends in
    let found' : find_part_end b.memory b.size p.boundary_value p.boundary_value_length 0 ≡ e =
      rw w.boundary_size found in
    let (q, made, last) =
      read_in_buffers p size bs b e w h some_bytes less room found' (rw (at_end, is_reached) over)
        (rw at_end fits) in
    (q, rw (← at_end) made, last)
