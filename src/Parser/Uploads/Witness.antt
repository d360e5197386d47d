-- ===== src/Parser/Uploads/Witness.antt =====
-- An upload whose bytes come in two buffers, the second with the closing boundary.
use webcrown.Base.{[], ◌∷◌, ◌++◌, Bytes, codes, length, none, some, ◌≡◌, refl, arith, lookup, true}
use webcrown.Http.Method.{to_method}
use webcrown.Http.Phase.{ParsePhase}
use webcrown.Http.Request.{with_uploads}
use webcrown.Parser.Code.{parser_code}
use webcrown.Parser.Memory.{holding, slice}
use webcrown.Parser.Text.{crlf}
use webcrown.Parser.Defs.{Parser, new_parser}
use webcrown.Parser.MediaType.{with_phase}
use webcrown.Parser.Parse.{returned}
use webcrown.Parser.Uploads.{IsWaiting, waiting}
use webcrown.Parser.Uploads.Ends.{PartEnds, with_line}
use webcrown.Parser.Uploads.Buffers.{Buffer, feed, contents, upload_in_buffers}

-- Nine bytes are announced for the boundary AB.
abbrev nine_parser : Parser
nine_parser = record new_parser {
  method = codes "POST";
  target = codes "/u";
  protocol_version = 11;
  headers = (codes "content-length", codes "9") ∷ [];
  boundary_value = codes "AB";
  boundary_value_length = 2;
}

nine_parser-IsWaiting : IsWaiting nine_parser 9
unfolding parser_code lookup
nine_parser-IsWaiting = record {
  value = codes "9";
  announced = refl;
  announced_size = refl;
  some_boundary = omega arith;
  boundary_size = refl;
}

abbrev begin_text : Bytes
begin_text = codes "xyz"

abbrev end_text : Bytes
end_text = codes "uv" ++ (crlf ++ (codes "AB--" ++ crlf))

abbrev begin_buffer : Buffer
begin_buffer = record { memory = holding begin_text; size = length begin_text }

abbrev end_buffer : Buffer
end_buffer = record { memory = holding end_text; size = length end_text }

-- The boundary lies at 4, and its line ends behind 10.
nine_ends : PartEnds (holding end_text) (codes "AB") 10 10 true
unfolding parser_code
nine_ends =
    with_line 4 8 (omega arith) ((refl, (refl, tt)), (λ e. omega (arith, e)))
      (
        (λ o. omega (arith, o.0.0)),
        (
          (λ o. omega (arith, o.0.0)),
          ((λ o. omega (arith, o.0.0)), ((λ o. omega (arith, o.0.0)), tt)),
        ),
      )
      (omega arith) (omega arith) (refl, refl)
      (
        (λ o. omega (arith, o.0)),
        ((λ o. omega (arith, o.0)), ((λ o. omega (arith, o.0)), ((λ o. omega (arith, o.0)), tt))),
      )

upload_in_buffers_example :
    (q : Parser) × (q.uploads
      ≡ record {
        bytes = contents (begin_buffer ∷ []) ++ slice (holding end_text) 0 10;
        headers = [];
      }
        ∷ [])
    × (feed (waiting nine_parser) (begin_buffer ∷ end_buffer ∷ [])
        ≡ returned
            (some (
              with_uploads
                (to_method (codes "POST"))
                11
                (codes "/u")
                nine_parser.headers
                q.uploads))
            (with_phase q ParsePhase.finished)
            none)
unfolding parser_code
upload_in_buffers_example =
    upload_in_buffers nine_parser 9 (begin_buffer ∷ []) end_buffer 10 true nine_parser-IsWaiting
      (
        omega arith,
        (λ o. omega (arith, o.0.0), (λ o. omega (arith, o.0.0), (λ o. omega (arith, o.0.0), tt))),
        tt,
      )
      (omega arith) (omega arith) (omega arith) nine_ends refl (omega arith)
