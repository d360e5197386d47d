-- ===== src/Parser/Witness.antt =====
-- The parser's theorems at concrete requests.
use webcrown.Base.{
  List, [], ◌∷◌, ◌++◌, Bytes, codes, length, none, some, ◌≡◌, refl, ◌≢◌, arith, ◌+◌, ◌≤◌, ◌<◌, ◌⊎◌,
  AllPass, true, ap, ◌∙◌,
}
use webcrown.Http.Method.{to_method}
use webcrown.Http.Error.{HttpError}
use webcrown.Http.Phase.{ParsePhase}
use webcrown.Http.Request.{with_body}
use webcrown.Parser.Code.{parser_code}
use webcrown.Parser.Memory.{holding, Memory, Holds}
use webcrown.Parser.Text.{crlf, stored, request_line_text}
use webcrown.Parser.Defs.{Parser, new_parser, Cursor, Flow, next, stop}
use webcrown.CharClass.{is_pathchar, isalpha}
use webcrown.Parser.StartLine.{request_line}
use webcrown.Parser.StartLine.Sound.{request_line_inv}
use webcrown.Parser.Parse.{returned, threw_length_error, parse}
use webcrown.Parser.Reading.{request_text, IsRequest, read_parser}
use webcrown.Parser.RoundTrip.{parse-request_text}
use webcrown.Parser.Pending.{parse_two_buffers, parse_media_pending, refused_line_is_final, IsLine}
use webcrown.Parser.Faults.{parse_cut_throws}
use webcrown.Parser.Headers.{HeaderState, header_loop, parse_message_header}
use webcrown.Parser.Headers.Bounds.{Ended, parse_message_header_bounds}
use webcrown.Parser.Boundary.{verify_boundary_value}
use webcrown.Parser.Boundary.Laws.{FirstPlace, verify_boundary_value_first}

abbrev get_word : Bytes
get_word = codes "GET"

abbrev target_a : Bytes
target_a = codes "/a"

abbrev host_header : List (Bytes × Bytes)
host_header = (codes "Host", codes "x") ∷ []

abbrev body_hi : Bytes
body_hi = codes "hi"

abbrev held_text : Memory
held_text = holding (request_text get_word target_a host_header body_hi)

host_IsRequest : IsRequest get_word target_a host_header
unfolding parser_code stored
host_IsRequest = record {
  method_letters = (λ e. cc, (refl, (refl, (refl, tt))));
  target_chars = (λ e. cc, (refl, (refl, tt)));
  some_header = λ e. cc;
  headers_formed = (((refl, (refl, (refl, (refl, tt)))), (refl, tt), λ e. omega arith), tt);
  supported = refl;
}

text_held : Holds held_text 0 (request_text get_word target_a host_header body_hi)
text_held = omega arith

parse-request_text_example :
    parse new_parser held_text (length (request_text get_word target_a host_header body_hi))
    ≡ returned
        (some (
          with_body
            (to_method get_word)
            11
            target_a
            (stored host_header [])
            (crlf ++ (crlf ++ body_hi))))
        (read_parser get_word target_a (stored host_header []) ParsePhase.finished)
        none
unfolding parser_code stored
parse-request_text_example =
    parse-request_text get_word target_a host_header body_hi held_text host_IsRequest refl
      (λ h e. cc) text_held

-- A request with a body in a second buffer.
abbrev length_header : List (Bytes × Bytes)
length_header = (codes "Content-Length", codes "2") ∷ []

abbrev first_text : Memory
first_text = holding (request_text get_word target_a length_header [])

length_IsRequest : IsRequest get_word target_a length_header
unfolding parser_code stored
length_IsRequest = record {
  method_letters = (λ e. cc, (refl, (refl, (refl, tt))));
  target_chars = (λ e. cc, (refl, (refl, tt)));
  some_header = λ e. cc;
  headers_formed = (
    (
      (
        refl,
        (
          refl,
          (
            refl,
            (
              refl,
              (refl, (refl, (refl, (refl, (refl, (refl, (refl, (refl, (refl, (refl, tt)))))))))),
            ),
          ),
        ),
      ),
      (refl, tt),
      λ e. omega arith,
    ),
    tt,
  );
  supported = refl;
}

parse_two_buffers_example :
    (p : Parser) × (parse new_parser first_text
        (length (request_text get_word target_a length_header []))
      ≡ returned none p none)
    × (p.parse_phase ≡ ParsePhase.parse_body_pending)
    × (parse p (holding body_hi) (length body_hi)
        ≡ returned
            (some (with_body (to_method get_word) 11 target_a (stored length_header []) body_hi))
            (read_parser get_word target_a (stored length_header []) ParsePhase.finished)
            none)
unfolding parser_code stored
parse_two_buffers_example =
    parse_two_buffers get_word target_a length_header body_hi first_text (holding body_hi)
      length_IsRequest refl refl (omega arith) (omega arith)

-- An image whose headers come alone.
abbrev image_headers : List (Bytes × Bytes)
image_headers =
    (codes "Content-Length", codes "2") ∷ (codes "Content-Type", codes "image/jpeg") ∷ []

abbrev image_text : Memory
image_text = holding (request_text get_word target_a image_headers [])

image_IsRequest : IsRequest get_word target_a image_headers
unfolding parser_code stored
image_IsRequest = record {
  method_letters = (λ e. cc, (refl, (refl, (refl, tt))));
  target_chars = (λ e. cc, (refl, (refl, tt)));
  some_header = λ e. cc;
  headers_formed = (
    length_IsRequest.headers_formed.0,
    (
      (
        (
          refl,
          (
            refl,
            (refl, (refl, (refl, (refl, (refl, (refl, (refl, (refl, (refl, (refl, tt)))))))))),
          ),
        ),
        (refl, (refl, (refl, (refl, (refl, (refl, (refl, (refl, (refl, (refl, tt)))))))))),
        λ e. omega arith,
      ),
      tt,
    ),
  );
  supported = refl;
}

parse_media_pending_example :
    (p : Parser) × (parse new_parser image_text
        (length (request_text get_word target_a image_headers []))
      ≡ returned none p none)
    × (p.parse_phase ≢ ParsePhase.finished)
    × (parse p (holding body_hi) 2 ≡ returned none p none)
unfolding parser_code stored
parse_media_pending_example =
    parse_media_pending get_word target_a image_headers image_text (holding body_hi) 2
      image_IsRequest refl refl (omega arith)

-- A request whose method begins with a digit.
abbrev digit_text : Bytes
digit_text = codes "1ET /a HTTP/1.1" ++ crlf

digit_no-IsLine : ¬ IsLine (holding digit_text) 17
unfolding parser_code
digit_no-IsLine ([], t, am, a_t, lm, l_t, held, behind, fits) = elim lm [ ]
digit_no-IsLine (c ∷ m, t, (a, am), a_t, lm, l_t, (h, held), behind, fits) =
    let bad : isalpha b'1' ≡ true = ap isalpha h ∙ a in cc bad

refused_line_is_final_example :
    (q : Parser) × (x : HttpError) × (parse new_parser (holding digit_text) 17
      ≡ returned none q (some x))
    × (parse q held_text 29 ≡ returned none q none)
refused_line_is_final_example =
    refused_line_is_final (holding digit_text) held_text 17 29 (omega arith) digit_no-IsLine

-- A request that ends inside its first header's name.
abbrev cut_text : Bytes
cut_text = request_line_text get_word target_a ++ codes "Host"

parse_cut_throws_example :
    parse new_parser (holding cut_text) (length cut_text) ≡ threw_length_error
unfolding parser_code
parse_cut_throws_example =
    parse_cut_throws get_word target_a (codes "Host") (holding cut_text)
      host_IsRequest.method_letters host_IsRequest.target_chars (refl, (refl, (refl, (refl, tt))))
      (λ e. cc) (omega arith) (omega arith) (omega arith)

-- The start of the headers of a request.
abbrev headers_begin : HeaderState
headers_begin = record { it = 17; headers = []; ec = none }

parse_message_header_bounds_example :
    ((parse_message_header held_text 29 headers_begin).0
      ≡ header_loop held_text 29 40 headers_begin)
    × Ended held_text 29 (parse_message_header held_text 29 headers_begin).0
    × (17 ≤ (parse_message_header held_text 29 headers_begin).0.it)
    × ((parse_message_header held_text 29 headers_begin).0.it ≤ 29 + 3)
parse_message_header_bounds_example =
    parse_message_header_bounds held_text 29 40 headers_begin (omega arith) (omega arith)

abbrev dashed : Bytes
dashed = codes "x--AB"

verify_boundary_value_first_example :
    FirstPlace
      (holding dashed)
      (codes "AB")
      5
      0
      (verify_boundary_value (holding dashed) 5 0 (codes "AB") 2)
verify_boundary_value_first_example =
    verify_boundary_value_first (holding dashed) 5 0 (codes "AB") (omega arith)

-- A request line that ends in CR and a byte that is no LF is accepted.
abbrev odd_line : Bytes
odd_line = codes "GET /a HTTP/1.1" ++ (0x0d ∷ b'x' ∷ [])

abbrev odd_cursor : Flow (Unit {0}) → Cursor
odd_cursor (next a c) = c
odd_cursor (stop e c) = c

abbrev odd_end : Cursor
odd_end =
    odd_cursor
      (request_line (holding odd_line) (length odd_line) (record { parser = new_parser; it = 0 }))

request_line_inv_example :
    (m : Bytes) × (t : Bytes) × AllPass isalpha m
    × AllPass is_pathchar t
    × (0 < length m)
    × (0 < length t)
    × Holds (holding odd_line) 0 (m ++ (b' ' ∷ (t ++ (b' ' ∷ codes "HTTP/1.1"))))
    × ((holding odd_line (length m + length t + 10) ≡ 0x0d)
        ⊎ (holding odd_line (length m + length t + 11) ≡ 0x0a))
    × (length m + length t + 12 ≤ length odd_line)
    × (odd_end ≡ record {
      parser = record new_parser {
        method = m;
        target = t;
        protocol_version = 11;
        parse_phase = ParsePhase.parse_protocol_version_finished;
      };
      it = length m + length t + 12;
    })
unfolding parser_code
request_line_inv_example =
    request_line_inv (holding odd_line) (length odd_line) new_parser odd_end refl
