-- ===== src/Parser/Faults.antt =====
-- Headers that are refused, and headers that end the parse by an exception.
use webcrown.Base.{
  ℕ, suc, ◌+◌, ◌-◌, ◌≤◌, ◌≡◌, ◌≢◌, refl, sym, [], ◌∷◌, ◌++◌, Bytes, codes, true, false, arith,
  length, length-append, leb, ltb, ◌==◌, AllPass, none, some, insert, lookup, bytes_eq,
  eq_of_bytes_eq, bytes_eq_refl, Bool-cases, inl, inr, is_positive,
}
use webcrown.CharClass.{is_valid_token, is_pathchar, isalpha}
use webcrown.Cstdlib.{atoi}
use webcrown.StringUtils.{to_lower}
use webcrown.Http.Error.{ErrorCode, incomplete_message_header}
use webcrown.Http.Phase.{ParsePhase, ContentType}
use webcrown.Parser.Memory.{Memory, make_string, Holds, Holds-append}
use webcrown.Parser.Text.{request_line_text}
use webcrown.Parser.Defs.{Parser, new_parser}
use webcrown.Parser.StartLine.Laws.{request_line_lem}
use webcrown.Parser.Headers.{
  parse_message_header, parse_content_type, content_type_of, is_supported, headers_part,
  parse_start_line,
}
use webcrown.Parser.MediaType.{with_phase}
use webcrown.Parser.Parse.{
  threw_length_error, body_kind, parse_body, read_body, body_is_pending, after_start, start,
  is_empty_start, parse,
}
use webcrown.Parser.Reading.{read_parser, IsWord}
use webcrown.Parser.Headers.Cut.{cut_loop}

lookup_one : (k j : Bytes) → j ≢ k → lookup k (insert j [] []) ≡ none
unfolding lookup insert
lookup_one k j ne = elim (Bool-cases (bytes_eq j k)) [
  | inl e ↦ absurd (ne (eq_of_bytes_eq j k e))
  | inr e ↦ rw e
]

announced_empty :
    (name : Bytes)
    → bytes_eq name (codes "content-length") ≡ true
    → lookup (codes "content-length") (insert name [] []) ≡ some []
unfolding lookup insert
announced_empty name e = rw e

differs : (s t : Bytes) → bytes_eq s t ≡ false → s ≢ t
differs s t h e = cc (sym (rw (e, bytes_eq_refl t) at h))

content_type_one :
    (j : Bytes)
    → j ≢ codes "content-type"
    → content_type_of (insert j [] []) ≡ ContentType.not_specified
unfolding content_type_of
content_type_one j ne = rw (lookup_one (codes "content-type") j ne, content_type_of)

-- The parser at the end of headers that a buffer cuts off in a name.
abbrev cut_parser : Bytes → Bytes → Bytes → ParsePhase → Parser
cut_parser m t name phase = read_parser m t (insert (to_lower name) [] []) phase

cut_start_line :
    (x : ℕ) (m : Bytes) (y : ℕ) (t name : Bytes) (mem : Memory) (last : ℕ)
    → AllPass isalpha (x ∷ m)
    → AllPass is_pathchar (y ∷ t)
    → AllPass is_valid_token name
    → to_lower name ≢ codes "content-type"
    → 2 ≤ length name
    → Holds mem 0 (request_line_text (x ∷ m) (y ∷ t) ++ name)
    → length (request_line_text (x ∷ m) (y ∷ t)) + length name ≡ last
    → mem (last + 1) ≢ 0x0d
    → parse_start_line mem last
        (record { parser = with_phase new_parser ParsePhase.parse_start_line; it = 0 })
      ≡ (
        record {
          parser = cut_parser (x ∷ m) (y ∷ t) name ParsePhase.parse_content_type_finished;
          it = last + 2;
        },
        some incomplete_message_header,
      )
unfolding parse_start_line new_parser headers_part parse_content_type parse_message_header
    is_supported
cut_start_line x m y t name mem last am a_t an ne long held size behind =
    let i = length (request_line_text (x ∷ m) (y ∷ t)) in
    let (hl, hn) =
      Holds-append mem 0 i (request_line_text (x ∷ m) (y ∷ t)) name (omega arith) held in
    let line =
      request_line_lem mem last x m y t (with_phase new_parser ParsePhase.parse_start_line) am a_t
        hl (omega arith) in
    let room : ltb last (i + 2) ≡ false = ground arith in
    let rounds : last - i ≡ suc (length name - 1) = omega arith in
    let loop = cut_loop mem last name i (length name - 1) an hn size (omega arith) behind in
    rw (line, parse_start_line, room, rounds, loop, content_type_one (to_lower name) ne)

-- A header without a value announces no body.
not_announced :
    (mem : Memory) (last i : ℕ) (p : Parser) (name : Bytes) (ec : ErrorCode)
    → p.headers ≡ insert name [] []
    → body_is_pending mem last (record { parser = p; it = i; ec = ec }) ≡ false
unfolding body_is_pending is_positive atoi
not_announced mem last i p name ec h =
    rw h (elim (Bool-cases (bytes_eq name (codes "content-length"))) [
      | inl e ↦ rw (announced_empty name e, body_is_pending)
      | inr e ↦ rw (
        lookup_one (codes "content-length") name (differs name (codes "content-length") e),
        body_is_pending,
      )
    ])

cut_body_throws :
    (mem : Memory) (last : ℕ) (p : Parser) (ec : ErrorCode)
    → parse_body mem last (record { parser = p; it = last + 2; ec = ec }) ≡ threw_length_error
unfolding parse_body make_string
cut_body_throws mem last p ec =
    let wrapped : leb (last + 2) last ≡ false = ground arith in rw (wrapped, parse_body)

cut_start :
    (x : ℕ) (m : Bytes) (y : ℕ) (t name : Bytes) (mem : Memory) (last : ℕ)
    → AllPass isalpha (x ∷ m)
    → AllPass is_pathchar (y ∷ t)
    → AllPass is_valid_token name
    → to_lower name ≢ codes "content-type"
    → 2 ≤ length name
    → Holds mem 0 (request_line_text (x ∷ m) (y ∷ t) ++ name)
    → length (request_line_text (x ∷ m) (y ∷ t)) + length name ≡ last
    → mem (last + 1) ≢ 0x0d
    → start mem last ParsePhase.not_started new_parser none ≡ record {
      parser = cut_parser (x ∷ m) (y ∷ t) name ParsePhase.parse_content_type_finished;
      it = last + 2;
      ec = some incomplete_message_header;
    }
unfolding start
cut_start x m y t name mem last am a_t an ne long held size behind =
    rw (cut_start_line x m y t name mem last am a_t an ne long held size behind)

parse_cut :
    (x : ℕ) (m : Bytes) (y : ℕ) (t name : Bytes) (mem : Memory) (last : ℕ)
    → AllPass isalpha (x ∷ m)
    → AllPass is_pathchar (y ∷ t)
    → AllPass is_valid_token name
    → to_lower name ≢ codes "content-type"
    → 2 ≤ length name
    → Holds mem 0 (request_line_text (x ∷ m) (y ∷ t) ++ name)
    → length (request_line_text (x ∷ m) (y ∷ t)) + length name ≡ last
    → mem (last + 1) ≢ 0x0d
    → parse new_parser mem last ≡ threw_length_error
unfolding parse is_empty_start new_parser after_start read_body body_kind
parse_cut x m y t name mem last am a_t an ne long held size behind =
    let p = cut_parser (x ∷ m) (y ∷ t) name ParsePhase.parse_content_type_finished in
    let ec : ErrorCode = some incomplete_message_header in
    let s = cut_start x m y t name mem last am a_t an ne long held size behind in
    let bytes : (last == 0) ≡ false = ground arith in
    rw
      (
        bytes,
        s,
        not_announced mem last (last + 2) p (to_lower name) ec refl,
        content_type_one (to_lower name) ne,
      )
      (cut_body_throws mem last (record p { header_content_type = ContentType.not_specified }) ec)

-- A buffer that ends inside the name of the first header makes `parse` throw `std::length_error`,
-- the error code aside: the pointer has moved two bytes past the end when the body is made. The
-- name is at least two bytes long and not `content-type` (in any case), and the second byte behind
-- the buffer is no carriage return.
pub parse_cut_throws :
    (m t name : Bytes) (mem : Memory)
    → IsWord isalpha m
    → IsWord is_pathchar t
    → AllPass is_valid_token name
    → to_lower name ≢ codes "content-type"
    → 2 ≤ length name
    → Holds mem 0 (request_line_text m t ++ name)
    → mem (length (request_line_text m t ++ name) + 1) ≢ 0x0d
    → parse new_parser mem (length (request_line_text m t ++ name)) ≡ threw_length_error
parse_cut_throws [] t name mem wm wt an ne long held behind = absurd (wm.0 refl)
parse_cut_throws (x ∷ m) [] name mem wm wt an ne long held behind = absurd (wt.0 refl)
parse_cut_throws (x ∷ m) (y ∷ t) name mem wm wt an ne long held behind =
    parse_cut x m y t name mem _ wm.1 wt.1 an ne long held
      (sym (length-append (request_line_text (x ∷ m) (y ∷ t)) name)) behind
