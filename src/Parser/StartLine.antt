-- ===== src/Parser/StartLine.antt =====
-- `parse_method`, `parse_target`, `parse_protocol` and the request line of `parse_start_line`.
pub mod Laws
pub mod Inverse
pub mod Refused
pub mod Sound
use webcrown.Base.{
  ℕ, zero, suc, ◌+◌, ◌-◌, ◌*◌, List, [], ◌∷◌, Bytes, Option, none, some, Bool, true, false, ◌&&◌,
  ◌||◌, not, leb, ltb, ◌==◌, if◌then◌else◌, or_else,
}
use webcrown.CharClass.{is_token_char, is_pathchar, is_digit, isalpha, isspace}
use webcrown.Http.Error.{
  HttpError, bad_method, bad_target, bad_version, incomplete_start_line, invalid_request_line,
}
use webcrown.Http.Phase.{ParsePhase}
use webcrown.Parser.Memory.{Memory, slice}
use webcrown.Parser.Defs.{
  Parser, Cursor, at, in_phase, Flow, next, stop, M, ◌>>=◌, ◌>>◌, fail_if, set_phase, get_it,
  set_it,
}

module _ (mem : Memory) (last : ℕ) where
  -- The loop of `parse_method`, on the count of rounds left: where it ends, and whether a token
  -- character that is no letter ended it.
  unfoldable pub method_loop : ℕ → ℕ → ℕ × Bool
  method_loop zero it = (it, false)
  method_loop (suc n) it =
      let rest = method_loop n (suc it) in
      if not (is_token_char (mem it))
      then (it, false)
      else if not (isalpha (mem it))
      then (it, true)
      else rest

  -- The text is `make_string(first, it)`, with `first` not after `it`.
  unfoldable pub parse_method : M Bytes
  parse_method = do
    set_phase ParsePhase.parse_method
    first ← get_it
    fail_if (isspace (mem first)) bad_method
    let end = method_loop (last - first) first
    set_it end.0
    fail_if end.1 bad_method
    fail_if (leb last (end.0 + 1)) incomplete_start_line
    fail_if (not (mem end.0 == b' ')) bad_method
    fail_if (end.0 == last) bad_method
    set_it (end.0 + 1)
    set_phase ParsePhase.parse_method_finished
    next (slice mem first (end.0 - first))

  unfoldable pub target_loop : ℕ → ℕ → ℕ
  target_loop zero it = it
  target_loop (suc n) it =
      let rest = target_loop n (suc it) in if not (is_pathchar (mem it)) then it else rest

  unfoldable pub parse_target : M Bytes
  parse_target = do
    set_phase ParsePhase.parse_target
    first ← get_it
    fail_if (not (is_pathchar (mem first))) bad_target
    let end = target_loop (last - first) first
    set_it end
    fail_if (leb last (end + 1)) incomplete_start_line
    fail_if (not (mem end == b' ')) bad_target
    fail_if (end == last) bad_target
    set_it (end + 1)
    set_phase ParsePhase.parse_target_finished
    next (slice mem first (end - first))

  -- `if (*it++ != c) { ec = bad_version; return; }`
  unfoldable pub expect : ℕ → M (Unit {0})
  expect c = do i ← get_it; set_it (i + 1); fail_if (not (mem i == c)) bad_version

  -- A digit, read by `*it++ - '0'` after its test.
  unfoldable pub digit : M ℕ
  digit = do
    i ← get_it
    fail_if (not (is_digit (mem i))) bad_version
    set_it (i + 1)
    next (mem i - b'0')

  -- `protocol_version` is written after the first digit, and again after the second.
  unfoldable pub set_version : ℕ → M (Unit {0})
  set_version v c =
      next tt (record { parser = record (c.parser) { protocol_version = v }; it = c.it })

  unfoldable pub parse_protocol : M (Unit {0})
  parse_protocol = do
    set_phase ParsePhase.parse_protocol_version
    i ← get_it
    fail_if (ltb last (i + 8)) incomplete_start_line
    expect b'H'
    expect b'T'
    expect b'T'
    expect b'P'
    expect b'/'
    major ← digit
    set_version (10 * major)
    expect b'.'
    minor ← digit
    set_version (10 * major + minor)
    set_phase ParsePhase.parse_protocol_version_finished

  unfoldable pub set_method : Bytes → M (Unit {0})
  set_method s c = next tt (record { parser = record (c.parser) { method = s }; it = c.it })

  unfoldable pub set_target : Bytes → M (Unit {0})
  set_target s c = next tt (record { parser = record (c.parser) { target = s }; it = c.it })

  unfoldable pub get_version : M ℕ
  get_version c = next c.parser.protocol_version c

  -- `parse_start_line` up to the line's CRLF.
  unfoldable pub request_line : M (Unit {0})
  request_line = do
    set_phase ParsePhase.parse_start_line_started
    method ← parse_method
    set_method method
    target ← parse_target
    set_target target
    parse_protocol
    version ← get_version
    fail_if (ltb version 11 || ltb 11 version) bad_version
    i ← get_it
    fail_if (ltb last (i + 2)) incomplete_start_line
    fail_if (not (mem i == 0x0d) && not (mem (i + 1) == 0x0a)) invalid_request_line
    set_it (i + 2)
