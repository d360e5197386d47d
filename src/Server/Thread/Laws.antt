-- ===== src/Server/Thread/Laws.antt =====
-- What ends the I/O thread of a server.
use webcrown.Base.{
  ℕ, ◌+◌, ◌≤◌, ◌<◌, ◌≡◌, ◌≢◌, refl, ◌∙◌, ap, List, [], ◌∷◌, ◌++◌, Bytes, codes, length,
  length-append, Bool, false, StringMap, AllPass, arith, ◌==◌, Option-cases, inl, inr,
}
use webcrown.CharClass.{is_valid_token, is_pathchar, isalpha}
use webcrown.StringUtils.{to_lower}
use webcrown.Parser.Memory.{Memory, Holds}
use webcrown.Parser.Text.{request_line_text}
use webcrown.Parser.Defs.{new_parser}
use webcrown.Parser.Parse.{parse, threw_length_error}
use webcrown.Parser.Reading.{IsWord}
use webcrown.Parser.Faults.{parse_cut_throws}
use webcrown.Server.Receive.{escaped, on_receive, read_on, async_receive_handler}
use webcrown.Server.Connection.{Connection, handle_read}
use webcrown.Server.Thread.{Handler, waiting, ended, context_handler, read_handler}

-- Handlers that return are run, and then those behind them.
pub context_handler-append :
    {S : Type 0} (hs ks : List (Handler S)) (s t : S)
    → context_handler hs s ≡ waiting t
    → context_handler (hs ++ ks) s ≡ context_handler ks t
unfolding context_handler
context_handler-append {S = S} [] ks s t e =
    let same : s ≡ t = cc e in ap (λ (x : S). context_handler ks x) same
context_handler-append (h ∷ hs) ks s t e = elim (Option-cases (h s)) [
  | inl f ↦ cc (rw (context_handler, f) at e)
  | inr (s', f) ↦ rw f (context_handler-append hs ks s' t (rw f at e))
]

handle_read_threw :
    (closes : Bool) (walk : StringMap → StringMap) (mem : Memory) (size : ℕ) (c : Connection)
    → 0 < size
    → parse c.parser mem size ≡ threw_length_error
    → handle_read closes walk false mem size c ≡ escaped
unfolding handle_read async_receive_handler on_receive read_on
handle_read_threw closes walk mem size c lt e =
    let some_bytes : (size == 0) ≡ false = ground arith in rw (some_bytes, on_receive, e) refl

-- A session whose parser is new and that reads a request whose buffer ends inside the name of its
-- first header, as in `parse_cut_throws`, ends the thread of its server, after any handlers that
-- return: the handlers behind it are not run.
pub cut_request_ends_thread :
    (m t name : Bytes) (mem : Memory) (closes : Bool) (walk : StringMap → StringMap)
    (before rest : List (Handler Connection)) (b c : Connection)
    → IsWord isalpha m
    → IsWord is_pathchar t
    → AllPass is_valid_token name
    → to_lower name ≢ codes "content-type"
    → 2 ≤ length name
    → Holds mem 0 (request_line_text m t ++ name)
    → mem (length (request_line_text m t ++ name) + 1) ≢ 0x0d
    → context_handler before b ≡ waiting c
    → c.parser ≡ new_parser
    → context_handler
        (before
          ++ (read_handler closes walk false mem (length (request_line_text m t ++ name)) ∷ rest))
        b
      ≡ ended rest
unfolding context_handler read_handler
cut_request_ends_thread m t name mem closes walk before rest b c wm wt an ne long held behind e f =
    let size = length (request_line_text m t ++ name) in
    let threw = parse_cut_throws m t name mem wm wt an ne long held behind in
    let lt : 0 < size = omega (arith, length-append (request_line_text m t) name) in
    let read = handle_read_threw closes walk mem size c lt (ap (λ p. parse p mem size) f ∙ threw) in
    context_handler-append before _ b c e ∙ rw (context_handler, read) refl
