-- ===== src/Server/Stream.antt =====
-- What a session sends: the texts given to `send_async` against the bytes that its socket takes.
pub mod Socket
mod Buffers
use webcrown.Base.{
  drop_add, drop-length, ℕ, ◌+◌, ◌≤◌, ◌<◌, ◌≡◌, refl, ap, ◌∙◌, sym, List, [], ◌∷◌, ◌++◌, append-nil,
  append_assoc, Bytes, true, false, Option, none, some, arith, length, take, drop, take-append-drop,
  length-drop, ◌==◌, ==_iff, ◌⊎◌, inl, inr, Bool-cases,
}
use webcrown.Server.Session.{
  WebSession, Command, async_write_some, Acted, send_async, async_write_handler, try_send,
  buffer_text, advance, swap_buffers,
}
use webcrown.Server.Session.Laws.{
  unsent, Bytes-cases, try_send_nothing, try_send_swapped, try_send_rest, waiting,
  buffer_text_empty, buffer_text_busy, advance-sending, advance-main, advance_end, advance_part,
}
use webcrown.Server.Stream.Socket.{Link, started, give, complete, after, give_lem, complete_lem}
use webcrown.Server.Stream.Buffers.{Sound, idle, busy, Sound-gave, Sound-completed}

-- A session without a disconnection: texts are given, and writes end in any order of the two. A
-- write of asio ends with one byte or more, and no more than it was given.
pub data Reach (s : WebSession) : Link → Type 0 where
  begun : Reach s (record { session = s; writing = none; wire = []; given = [] })
  gave : (l : Link) (text : Bytes) → 0 < length text → Reach s l → Reach s (give text l)
  completed :
      (l : Link) (n : ℕ) (text : Bytes)
      → l.writing ≡ some text
      → 0 < n
      → n ≤ length text
      → Reach s l
      → Reach s (complete n text l)

Reach-Sound :
    (s : WebSession) (l : Link)
    → s.sending ≡ false
    → s.send_buffer_flush ≡ []
    → s.send_buffer_main ≡ []
    → Reach s l
    → Sound l
Reach-Sound s l p e m begun = idle p e m refl refl
Reach-Sound s l p e m (gave l' text lt r) = Sound-gave l' text lt (Reach-Sound s l' p e m r)
Reach-Sound s l p e m (completed l' n text w lt le r) =
    Sound-completed l' n text w lt le (Reach-Sound s l' p e m r)

-- In a session that begins with empty send buffers and no write, over any texts of one byte or
-- more that are given and any writes that end without an error and take one byte or more, with no
-- disconnection: either the socket has taken exactly the texts that were given, in their order, or
-- a write is in progress, of one byte or more, and what the socket has taken, the text of that
-- write and the main buffer together are those texts in their order.
pub sent_in_order :
    (s : WebSession) (l : Link)
    → s.sending ≡ false
    → s.send_buffer_flush ≡ []
    → s.send_buffer_main ≡ []
    → Reach s l
    → (l.wire ≡ l.given)
      ⊎ ((text : Bytes) × (l.writing ≡ some text)
          × (0 < length text)
          × (l.wire ++ (text ++ l.session.send_buffer_main) ≡ l.given))
sent_in_order s l p e m r = elim (Reach-Sound s l p e m r) [
  | idle q f b w g ↦ inl g
  | busy q o w g ↦ inr (
    unsent l.session,
    w,
    omega (arith, length-drop l.session.send_buffer_flush_offset l.session.send_buffer_flush),
    g,
  )
]

-- In a session as in `sent_in_order`, when `sending_` is false nothing is left to send: no text that
-- was given while a write was in progress is forgotten.
pub idle_delivered :
    (s : WebSession) (l : Link)
    → s.sending ≡ false
    → s.send_buffer_flush ≡ []
    → s.send_buffer_main ≡ []
    → Reach s l
    → l.session.sending ≡ false
    → l.wire ≡ l.given
idle_delivered s l p e m r h = elim (Reach-Sound s l p e m r) [
  | idle q f b w g ↦ g
  | busy q o w g ↦ cc
]
