-- ===== src/Server/Session/Laws.antt =====
-- What each operation on the send buffers does, by the state of the buffers.
use webcrown.Base.{
  ℕ, ◌+◌, ◌<◌, ◌≡◌, refl, [], ◌∷◌, ◌++◌, Bytes, true, false, arith, length, drop, ◌⊎◌, inl, inr,
}
use webcrown.Server.Session.{
  WebSession, async_write_some, try_send, buffer_text, advance, swap_buffers, acted,
}

abbrev pub unsent : WebSession → Bytes
unsent s = drop s.send_buffer_flush_offset s.send_buffer_flush

pub Bytes-cases : (s : Bytes) → (s ≡ []) ⊎ ((c : ℕ) × (t : Bytes) × (s ≡ c ∷ t))
Bytes-cases [] = inl refl
Bytes-cases (c ∷ t) = inr (c, t, refl)

-- The four cases of `try_send`.
pub try_send_busy : (s : WebSession) → s.sending ≡ true → try_send s ≡ acted s []
unfolding try_send
try_send_busy s p = ground arith

pub try_send_nothing :
    (s : WebSession)
    → s.sending ≡ false
    → s.send_buffer_flush ≡ []
    → s.send_buffer_main ≡ []
    → try_send s ≡ acted (swap_buffers s) []
unfolding try_send swap_buffers
try_send_nothing s p e m = ground arith

pub try_send_swapped :
    (s : WebSession) (c : ℕ) (t : Bytes)
    → s.sending ≡ false
    → s.send_buffer_flush ≡ []
    → s.send_buffer_main ≡ c ∷ t
    → try_send s
      ≡ acted
          (record (swap_buffers s) { sending = true })
          (async_write_some s.send_buffer_main ∷ [])
unfolding try_send swap_buffers
try_send_swapped s c t p e m = ground arith

pub try_send_rest :
    (s : WebSession) (c : ℕ) (t : Bytes)
    → s.sending ≡ false
    → s.send_buffer_flush ≡ c ∷ t
    → try_send s ≡ acted (record s { sending = true }) (async_write_some (unsent s) ∷ [])
unfolding try_send
try_send_rest s c t p e = ground arith

-- The session with a text behind its main buffer.
abbrev pub waiting : Bytes → WebSession → WebSession
waiting text s =
    let main = s.send_buffer_main ++ text in
    record s { send_buffer_main = main; bytes_pending = length main }

pub buffer_text_empty :
    (text : Bytes) (s : WebSession)
    → s.send_buffer_main ≡ []
    → buffer_text text s ≡ try_send (waiting text s)
unfolding buffer_text
buffer_text_empty text s m = ground arith

pub buffer_text_busy :
    (text : Bytes) (s : WebSession)
    → s.sending ≡ true
    → buffer_text text s ≡ acted (waiting text s) []
unfolding buffer_text
buffer_text_busy text s p = let q = try_send_busy (waiting text s) p in ground arith

pub advance-sending : (n : ℕ) (s : WebSession) → (advance n s).sending ≡ s.sending
unfolding advance
advance-sending n s = ground arith

pub advance-main : (n : ℕ) (s : WebSession) → (advance n s).send_buffer_main ≡ s.send_buffer_main
unfolding advance
advance-main n s = ground arith

-- The flush buffer is sent.
pub advance_end :
    (n : ℕ) (s : WebSession)
    → s.send_buffer_flush_offset + n ≡ length s.send_buffer_flush
    → (advance n s).send_buffer_flush ≡ []
unfolding advance
advance_end n s e = ground arith

-- Some of it is left.
pub advance_part :
    (n : ℕ) (s : WebSession)
    → s.send_buffer_flush_offset + n < length s.send_buffer_flush
    → ((advance n s).send_buffer_flush ≡ s.send_buffer_flush)
      × ((advance n s).send_buffer_flush_offset ≡ s.send_buffer_flush_offset + n)
unfolding advance
advance_part n s lt = (ground arith, ground arith)
