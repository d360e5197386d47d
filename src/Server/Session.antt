-- ===== src/Server/Session.antt =====
-- `WebSession` of include/webcrown/server/impl/webserver.cpp: its connection and its send buffers.
-- What it asks of asio is a list of commands, in order; asio is outside the repository. The
-- handlers run on the I/O thread, where `dispatch` runs a handler at once. The counters have no
-- declaration in the header; they are sizes here.
pub mod Laws
use webcrown.Base.{
  ℕ, ◌+◌, ◌-◌, ◌^◌, ◌%◌, not, List, [], ◌∷◌, ◌++◌, Bytes, Bool, true, false, ◌||◌, if◌then◌else◌,
  ◌==◌, length, drop,
}

-- `session_error` of include/webcrown/server/error.hpp.
pub data SessionError : Type 0 where
  unknown sent_bytes_is_zero sent_buffer_is_nullptr not_connected : SessionError

-- A call of asio, of the error callback (with an error of the session, or of the socket), or of
-- the server's registry.
pub data Command : Type 0 where
  async_read_some : ℕ → Command
  async_write_some : Bytes → Command
  shutdown_receive close : Command
  unregister_session : ℕ → Command
  on_error : SessionError → Command
  on_socket_error : Command

pub record WebSession : Type 0 where
  pub session_id : ℕ
  pub connected : Bool
  pub receiving : Bool
  pub sending : Bool
  pub receive_buffer_size : ℕ
  pub send_buffer_main : Bytes
  pub send_buffer_flush : Bytes
  pub send_buffer_flush_offset : ℕ
  pub bytes_pending : ℕ
  pub bytes_sending : ℕ
  pub bytes_received : ℕ
  pub bytes_sent : ℕ

-- The constructor. `raw` is what the memory held: the flags, the counters and the offset have no
-- initial value.
unfoldable pub new_session : ℕ → WebSession → WebSession
new_session id raw = record raw {
  session_id = id;
  receive_buffer_size = 0;
  send_buffer_main = [];
  send_buffer_flush = [];
}

-- The session behind a call, and what the call asked for.
pub record Acted : Type 0 where
  pub session : WebSession
  pub commands : List Command

-- The same, with the call's result.
pub record Returned : Type 0 where
  pub result : Bool
  pub session : WebSession
  pub commands : List Command

abbrev pub acted : WebSession → List Command → Acted
acted s cs = record { session = s; commands = cs }

-- A call after other commands.
abbrev pub and_then : List Command → Acted → Acted
and_then cs a = record a { commands = cs ++ a.commands }

abbrev pub is_empty : Bytes → Bool
is_empty [] = true
is_empty (c ∷ s) = false

-- Differences and sums of `std::size_t`.
abbrev sub_size : ℕ → ℕ → ℕ
sub_size a b = (a + (2 ^ 64 - b % 2 ^ 64)) % 2 ^ 64

abbrev pub add_size : ℕ → ℕ → ℕ
add_size a b = (a + b) % 2 ^ 64

-- The offset is left as it is.
unfoldable pub clear_buffers : WebSession → WebSession
clear_buffers s = record s {
  send_buffer_main = [];
  send_buffer_flush = [];
  bytes_pending = 0;
  bytes_sending = 0;
}

-- The disconnect handler; `closes` is whether `socket_.close(ec)` succeeds.
unfoldable pub disconnect_handler : Bool → WebSession → Acted
disconnect_handler closes s =
    if not s.connected
    then acted s (shutdown_receive ∷ close ∷ [])
    else if not closes
    then acted s (close ∷ shutdown_receive ∷ close ∷ on_socket_error ∷ [])
    else acted (clear_buffers (record s { connected = false; receiving = false; sending = false }))
        (close ∷ shutdown_receive ∷ close ∷ unregister_session s.session_id ∷ [])

unfoldable pub disconnect : Bool → WebSession → Returned
disconnect closes s =
    let handled = disconnect_handler closes s in
    if not s.connected
    then record { result = false; session = s; commands = [] }
    else record { result = true; session = handled.session; commands = handled.commands }

unfoldable pub try_receive : WebSession → Acted
try_receive s =
    if s.receiving
    then acted s []
    else if not s.connected
    then acted s (on_error not_connected ∷ [])
    else acted (record s { receiving = true }) (async_read_some s.receive_buffer_size ∷ [])

-- `size` is the socket's receive buffer option.
unfoldable pub connect : ℕ → WebSession → Acted
connect size s = try_receive (record s {
  bytes_pending = 0;
  bytes_sending = 0;
  bytes_received = 0;
  bytes_sent = 0;
  receive_buffer_size = size;
  connected = true;
})

-- The main buffer becomes the flush buffer, which was empty.
unfoldable pub swap_buffers : WebSession → WebSession
swap_buffers s = record s {
  send_buffer_flush = s.send_buffer_main;
  send_buffer_main = s.send_buffer_flush;
  send_buffer_flush_offset = 0;
  bytes_pending = 0;
  bytes_sending = add_size s.bytes_sending (length s.send_buffer_main);
}

unfoldable pub try_send : WebSession → Acted
try_send s =
    let t = if is_empty s.send_buffer_flush then swap_buffers s else s in
    if s.sending
    then acted s []
    else if is_empty t.send_buffer_flush
    then acted t []
    else acted (record t { sending = true })
        (async_write_some (drop t.send_buffer_flush_offset t.send_buffer_flush) ∷ [])

-- Behind the tests on the text: it is buffered, and sent if no handler is.
unfoldable pub buffer_text : Bytes → WebSession → Acted
buffer_text text s =
    let required = is_empty s.send_buffer_main || is_empty s.send_buffer_flush in
    let main = s.send_buffer_main ++ text in
    let t = record s { send_buffer_main = main; bytes_pending = length main } in
    if required then try_send t else acted t []

-- A text is never a null pointer.
unfoldable pub send_async : Bool → Bytes → WebSession → Returned
send_async closes text s =
    let refused = disconnect closes s in
    let sent = buffer_text text s in
    if length text == 0
    then record { result = false; session = refused.session; commands = refused.commands }
    else record { result = true; session = sent.session; commands = sent.commands }

-- The flush buffer when `size` more bytes of it are sent.
unfoldable pub advance : ℕ → WebSession → WebSession
advance size s =
    let offset = s.send_buffer_flush_offset + size in
    let t = record s {
      bytes_sending = sub_size s.bytes_sending size;
      bytes_sent = add_size s.bytes_sent size;
      send_buffer_flush_offset = offset;
    } in
    if offset == length s.send_buffer_flush
    then record t { send_buffer_flush = []; send_buffer_flush_offset = 0 }
    else t

-- The completion of a write: its error, and the bytes that the socket took.
unfoldable pub async_write_handler : Bool → Bool → ℕ → WebSession → Acted
async_write_handler closes fails size s =
    let idle = record s { sending = false } in
    let t = advance size idle in
    let closed = disconnect closes t in
    if size == 0
    then acted idle []
    else if fails
    then acted closed.session closed.commands
    else try_send t
