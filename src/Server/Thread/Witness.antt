-- ===== src/Server/Thread/Witness.antt =====
-- The theorem of the I/O thread at a request that is cut off in `Host`.
use webcrown.Base.{[], ◌∷◌, ◌++◌, Bytes, codes, length, some, true, false, ◌≡◌, refl, arith}
use webcrown.Parser.Code.{parser_code}
use webcrown.Parser.Memory.{holding}
use webcrown.Parser.Text.{request_line_text}
use webcrown.Parser.Defs.{new_parser}
use webcrown.Server.Registry.{new_server}
use webcrown.Server.Connection.{Connection}
use webcrown.Server.Thread.{Handler, ended, context_handler, read_handler}
use webcrown.Server.Thread.Laws.{cut_request_ends_thread}

abbrev cut_text : Bytes
cut_text = request_line_text (codes "GET") (codes "/a") ++ codes "Host"

abbrev reading : Connection
reading = record {
  session = record {
    session_id = 1;
    connected = true;
    receiving = true;
    sending = false;
    receive_buffer_size = 1024;
    send_buffer_main = [];
    send_buffer_flush = [];
    send_buffer_flush_offset = 0;
    bytes_pending = 0;
    bytes_sending = 0;
    bytes_received = 0;
    bytes_sent = 0;
  };
  parser = new_parser;
  world = record {
    server = record new_server { started = true; sessions = 1 ∷ [] };
    reading = 1;
    writing = 0;
    departures = 0;
    refusals = 0;
  };
}

-- A handler of another session.
abbrev other : Handler Connection
other c = some c

cut_request_ends_thread_example :
    context_handler
      ((other ∷ [])
        ++ (read_handler true (λ m. m) false (holding cut_text) (length cut_text) ∷ other ∷ []))
      reading
    ≡ ended (other ∷ [])
unfolding parser_code context_handler
cut_request_ends_thread_example =
    cut_request_ends_thread (codes "GET") (codes "/a") (codes "Host") (holding cut_text) true
      (λ m. m) (other ∷ []) (other ∷ []) reading reading (λ e. cc, (refl, (refl, (refl, tt))))
      (λ e. cc, (refl, (refl, tt))) (refl, (refl, (refl, (refl, tt)))) (λ e. cc) (omega arith)
      (omega arith) (omega arith) refl refl
