-- ===== src/Server.antt =====
-- One client's connection as the server sets it up: Connection over HttpProtocolHandler over the
-- sink, from `new_handler` on.
pub mod Http
mod Tests
use barcelona.Base.{ℕ, Option, none, some}
use barcelona.Base.Text.{Bytes}
use barcelona.Base.Expected.{Expected}
use barcelona.Io.{WriteResult, Error, unknown, Sinker}
use barcelona.ProtocolHandler.{
  Status, error, Handler, Dispatcher, Formats, get_status, on_data, on_read_eof, Ready,
  on_write_ready,
}
use barcelona.ProtocolHandler.Lifecycle.{new_handler}
use barcelona.Connection.{Protocol, Connection, reading}

-- The handler and its sink; `none` is a handler whose parser has ended by a fault.
abbrev pub Peer : Type 0 → Type 0
Peer S = Option Handler × S

module _ (d : Dispatcher) (fm : Formats) {S : Type 0} (k : Sinker S) where
  peer_data : Bytes → Option Handler → Option Handler
  peer_data input none = none
  peer_data input (some h) = on_data d fm input h

  peer_eof : Option Handler → Option Handler
  peer_eof none = none
  peer_eof (some h) = some (on_read_eof h)

  returned : Ready S → Peer S × Expected WriteResult Error
  returned x = ((some x.handler, x.sink), x.result)

  peer_write : Peer S → Peer S × Expected WriteResult Error
  unfolding returned
  peer_write (none, s) = ((none, s), Expected.err unknown)
  peer_write (some h, s) = returned (on_write_ready k h s)

  peer_status : Option Handler → Status
  peer_status none = error
  peer_status (some h) = get_status h.state

  -- HttpProtocolHandler as a protocol::IHandler.
  unfoldable pub http_protocol : Protocol (Peer S)
  unfolding peer_data peer_eof peer_write peer_status
  http_protocol = record {
    on_data = λ input x. (peer_data input x.0, x.1);
    on_read_eof = λ x. (peer_eof x.0, x.1);
    on_write_ready = peer_write;
    get_status = λ x. peer_status x.0;
  }

  -- `Connection(...)`: it starts in state READING.
  abbrev pub new_connection : ℕ → S → Connection (Peer S)
  new_connection max s = record { state = reading; handler = (some (new_handler max), s) }
