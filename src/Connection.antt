-- ===== src/Connection.antt =====
-- lib/core/src/Connection.cc: the state machine of one connection over a protocol handler.
-- The handler is an interface; what `read` and `shutdown` return is an argument.
pub mod Phases
pub mod TcpSource
mod Tests
use barcelona.Base.{ℕ, Bool, true, false, Option, none, some, if◌then◌else◌}
use barcelona.Base.Text.{Bytes}
use barcelona.Base.Expected.{Expected, ok, err}
use barcelona.Io.{WriteStatus, WriteResult, Error}
use barcelona.ProtocolHandler.{Status, want_read, want_write, over, error}

pub data State : Type 0 where
  reading writing closing closed : State

pub data EventType : Type 0 where
  nothing read write : EventType

-- What ISource::read returns: core::ReadResult with the bytes read, or an error.
pub data ReadResult : Type 0 where
  got_data : Bytes → ReadResult
  eof would_block : ReadResult
  read_error : Error → ReadResult

-- protocol::IHandler over a state `H`.
pub record Protocol (H : Type 0) : Type 0 where
  pub on_data : Bytes → H → H
  pub on_read_eof : H → H
  pub on_write_ready : H → H × Expected WriteResult Error
  pub get_status : H → Status

pub record Connection (H : Type 0) : Type 0 where
  pub state : State
  pub handler : H

-- The connection behind a call, and the error that the call returns.
abbrev pub Called : Type 0 → Type 0
Called H = Connection H × Option Error

unfoldable pub interested_events : State → EventType
interested_events reading = read
interested_events writing = write
interested_events closing = read
interested_events closed = nothing

-- The switch on the protocol's status; the flag is the success of `shutdownWrite`.
unfoldable pub next_state : Status → Bool → State
next_state want_read shut = reading
next_state want_write shut = writing
next_state over shut = if shut then closing else closed
next_state error shut = closed

module _ {H : Type 0} (p : Protocol H) where
  update_state_in : State → Bool → Connection H → Connection H
  unfolding next_state
  update_state_in closing shut c = c
  update_state_in closed shut c = c
  update_state_in _ shut c = record c { state = next_state (p.get_status c.handler) shut }

  -- `updateStateFromProtocol`
  unfoldable pub update_state : Bool → Connection H → Connection H
  unfolding update_state_in
  update_state shut c = update_state_in c.state shut c

  -- The branch of state CLOSING, which only waits for the end of the input.
  drain : ReadResult → Connection H → Connection H
  drain eof c = record c { state = closed }
  drain _ c = c

  receive : ReadResult → Bool → Connection H → Called H
  unfolding update_state
  receive (read_error e) shut c = (record c { state = closed }, some e)
  receive (got_data input) shut c =
      (update_state shut (record c { handler = p.on_data input c.handler }), none)
  receive eof shut c =
      (update_state shut (record c { handler = p.on_read_eof c.handler; state = closed }), none)
  receive would_block shut c = (c, none)

  on_readable_in : State → ReadResult → Bool → Connection H → Called H
  unfolding drain receive
  on_readable_in closing r shut c = (drain r c, none)
  on_readable_in _ r shut c = receive r shut c

  -- `onReadable`
  unfoldable pub on_readable : ReadResult → Bool → Connection H → Called H
  unfolding on_readable_in
  on_readable r shut c = on_readable_in c.state r shut c

  written : H × Expected WriteResult Error → Bool → Connection H → Called H
  unfolding update_state
  written (h, err e) shut c = (record { state = closed; handler = h }, some e)
  written (h, ok r) shut c =
      let c' = record c { handler = h } in
      elim r.status [
        | WriteStatus.continues ↦ (record c' { state = writing }, none)
        | WriteStatus.finished ↦ (update_state shut c', none)
      ]

  -- `onWritable`
  unfoldable pub on_writable : Bool → Connection H → Called H
  unfolding written
  on_writable shut c = written (p.on_write_ready c.handler) shut c
