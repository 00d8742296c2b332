-- ===== src/Connection/Tests.antt =====
-- A connection over a handler that is its own status.
use barcelona.Base.{◌≡◌, refl, true, false, none}
use barcelona.Base.Text.{codes}
use barcelona.Base.Expected.{ok}
use barcelona.Io.{WriteStatus, unknown}
use barcelona.ProtocolHandler.{Status, want_read, want_write, over}
use barcelona.Connection.{
  reading, closing, closed, got_data, eof, read_error, Protocol, Connection, interested_events,
  on_readable, on_writable,
}
use barcelona.Connection.Phases.{
  Step, readable, Reach, here, next, IsEnding, Reach-IsEnding, Closes, failures-Closes, Persistent,
}

-- It answers once, and is over when the answer is out.
abbrev once : Protocol Status
once = record {
  on_data = λ input h. want_write;
  on_read_eof = λ h. over;
  on_write_ready = λ h. (over, ok (record { status = WriteStatus.finished; bytes_sent = 1 }));
  get_status = λ h. h;
}

once-Persistent : Persistent once
once-Persistent = record { continues = λ h h' n e. cc }

abbrev draining : Connection Status
draining = record { state = closing; handler = over }

abbrev fresh : Connection Status
fresh = record { state = reading; handler = want_read }

drains : Reach once draining (on_readable once eof true draining).0
unfolding interested_events
drains = next here (readable eof true refl)

Reach-IsEnding_example :
    IsEnding (on_readable once eof true draining).0.state
    × ((on_readable once eof true draining).0.handler ≡ draining.handler)
Reach-IsEnding_example = Reach-IsEnding once {c = draining} tt drains

failures-Closes_example :
    Closes (on_readable once (read_error unknown) false fresh)
    × Closes (on_writable once false fresh)
    × ((on_readable once eof false fresh).0.state ≡ closed)
    × ((on_readable once eof false fresh).1 ≡ none)
failures-Closes_example = failures-Closes once (read_error unknown) false fresh

reads : Step once fresh (on_readable once (got_data (codes "x")) true fresh).0
unfolding interested_events
reads = readable (got_data (codes "x")) true refl
