-- ===== src/Reactor.antt =====
-- src/Reactor.cc: the connections of a reactor, their channels and its poller. A connection runs over
-- an interface of protocol handlers; its object has a number, so that a callback's pointer to an
-- object that is gone, or to one of an older connection, is told apart. Logging is left out.
pub mod Views
pub mod Calls
pub mod Accepts
pub mod Safe
pub mod Turns
pub mod Http
mod Tests
use barcelona.Base.{
  ℕ, Bool, true, false, ◌+◌, Option, none, some, List, [], ◌∷◌, ◌==◌, if◌then◌else◌,
}
use barcelona.Base.Assoc.{Assoc, get, put, erase}
use barcelona.Io.{Error}
use barcelona.Connection.{
  State, reading, writing, closing, closed, nothing, read, write, ReadResult, Protocol, Connection,
  Called, interested_events, on_readable, on_writable,
}
use barcelona.Poller.{
  Mask, Epoll, Poller, Callbacks, Channel, Event, Waited, ready, eintr, failed, update_events,
  bind_to, poll_once,
}

-- The closures of `onNewConnection`: they hold the descriptor and a pointer to the connection.
pub data Callback : Type 0 where
  readable writable : (fd object : ℕ) → Callback

pub record Owned (H : Type 0) : Type 0 where
  pub object : ℕ
  pub connection : Connection H

-- `objects` counts the connections made.
pub record Reactor (K H : Type 0) : Type 0 where
  pub poller : Poller K Callback
  pub connections : Assoc (Owned H)
  pub channels : Assoc (Channel Callback)
  pub objects : ℕ

-- `Reactor(config)`, with a new poller.
abbrev pub new_reactor : {K H : Type 0} → K → Reactor K H
new_reactor k = record {
  poller = record { kernel = k; callbacks = [] };
  connections = [];
  channels = [];
  objects = 0;
}

-- What the calls of a callback meet: the result of `read`, and the success of `shutdown`.
abbrev pub Inputs : Type 0
Inputs = ReadResult × Bool

abbrev pub channel_of : ℕ → ℕ → Channel Callback
channel_of fd n = (some (readable fd n), some (writable fd n))

-- `isClosed`
unfoldable pub is_closed : State → Bool
is_closed closed = true
is_closed _ = false

module _ {K : Type 0} (epoll : Epoll K) {H : Type 0} (p : Protocol H) where
  -- The end of the socket that a connection owns.
  unfoldable pub close_fd : ℕ → Reactor K H → Reactor K H
  close_fd fd r = record r { poller = record r.poller { kernel = epoll.close r.poller.kernel fd } }

  unfoldable pub drop_connection : ℕ → Reactor K H → Option (Owned H) → Reactor K H
  unfolding close_fd
  drop_connection fd r none = r
  drop_connection fd r (some o) = close_fd fd (record r { connections = erase fd r.connections })

  -- `connections_.erase(fd)`
  unfoldable pub erase_connection : ℕ → Reactor K H → Reactor K H
  unfolding drop_connection
  erase_connection fd r = drop_connection fd r (get fd r.connections)

  -- `removeConnection`
  unfoldable pub remove_connection : ℕ → Reactor K H → Reactor K H
  unfolding erase_connection
  remove_connection fd r =
      let s = erase_connection fd r in record s { channels = erase fd s.channels }

  unfoldable pub updated : ℕ → Reactor K H → Poller K Callback × Option Error → Reactor K H
  unfolding remove_connection
  updated fd r (q, none) = record r { poller = q }
  updated fd r (q, some e) = remove_connection fd (record r { poller = q })

  -- `update_poller_events`
  unfoldable pub update_poller_events : ℕ → Connection H → Reactor K H → Reactor K H
  unfolding updated
  update_poller_events fd c r =
      updated fd r (update_events epoll fd (interested_events c.state) r.poller)

  -- Behind `onReadable` and `onWritable`, which have changed the connection.
  unfoldable pub after_call : ℕ → ℕ → Called H → Reactor K H → Reactor K H
  unfolding remove_connection update_poller_events is_closed
  after_call fd n (c, e) r =
      let s = record r {
        connections = put fd (record { object = n; connection = c }) r.connections;
      } in
      elim e [
        | some x ↦ remove_connection fd s
        | none ↦ if is_closed c.state then remove_connection fd s else update_poller_events fd c s
      ]

  unfoldable pub called : Callback → Inputs → Connection H → Called H
  called (readable fd n) (x, shut) c = on_readable p x shut c
  called (writable fd n) (x, shut) c = on_writable p shut c

  -- The pointer must be to the object that is there.
  unfoldable pub run_on :
      ℕ → ℕ → Callback → Inputs → Reactor K H → Option (Owned H) → Option (Reactor K H)
  unfolding after_call called
  run_on fd n cb i r none = none
  run_on fd n cb i r (some o) =
      if o.object == n then some (after_call fd n (called cb i o.connection) r) else none

  -- The handlers that `onNewConnection` sets; `none` is a use of a pointer to an object that is gone.
  unfoldable pub run_callback : Callback → Inputs → Reactor K H → Option (Reactor K H)
  unfolding run_on
  run_callback (readable fd n) i r = run_on fd n (readable fd n) i r (get fd r.connections)
  run_callback (writable fd n) i r = run_on fd n (writable fd n) i r (get fd r.connections)

  unfoldable pub bound : ℕ → ℕ → Reactor K H → Poller K Callback × Option Error → Reactor K H
  unfolding erase_connection
  bound fd n r (q, none) = record r { poller = q; channels = put fd (channel_of fd n) r.channels }
  bound fd n r (q, some e) = erase_connection fd (record r { poller = q })

  unfoldable pub new_owned : ℕ → H → Owned H
  new_owned n h = record { object = n; connection = record { state = reading; handler = h } }

  -- `connections_[clientFd] = std::move(...)`: the connection that was there ends.
  unfoldable pub put_connection : ℕ → Owned H → Reactor K H → Reactor K H
  unfolding erase_connection
  put_connection fd o r =
      let s = erase_connection fd r in
      record s { connections = put fd o s.connections; objects = o.object + 1 }

  -- `onNewConnection`, with the new handler; `make_connection` never fails.
  unfoldable pub on_new_connection : ℕ → H → Reactor K H → Reactor K H
  unfolding put_connection new_owned bound
  on_new_connection fd h r =
      let s = put_connection fd (new_owned r.objects h) r in
      bound fd r.objects s (bind_to epoll fd (channel_of fd r.objects) s.poller)

  unfoldable pub callbacks : Reactor K H → Assoc (Callbacks Callback)
  callbacks r = r.poller.callbacks

  -- The inner loop of `run`: the sockets that the queue gives, each with its new handler.
  unfoldable pub accept_all : List (ℕ × H) → Reactor K H → Reactor K H
  unfolding on_new_connection
  accept_all [] r = r
  accept_all ((fd, h) ∷ sockets) r = accept_all sockets (on_new_connection fd h r)

  -- `poller_.pollOnce(100)`
  unfoldable pub poll : Waited Inputs → Reactor K H → Option (Reactor K H × Option Error)
  unfolding callbacks
  poll waited r = poll_once run_callback callbacks waited r

  unfoldable pub stops : Option Error → Bool
  stops none = false
  stops (some e) = true

  -- `run`, on the sockets and the events of each turn; a turn that is not there is one before which
  -- `stop` was called.
  unfoldable pub run : List (List (ℕ × H) × Waited Inputs) → Reactor K H → Option (Reactor K H)
  run [] r = some r
  run ((sockets, waited) ∷ turns) r = elim (poll waited (accept_all sockets r)) [
    | none ↦ none
    | some (s, some e) ↦ some s
    | some (s, none) ↦ run turns s
  ]
