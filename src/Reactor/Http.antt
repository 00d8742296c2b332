-- ===== src/Reactor/Http.antt =====
-- A reactor whose connections run over the HTTP handler.
use mathlib.Core.Path.{subst}
use barcelona.Base.{ℕ, ◌≡◌, ◌≢◌, none, some, List}
use barcelona.Base.Assoc.{get}
use barcelona.Io.{Sinker}
use barcelona.ProtocolHandler.{Dispatcher, Formats}
use barcelona.ProtocolHandler.Lifecycle.{new_handler}
use barcelona.Connection.{Connection, reading, closed}
use barcelona.Connection.Phases.{Reach, InStep}
use barcelona.Server.{Peer, http_protocol}
use barcelona.Server.Http.{http_connection-InStep}
use barcelona.Poller.{Epoll, Waited}
use barcelona.Reactor.{Owned, Reactor, Inputs, new_reactor, run}
use barcelona.Reactor.Views.{IsEpoll}
use barcelona.Reactor.Turns.{AreTurns, Lives, run-IsSafe}

module _ {K : Type 0} (epoll : Epoll K) (laws : IsEpoll epoll) (d : Dispatcher) (fm : Formats)
    {S : Type 0} (sinker : Sinker S) where
  -- What onNewConnection makes: a new handler, over the sink of the socket.
  abbrev pub IsNewPeer : Peer S → Type 0
  IsNewPeer x = (max : ℕ) × (x.0 ≡ some (new_handler max))

  Lives-InStep :
      (c : Connection (Peer S))
      → Lives epoll laws (http_protocol d fm sinker) IsNewPeer c
      → InStep c.state ((http_protocol d fm sinker).get_status c.handler)
  Lives-InStep c ((h, s), (max, e), r) = http_connection-InStep d fm sinker max s (
      subst
        (λ x. Reach (http_protocol d fm sinker) (record { state = reading; handler = (x, s) }) c) e
        r)

  -- In a reactor over the HTTP handler, after every run over an epoll that keeps its promises: a
  -- connection that waits to read has a handler that wants to read, one that waits to write has a
  -- handler that wants to write, and none is closed.
  pub http_reactor-InStep :
      (k : K) (turns : List (List (ℕ × Peer S) × Waited Inputs))
      → ((fd : ℕ) → epoll.interest k fd ≡ none)
      → AreTurns epoll laws (http_protocol d fm sinker) IsNewPeer turns (new_reactor k)
      → (r : Reactor K (Peer S)) × (run epoll (http_protocol d fm sinker) turns (new_reactor k)
          ≡ some r)
        × ((fd : ℕ) (o : Owned (Peer S))
            → get fd r.connections ≡ some o
            → InStep o.connection.state
                ((http_protocol d fm sinker).get_status o.connection.handler)
              × (o.connection.state ≢ closed))
  http_reactor-InStep k turns empty t =
      let (r, q, safe) =
        run-IsSafe epoll laws (http_protocol d fm sinker) IsNewPeer k turns empty t in
      (r, q, λ fd o e. let kept = rw e at (safe fd) in (Lives-InStep o.connection kept.4, kept.2))
