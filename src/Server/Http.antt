-- ===== src/Server/Http.antt =====
-- The connection over the HTTP handler: their states agree over the whole of its life.
use mathlib.Core.Path.{subst}
use barcelona.Base.{ℕ, ◌≡◌, refl, ap, none, some}
use barcelona.Base.Expected.{Expected, ok, err}
use barcelona.Io.{WriteStatus, WriteResult, Error, unknown, Sinker}
use barcelona.ProtocolHandler.{want_write, Dispatcher, Formats, get_status}
use barcelona.ProtocolHandler.Sending.{on_write_ready-sends}
use barcelona.Connection.{Connection}
use barcelona.Connection.Phases.{Reach, here, next, InStep, Persistent, Step-InStep}
use barcelona.Server.{Peer, http_protocol, new_connection, peer_status, peer_write, returned}

module _ (d : Dispatcher) (fm : Formats) {S : Type 0} (k : Sinker S) where
  abbrev continued : ℕ → Expected WriteResult Error
  continued n = ok (record { status = WriteStatus.continues; bytes_sent = n })

  peer_write-sends :
      (x y : Peer S) (n : ℕ)
      → peer_write d fm k x ≡ (y, continued n)
      → peer_status d fm k y.0 ≡ want_write
  unfolding peer_write peer_status returned
  peer_write-sends (none, s) y n e = let f : err unknown ≡ continued n = ap (λ z. z.1) e in cc
  peer_write-sends (some h, s) y n e =
      subst (λ (z : Peer S). peer_status d fm k z.0 ≡ want_write) (ap (λ z. z.0) e)
        (on_write_ready-sends k h s n (ap (λ z. z.1) e))

  http_protocol-Persistent : Persistent (http_protocol d fm k)
  unfolding http_protocol
  http_protocol-Persistent = record { continues = peer_write-sends }

  -- The connection over the HTTP handler, from its constructor on and after every series of events
  -- that it is interested in: a connection that waits to read has a handler that wants to read, and
  -- one that waits to write has a handler that wants to write, whatever bytes arrive, whatever the
  -- dispatcher answers, whatever the sink takes, and whether shutting the socket down succeeds.
  pub http_connection-InStep :
      (max : ℕ) (s : S) {c : Connection (Peer S)}
      → Reach (http_protocol d fm k) (new_connection d fm k max s) c
      → InStep c.state ((http_protocol d fm k).get_status c.handler)
  unfolding http_protocol get_status
  http_connection-InStep max s here = refl
  http_connection-InStep max s (next r e) =
      Step-InStep (http_protocol d fm k) http_protocol-Persistent e (http_connection-InStep max s r)
