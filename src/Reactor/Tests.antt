-- ===== src/Reactor/Tests.antt =====
-- A reactor over a kernel that keeps the interests in a map.
use barcelona.Base.{ℕ, ◌≡◌, ◌≢◌, refl, sym, ap, true, false, Option, none, some, List, [], ◌∷◌}
use barcelona.Base.Text.{codes}
use barcelona.Base.Expected.{ok}
use barcelona.Base.Assoc.{
  Assoc, get, put, erase, get-put_self, get-put_other, get-erase_self, get-erase_other,
}
use barcelona.Io.{Error, system, WriteStatus}
use barcelona.ProtocolHandler.{Status, want_read, want_write, over}
use barcelona.Connection.{closed, got_data, Protocol, interested_events}
use barcelona.Poller.{
  Mask, Epoll, Event, Waited, ready, eintr, to_epoll_events, add_fd, bind_to, update_events,
  register_callback, put_mask, same_mask, or_empty,
}
use barcelona.Reactor.{Owned, Reactor, Inputs, new_reactor, accept_all, erase_connection, run}
use barcelona.Reactor.Http.{IsNewPeer, http_reactor-InStep}
use barcelona.Server.{Peer, http_protocol}
use barcelona.ProtocolHandler.Lifecycle.{new_handler}
use barcelona.Samples.{greeter, formats, slow_sinker}
use barcelona.Connection.Phases.{InStep}
use barcelona.Base.Text.{Bytes}
use barcelona.Reactor.Views.{IsEpoll, IsSafe}
use barcelona.Reactor.Safe.{Batch, IsOther}
use barcelona.Reactor.Turns.{Lives, AreTurns, AreFresh, IsWait, run-IsSafe}

abbrev nothing_wanted : Mask
nothing_wanted = record { input = false; output = false }

modified : Assoc Mask → ℕ → Mask → Option Mask → Assoc Mask × Option Error
modified k fd m none = (k, some (system 2))
modified k fd m (some n) = (put fd m k, none)

abbrev kernel : Epoll (Assoc Mask)
kernel = record {
  add = λ k fd. (put fd nothing_wanted k, none);
  modify = λ k fd m. modified k fd m (get fd k);
  remove = λ k fd. (erase fd k, none);
  close = λ k fd. erase fd k;
  interest = λ k fd. get fd k;
}

kernel-IsEpoll : IsEpoll kernel
unfolding modified
kernel-IsEpoll = record {
  modify_self = λ k t fd m e. modify_self k t fd m (get fd k) e;
  modify_other = λ k fd j m n. modify_other k fd j m n (get fd k);
  add_other = λ k fd j n. get-put_other j fd nothing_wanted k n;
  close_self = λ k fd. get-erase_self fd k;
  close_other = λ k fd j n. get-erase_other j fd k n;
}
  where
    modify_self :
        (k t : Assoc Mask) (fd : ℕ) (m : Mask) (o : Option Mask)
        → modified k fd m o ≡ (t, none)
        → get fd t ≡ some m
    modify_self k t fd m none e = cc
    modify_self k t fd m (some n) e =
        let q : put fd m k ≡ t = ap (λ (x : Assoc Mask × Option Error). x.0) e in
        rw (sym q) (get-put_self fd m k)

    modify_other :
        (k : Assoc Mask) (fd j : ℕ) (m : Mask)
        → j ≢ fd
        → (o : Option Mask) → get j (modified k fd m o).0 ≡ get j k
    modify_other k fd j m n none = refl
    modify_other k fd j m n (some x) = get-put_other j fd m k n

-- It answers once, and is over when the answer is out.
abbrev once : Protocol Status
once = record {
  on_data = λ input h. want_write;
  on_read_eof = λ h. over;
  on_write_ready = λ h. (over, ok (record { status = WriteStatus.finished; bytes_sent = 1 }));
  get_status = λ h. h;
}

abbrev request : Event Inputs
request = record {
  fd = 5;
  events = record { input = true; output = false };
  interrupted = false;
  inputs = (got_data (codes "GET"), true);
}

-- A client connects and sends; then the wait is interrupted.
abbrev turns : List (List (ℕ × Status) × Waited Inputs)
turns = ((5, want_read) ∷ [], ready (request ∷ [])) ∷ ([], eintr) ∷ []

abbrev Wants : Status → Type 0
Wants h = h ≡ want_read

turns-AreTurns : AreTurns kernel kernel-IsEpoll once Wants turns (new_reactor [])
unfolding AreTurns AreFresh IsWait accept_all Batch IsOther erase_connection bind_to update_events
    register_callback put_mask same_mask or_empty modified put get to_epoll_events interested_events
    add_fd
turns-AreTurns = (
  (refl, refl, tt),
  (
    (record { input = true; output = false }, refl, record { input = λ e. refl; output = λ e. e }),
    tt,
    tt,
  ),
  λ s q. (tt, tt, λ t f. tt),
)

run-IsSafe_example :
    (s : Reactor (Assoc Mask) Status) × (run kernel once turns (new_reactor []) ≡ some s)
    × IsSafe kernel (Lives kernel kernel-IsEpoll once Wants) s
unfolding get
run-IsSafe_example =
    run-IsSafe kernel kernel-IsEpoll once Wants [] turns (λ fd. refl) turns-AreTurns

-- The same turns over the HTTP handler and a sink that takes a byte at a time.
abbrev http_turns : List (List (ℕ × Peer Bytes) × Waited Inputs)
http_turns = ((5, (some (new_handler 8), [])) ∷ [], ready (request ∷ [])) ∷ ([], eintr) ∷ []

http_turns-AreTurns :
    AreTurns kernel kernel-IsEpoll
      (http_protocol greeter formats slow_sinker)
      (IsNewPeer kernel kernel-IsEpoll greeter formats slow_sinker)
      http_turns
      (new_reactor [])
unfolding AreTurns AreFresh IsWait accept_all Batch IsOther erase_connection bind_to update_events
    register_callback put_mask same_mask or_empty modified put get to_epoll_events interested_events
    add_fd
http_turns-AreTurns = (
  (refl, (8, refl), tt),
  (
    (record { input = true; output = false }, refl, record { input = λ e. refl; output = λ e. e }),
    tt,
    tt,
  ),
  λ s q. (tt, tt, λ t f. tt),
)

http_reactor-InStep_example :
    (r : Reactor (Assoc Mask) (Peer Bytes)) × (run kernel
        (http_protocol greeter formats slow_sinker)
        http_turns
        (new_reactor [])
      ≡ some r)
    × ((fd : ℕ) (o : Owned (Peer Bytes))
        → get fd r.connections ≡ some o
        → InStep o.connection.state
            ((http_protocol greeter formats slow_sinker).get_status o.connection.handler)
          × (o.connection.state ≢ closed))
unfolding get
http_reactor-InStep_example =
    http_reactor-InStep kernel kernel-IsEpoll greeter formats slow_sinker [] http_turns (λ fd. refl)
      http_turns-AreTurns
