-- ===== src/Reactor/Turns.antt =====
-- The loop of a reactor never uses a connection that is gone.
use barcelona.Base.{ℕ, ◌≡◌, refl, Option, none, some, inl, List, [], ◌∷◌}
use barcelona.Base.Assoc.{get}
use barcelona.Io.{Error}
use barcelona.Connection.{reading, Connection, Protocol}
use barcelona.Connection.Phases.{Step, Reach, here, next}
use barcelona.Poller.{Epoll, Waited, ready, eintr, failed, poll_once, with_success}
use barcelona.Reactor.{Reactor, Inputs, new_reactor, on_new_connection, accept_all, poll, run}
use barcelona.Reactor.Views.{IsEpoll, IsSafe}
use barcelona.Reactor.Accepts.{on_new_connection-IsSafe}
use barcelona.Reactor.Safe.{Batch, poll_events-IsSafe}

module _ {K : Type 0} (epoll : Epoll K) (laws : IsEpoll epoll) {H : Type 0} (p : Protocol H)
    (N : H → Type 0) where
  -- A connection that events it is interested in have led here from its constructor, over a handler
  -- of which `N` held.
  abbrev pub Lives : Connection H → Type 0
  Lives c = (h : H) × N h × Reach p (record { state = reading; handler = h }) c

  Lives-next : (c d : Connection H) → Lives c → Step p c d → Lives d
  Lives-next c d (h, n, r) s = (h, n, next r s)

  -- A socket that is accepted has a descriptor that no connection has, and a new handler.
  unfoldable pub AreFresh : List (ℕ × H) → Reactor K H → Type 0
  AreFresh [] r = Unit
  AreFresh ((fd, h) ∷ sockets) r =
      (get fd r.connections ≡ none) × N h × AreFresh sockets (on_new_connection epoll p fd h r)

  unfoldable pub IsWait : Waited Inputs → Reactor K H → Type 0
  IsWait (ready es) r = Batch epoll laws p r es
  IsWait eintr r = Unit
  IsWait (failed e) r = Unit

  -- Turns as the kernel may give them.
  unfoldable pub AreTurns : List (List (ℕ × H) × Waited Inputs) → Reactor K H → Type 0
  unfolding AreFresh IsWait
  AreTurns [] r = Unit
  AreTurns ((sockets, waited) ∷ turns) r =
      AreFresh sockets r
      × IsWait waited (accept_all epoll p sockets r)
      × ((s : Reactor K H)
          → poll epoll p waited (accept_all epoll p sockets r) ≡ some (s, none)
          → AreTurns turns s)

  accept_all-IsSafe :
      (sockets : List (ℕ × H)) (r : Reactor K H)
      → IsSafe epoll Lives r
      → AreFresh sockets r
      → IsSafe epoll Lives (accept_all epoll p sockets r)
  unfolding accept_all AreFresh
  accept_all-IsSafe [] r safe fresh = safe
  accept_all-IsSafe ((fd, h) ∷ sockets) r safe (f, n, fresh) =
      accept_all-IsSafe sockets (on_new_connection epoll p fd h r)
        (on_new_connection-IsSafe epoll laws p Lives fd h r safe f (h, n, here)) fresh

  poll-IsSafe :
      (waited : Waited Inputs) (r : Reactor K H)
      → IsSafe epoll Lives r
      → IsWait waited r
      → (s : Reactor K H) × (e : Option Error) × (poll epoll p waited r ≡ some (s, e))
        × IsSafe epoll Lives s
  unfolding poll poll_once IsWait with_success
  poll-IsSafe eintr r safe w = (r, none, refl, safe)
  poll-IsSafe (failed e) r safe w = (r, some e, refl, safe)
  poll-IsSafe (ready es) r safe w =
      let (s, q, safe') = poll_events-IsSafe epoll laws p Lives Lives-next es r safe w in
      (s, none, rw q refl, safe')

  turns-IsSafe :
      (turns : List (List (ℕ × H) × Waited Inputs)) (r : Reactor K H)
      → IsSafe epoll Lives r
      → AreTurns turns r
      → (s : Reactor K H) × (run epoll p turns r ≡ some s) × IsSafe epoll Lives s
  unfolding run AreTurns
  turns-IsSafe [] r safe t = (r, refl, safe)
  turns-IsSafe ((sockets, waited) ∷ turns) r safe (fresh, wait, rest) =
      polled
        (poll-IsSafe waited (accept_all epoll p sockets r) (accept_all-IsSafe sockets r safe fresh)
          wait)
        (λ s q safe'. turns-IsSafe turns s safe' (rest s q))
    where
      polled :
          ((s : Reactor K H) × (e : Option Error) × (poll epoll p waited
                (accept_all epoll p sockets r)
              ≡ some (s, e))
            × IsSafe epoll Lives s)
          → ((s : Reactor K H)
              → poll epoll p waited (accept_all epoll p sockets r) ≡ some (s, none)
              → IsSafe epoll Lives s
              → (t : Reactor K H) × (run epoll p turns s ≡ some t) × IsSafe epoll Lives t)
          → (s : Reactor K H) × (run epoll p ((sockets, waited) ∷ turns) r ≡ some s)
            × IsSafe epoll Lives s
      polled (s, some e, q, safe') go_on = (s, rw (q, run) refl, safe')
      polled (s, none, q, safe') go_on = let (t, f, g) = go_on s q safe' in (t, rw (q, run) f, g)

  -- From a new reactor on, over an epoll that keeps its promises, whatever sockets, events and
  -- results the turns bring, where the descriptor of a socket is not that of a connection, its
  -- handler is new, and one wait reports a descriptor once, and only for the interest on record: the
  -- run never uses a connection that is gone. Afterwards no connection is closed; each has its
  -- channel, both callbacks, and on record the interest of its state, and has come from its
  -- constructor only by events that it was interested in; and a descriptor without a connection has
  -- no channel and nothing on record.
  pub run-IsSafe :
      (k : K) (turns : List (List (ℕ × H) × Waited Inputs))
      → ((fd : ℕ) → epoll.interest k fd ≡ none)
      → AreTurns turns (new_reactor k)
      → (s : Reactor K H) × (run epoll p turns (new_reactor k) ≡ some s) × IsSafe epoll Lives s
  unfolding get
  run-IsSafe k turns empty t =
      turns-IsSafe turns (new_reactor k) (λ fd. (inl refl, empty fd, refl)) t
