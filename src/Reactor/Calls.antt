-- ===== src/Reactor/Calls.antt =====
-- A callback leaves the reactor safe.
use barcelona.Base.{
  ℕ, ◌≡◌, ◌≢◌, refl, sym, ap, ◌∙◌, true, false, Option, none, some, inl, inr, ◌==◌, if◌then◌else◌,
  Bool-cases, arith,
}
use barcelona.Base.Assoc.{get, put, get-put_self, get-put_other}
use barcelona.Io.{Error}
use barcelona.Connection.{Connection, State, closed, Protocol, Called, interested_events}
use barcelona.Poller.{Mask, Epoll, to_epoll_events, update_events, with_kernel}
use barcelona.Reactor.{
  Callback, readable, writable, Owned, Reactor, Inputs, channel_of, is_closed, remove_connection,
  updated, update_poller_events, after_call, called, run_on, run_callback,
}
use barcelona.Reactor.Views.{
  IsEpoll, handlers_of, IsKept, view, OnlyAt, OnlyAt-trans, on_kernel, on_kernel-OnlyAt,
  remove_connection-OnlyAt, remove_connection-IsKept,
}

is_closed-ne : (s : State) → is_closed s ≡ false → s ≢ closed
unfolding is_closed
is_closed-ne s e f = let g = ap is_closed f in cc

module _ {K : Type 0} (epoll : Epoll K) (laws : IsEpoll epoll) {H : Type 0} (p : Protocol H)
    (P : Connection H → Type 0) (fd : ℕ) where
  -- The connection of the descriptor, with its own callbacks and channel.
  abbrev pub Owns : Owned H → Reactor K H → Type 0
  Owns o r =
      (get fd r.connections ≡ some o)
      × (get fd r.poller.callbacks ≡ some (handlers_of fd o.object))
      × (get fd r.channels ≡ some (channel_of fd o.object))

  abbrev pub Keeps : Reactor K H → Reactor K H → Type 0
  Keeps r s = OnlyAt epoll fd r s × IsKept P fd (view epoll s fd)

  removed-Keeps :
      (o : Owned H) (r : Reactor K H) → Owns o r → Keeps r (remove_connection epoll p fd r)
  removed-Keeps o r (a, b, c) = (
    remove_connection-OnlyAt epoll laws p fd r,
    remove_connection-IsKept epoll laws p fd P r o a (inr (o.object, b)),
  )

  modified :
      (r : Reactor K H) (m : Mask) (t : K) (e : Option Error)
      → epoll.modify r.poller.kernel fd m ≡ (t, e)
      → (j : ℕ) → j ≢ fd
      → epoll.interest t j ≡ epoll.interest r.poller.kernel j
  modified r m t e q j n =
      ap (λ (x : K × Option Error). epoll.interest x.0 j) (sym q)
      ∙ laws.modify_other r.poller.kernel fd j m n

  updated-Keeps :
      (o : Owned H) (r : Reactor K H) (x : K × Option Error)
      → Owns o r
      → o.connection.state ≢ closed
      → P o.connection
      → epoll.modify r.poller.kernel fd (to_epoll_events (interested_events o.connection.state)) ≡ x
      → Keeps r (updated epoll p fd r (with_kernel epoll r.poller x))
  unfolding updated with_kernel
  updated-Keeps o r (t, none) (a, b, d) open_state good q = (
    on_kernel-OnlyAt epoll fd t r (modified r _ t none q),
    rw a (laws.modify_self r.poller.kernel t fd _ q, b, open_state, d, good),
  )
  updated-Keeps o r (t, some e) owns open_state good q =
      let (f, kept) = removed-Keeps o (on_kernel epoll t r) owns in
      (
        OnlyAt-trans epoll fd r (on_kernel epoll t r)
            (remove_connection epoll p fd (on_kernel epoll t r))
            (on_kernel-OnlyAt epoll fd t r (modified r _ t (some e) q)) f,
        kept,
      )

  update-Keeps :
      (o : Owned H) (r : Reactor K H)
      → Owns o r
      → o.connection.state ≢ closed
      → P o.connection
      → Keeps r (update_poller_events epoll p fd o.connection r)
  unfolding update_poller_events update_events
  update-Keeps o r owns open_state good = updated-Keeps o r _ owns open_state good refl

  after_call-Keeps :
      (o : Owned H) (r : Reactor K H) (c : Called H)
      → Owns o r
      → P c.0
      → Keeps r (after_call epoll p fd o.object c r)
  unfolding after_call
  after_call-Keeps o r (c, e) (a, b, d) good =
      let q : Owned H = record { object = o.object; connection = c } in
      let s : Reactor K H = record r { connections = put fd q r.connections } in
      let own : Owns q s = (get-put_self fd q r.connections, b, d) in
      let frame : OnlyAt epoll fd r s = λ j n. let g = get-put_other j fd q r.connections n in cc in
      go q s own good frame e
    where
      behind : (s t : Reactor K H) → OnlyAt epoll fd r s → Keeps s t → Keeps r t
      behind s t f (g, kept) = (OnlyAt-trans epoll fd r s t f g, kept)

      go :
          (q : Owned H) (s : Reactor K H)
          → Owns q s
          → P q.connection
          → OnlyAt epoll fd r s
          → (e : Option Error)
          → Keeps r (elim e [
            | some x ↦ remove_connection epoll p fd s
            | none ↦
                if is_closed q.connection.state
                then remove_connection epoll p fd s
                else update_poller_events epoll p fd q.connection s
          ])
      go q s own good frame (some x) =
          behind s (remove_connection epoll p fd s) frame (removed-Keeps q s own)
      go q s own good frame none = elim (Bool-cases (is_closed q.connection.state)) [
        | inl f ↦ rw f (behind s (remove_connection epoll p fd s) frame (removed-Keeps q s own))
        | inr f ↦ rw f (
            behind s (update_poller_events epoll p fd q.connection s) frame
              (update-Keeps q s own (is_closed-ne q.connection.state f) good))
      ]

  -- The callbacks of a descriptor's own connection find their object.
  abbrev pub behind_call : Owned H → Reactor K H → Inputs → Callback → Reactor K H
  behind_call o r i cb = after_call epoll p fd o.object (called epoll p cb i o.connection) r

  pub run_callback-own :
      (o : Owned H) (r : Reactor K H) (i : Inputs)
      → Owns o r
      → (run_callback epoll p (readable fd o.object) i r
          ≡ some (behind_call o r i (readable fd o.object)))
        × (run_callback epoll p (writable fd o.object) i r
            ≡ some (behind_call o r i (writable fd o.object)))
  unfolding run_callback run_on
  run_callback-own o r i owns =
      let same : (o.object == o.object) ≡ true = ground arith in
      (rw (owns.0, same) refl, rw (owns.0, same) refl)

  pub behind_call-Keeps :
      (o : Owned H) (r : Reactor K H) (i : Inputs) (cb : Callback)
      → Owns o r
      → P (called epoll p cb i o.connection).0
      → Keeps r (behind_call o r i cb)
  behind_call-Keeps o r i cb owns good =
      after_call-Keeps o r (called epoll p cb i o.connection) owns good
