-- ===== src/Reactor/Accepts.antt =====
-- A new connection leaves the reactor safe, whether or not epoll takes it.
use mathlib.Core.Path.{subst}
use barcelona.Base.{ℕ, ◌≡◌, ◌≢◌, refl, sym, ap, ◌∙◌, Option, none, some, inl, inr}
use barcelona.Base.Assoc.{get, get-put_self, get-put_other, get-erase_self}
use barcelona.Io.{Error}
use barcelona.Connection.{Connection, reading, closed, read, write, Protocol, interested_events}
use barcelona.Poller.{
  Epoll, Poller, to_epoll_events, register_callback, put_mask, same_mask, or_empty, update_events,
  with_kernel, add_fd, bind_to, bind_added, start_events, register_some,
}
use barcelona.Reactor.{
  Callback, readable, writable, Owned, Reactor, channel_of, erase_connection, close_fd,
  drop_connection, new_owned, put_connection, bound, on_new_connection,
}
use barcelona.Reactor.Views.{
  IsEpoll, handlers_of, IsRegistered, IsKept, view, IsSafe, OnlyAt, OnlyAt-IsSafe, OnlyAt-trans,
  on_kernel, on_kernel-OnlyAt, erase_connection-OnlyAt,
}

module _ {K : Type 0} (fd n : ℕ) where
  abbrev register_both : Poller K Callback → Poller K Callback
  register_both q =
      register_callback fd write (writable fd n) (register_callback fd read (readable fd n) q)

  -- A new registration takes the place of one that is left from an older connection.
  both_self :
      (q : Poller K Callback)
      → IsRegistered fd (get fd q.callbacks)
      → get fd (register_both q).callbacks ≡ some (handlers_of fd n)
  unfolding register_callback put_mask same_mask to_epoll_events or_empty
  both_self q (inl e) = simp (get-put_self, e)
  both_self q (inr (k, e)) = simp (get-put_self, e)

  both_other :
      (q : Poller K Callback) (j : ℕ)
      → j ≢ fd
      → get j (register_both q).callbacks ≡ get j q.callbacks
  unfolding register_callback
  both_other q j ne = get-put_other j fd _ _ ne ∙ get-put_other j fd _ _ ne

reading-ne-closed : reading ≢ closed
reading-ne-closed e = cc

module _ {K : Type 0} (epoll : Epoll K) (laws : IsEpoll epoll) {H : Type 0} (p : Protocol H)
    (P : Connection H → Type 0) (fd : ℕ) where
  -- A connection whose channel could not be bound.
  erased :
      (r : Reactor K H) (o : Owned H)
      → get fd r.connections ≡ some o
      → IsRegistered fd (get fd r.poller.callbacks)
      → get fd r.channels ≡ none
      → IsKept P fd (view epoll (erase_connection epoll p fd r) fd)
  unfolding erase_connection drop_connection close_fd
  erased r o e registered c =
      rw (e, get-erase_self fd r.connections) (registered, laws.close_self r.poller.kernel fd, c)

  abbrev Keeps : Reactor K H → Reactor K H → Type 0
  Keeps r s = OnlyAt epoll fd r s × IsKept P fd (view epoll s fd)

  -- The connection is there, and nothing else is set up.
  abbrev IsNew : Owned H → Reactor K H → Type 0
  IsNew o r =
      (get fd r.connections ≡ some o)
      × IsRegistered fd (get fd r.poller.callbacks)
      × (get fd r.channels ≡ none)
      × (o.connection.state ≡ reading)
      × P o.connection

  erased-Keeps :
      (o : Owned H) (r : Reactor K H) → IsNew o r → Keeps r (erase_connection epoll p fd r)
  erased-Keeps o r (a, b, c, d, g) = (erase_connection-OnlyAt epoll laws p fd r, erased r o a b c)

  abbrev with_both : ℕ → K → Reactor K H → Reactor K H
  with_both n t r = record r { poller = record (register_both fd n r.poller) { kernel = t } }

  with_both-OnlyAt :
      (n : ℕ) (t : K) (r : Reactor K H)
      → ((j : ℕ) → j ≢ fd → epoll.interest t j ≡ epoll.interest r.poller.kernel j)
      → OnlyAt epoll fd r (with_both n t r)
  with_both-OnlyAt n t r h j ne = let a = h j ne in let b = both_other fd n r.poller j ne in cc

  behind : (r s t : Reactor K H) → OnlyAt epoll fd r s → Keeps s t → Keeps r t
  behind r s t f (g, kept) = (OnlyAt-trans epoll fd r s t f g, kept)

  -- Behind the second call of epoll_ctl.
  started-Keeps :
      (o : Owned H) (r : Reactor K H) (x : K × Option Error)
      → IsNew o r
      → epoll.modify r.poller.kernel fd (to_epoll_events read) ≡ x
      → Keeps r
          (bound epoll p fd o.object r (with_kernel epoll (register_both fd o.object r.poller) x))
  unfolding bound with_kernel interested_events
  started-Keeps o r (t, e) new q = started e q
    where
      other : (j : ℕ) → j ≢ fd → epoll.interest t j ≡ epoll.interest r.poller.kernel j
      other j n =
          ap (λ (x : K × Option Error). epoll.interest x.0 j) (sym q)
          ∙ laws.modify_other r.poller.kernel fd j (to_epoll_events read) n

      started :
          (e : Option Error)
          → epoll.modify r.poller.kernel fd (to_epoll_events read) ≡ (t, e)
          → Keeps r (
              bound epoll p fd o.object r
                (with_kernel epoll (register_both fd o.object r.poller) (t, e)))
      started none q =
          let f = with_both-OnlyAt o.object t r other in
          (
            λ j n.
                let a = f j n in
                let b = get-put_other j fd (channel_of fd o.object) r.channels n in cc,
            rw (new.0) (
              laws.modify_self r.poller.kernel t fd (to_epoll_events read) q
                  ∙ ap (λ x. some (to_epoll_events (interested_events x))) (sym new.3),
              both_self fd o.object r.poller new.1,
              (λ e. reading-ne-closed (sym new.3 ∙ e)),
              get-put_self fd (channel_of fd o.object) r.channels,
              new.4,
            ),
          )
      started (some x) q =
          let s = with_both o.object t r in
          behind r s (erase_connection epoll p fd s) (with_both-OnlyAt o.object t r other) (
            erased-Keeps o s
              (new.0, inr (o.object, both_self fd o.object r.poller new.1), new.2, new.3, new.4))

  bound-on_kernel :
      (n : ℕ) (t : K) (r : Reactor K H) (x : Poller K Callback × Option Error)
      → bound epoll p fd n (on_kernel epoll t r) x ≡ bound epoll p fd n r x
  unfolding bound
  bound-on_kernel n t r (q, none) = refl
  bound-on_kernel n t r (q, some e) = refl

  refused :
      (o : Owned H) (r : Reactor K H) (e : Error)
      → IsNew o r
      → Keeps r (bound epoll p fd o.object r (r.poller, some e))
  unfolding bound
  refused o r e new = erased-Keeps o r new

  added :
      (r : Reactor K H) (t : K) (e : Option Error)
      → epoll.add r.poller.kernel fd ≡ (t, e)
      → (j : ℕ) → j ≢ fd
      → epoll.interest t j ≡ epoll.interest r.poller.kernel j
  added r t e q j n =
      ap (λ (x : K × Option Error). epoll.interest x.0 j) (sym q)
      ∙ laws.add_other r.poller.kernel fd j n

  -- Behind the first call of epoll_ctl.
  added-Keeps :
      (o : Owned H) (r : Reactor K H) (x : K × Option Error)
      → IsNew o r
      → epoll.add r.poller.kernel fd ≡ x
      → Keeps r (
          bound epoll p fd o.object r
            (bind_added epoll fd (channel_of fd o.object) (with_kernel epoll r.poller x)))
  unfolding bind_added start_events update_events register_some with_kernel register_callback
  added-Keeps o r (t, some e) new q =
      let x = with_kernel epoll r.poller (t, some e) in
      subst (λ z. Keeps r z) (bound-on_kernel o.object t r x)
        (behind r (on_kernel epoll t r) (bound epoll p fd o.object (on_kernel epoll t r) x)
          (on_kernel-OnlyAt epoll fd t r (added r t (some e) q))
          (refused o (on_kernel epoll t r) e new))
  added-Keeps o r (t, none) new q =
      let s : Reactor K H = on_kernel epoll t r in
      let x =
        with_kernel epoll (register_both fd o.object s.poller)
          (epoll.modify t fd (to_epoll_events read)) in
      subst (λ z. Keeps r z) (bound-on_kernel o.object t r x)
        (behind r s (bound epoll p fd o.object s x)
          (on_kernel-OnlyAt epoll fd t r (added r t none q))
          (started-Keeps o s (epoll.modify t fd (to_epoll_events read)) new refl))

  put_connection-IsNew :
      (h : H) (r : Reactor K H)
      → IsKept P fd (view epoll r fd)
      → get fd r.connections ≡ none
      → P (record { state = reading; handler = h })
      → IsNew
          (new_owned epoll p r.objects h)
          (put_connection epoll p fd (new_owned epoll p r.objects h) r)
  unfolding put_connection new_owned erase_connection drop_connection
  put_connection-IsNew h r kept e good =
      let k = rw e at kept in
      rw e (get-put_self fd (new_owned epoll p r.objects h) r.connections, k.0, k.2, refl, good)

  put_connection-OnlyAt :
      (o : Owned H) (r : Reactor K H)
      → get fd r.connections ≡ none
      → OnlyAt epoll fd r (put_connection epoll p fd o r)
  unfolding put_connection erase_connection drop_connection
  put_connection-OnlyAt o r e j n = let a = get-put_other j fd o r.connections n in rw e cc

  pub on_new_connection-IsSafe :
      (h : H) (r : Reactor K H)
      → IsSafe epoll P r
      → get fd r.connections ≡ none
      → P (record { state = reading; handler = h })
      → IsSafe epoll P (on_new_connection epoll p fd h r)
  unfolding on_new_connection bind_to add_fd new_owned
  on_new_connection-IsSafe h r safe e good =
      let o : Owned H = new_owned epoll p r.objects h in
      let s : Reactor K H = put_connection epoll p fd o r in
      let t : Reactor K H = on_new_connection epoll p fd h r in
      let (f, kept) = behind r s t (put_connection-OnlyAt o r e) (
        added-Keeps o s (epoll.add s.poller.kernel fd) (put_connection-IsNew h r (safe fd) e good)
          refl) in
      OnlyAt-IsSafe epoll P fd r t safe f kept
