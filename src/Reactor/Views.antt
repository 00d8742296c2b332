-- ===== src/Reactor/Views.antt =====
-- What a reactor and its kernel hold of one descriptor, and which operations leave it alone.
use mathlib.Core.Path.{subst}
use barcelona.Base.{
  ℕ, ◌≡◌, ◌≢◌, refl, sym, ◌∙◌, Option, none, some, ◌⊎◌, inl, inr, [], ◌∷◌, ◌==◌, Bool-cases,
  Option-cases, arith,
}
use barcelona.Base.Assoc.{get, get-erase_self, get-erase_other}
use barcelona.Connection.{Connection, closed, read, write, Protocol, interested_events}
use barcelona.Poller.{Mask, Epoll, Callbacks, Channel, to_epoll_events}
use barcelona.Reactor.{
  Callback, readable, writable, Owned, Reactor, channel_of, close_fd, drop_connection,
  erase_connection, remove_connection,
}

-- What epoll_ctl(2), epoll(7) and close(2) promise of the interest that is on record.
pub record IsEpoll {K : Type 0} (epoll : Epoll K) : Type 0 where
  pub modify_self :
      (k t : K) (fd : ℕ) (m : Mask) → epoll.modify k fd m ≡ (t, none) → epoll.interest t fd ≡ some m
  pub modify_other :
      (k : K) (fd j : ℕ) (m : Mask)
      → j ≢ fd
      → epoll.interest (epoll.modify k fd m).0 j ≡ epoll.interest k j
  pub add_other :
      (k : K) (fd j : ℕ) → j ≢ fd → epoll.interest (epoll.add k fd).0 j ≡ epoll.interest k j
  pub close_self : (k : K) (fd : ℕ) → epoll.interest (epoll.close k fd) fd ≡ none
  pub close_other :
      (k : K) (fd j : ℕ) → j ≢ fd → epoll.interest (epoll.close k fd) j ≡ epoll.interest k j

-- Interest, callbacks, connection and channel.
abbrev pub View : Type 0 → Type 0
View H = Option Mask × Option (Callbacks Callback) × Option (Owned H) × Option (Channel Callback)

abbrev pub handlers_of : ℕ → ℕ → Callbacks Callback
handlers_of fd n =
    (to_epoll_events read, readable fd n) ∷ (to_epoll_events write, writable fd n) ∷ []

-- No callbacks, or the two of a connection, which may be gone.
abbrev pub IsRegistered : ℕ → Option (Callbacks Callback) → Type 0
IsRegistered fd o = (o ≡ none) ⊎ ((n : ℕ) × (o ≡ some (handlers_of fd n)))

-- Without a connection there is no interest and no channel; a connection is not closed, its callbacks
-- are its own, the interest on record is the one that it has now, and `P` holds of it.
abbrev pub IsKept : {H : Type 0} → (Connection H → Type 0) → ℕ → View H → Type 0
IsKept P fd (i, cs, none, ch) = IsRegistered fd cs × (i ≡ none) × (ch ≡ none)
IsKept P fd (i, cs, some o, ch) =
    (i ≡ some (to_epoll_events (interested_events o.connection.state)))
    × (cs ≡ some (handlers_of fd o.object))
    × (o.connection.state ≢ closed)
    × (ch ≡ some (channel_of fd o.object))
    × P o.connection

module _ {K : Type 0} (epoll : Epoll K) {H : Type 0} where
  abbrev pub view : Reactor K H → ℕ → View H
  view r fd = (
    epoll.interest r.poller.kernel fd,
    get fd r.poller.callbacks,
    get fd r.connections,
    get fd r.channels,
  )

  abbrev pub IsSafe : (Connection H → Type 0) → Reactor K H → Type 0
  IsSafe P r = (fd : ℕ) → IsKept P fd (view r fd)

  -- Only what is held of `fd` may differ.
  abbrev pub OnlyAt : ℕ → Reactor K H → Reactor K H → Type 0
  OnlyAt fd r s = (j : ℕ) → j ≢ fd → view s j ≡ view r j

  pub OnlyAt-IsSafe :
      (P : Connection H → Type 0) (fd : ℕ) (r s : Reactor K H)
      → IsSafe P r
      → OnlyAt fd r s
      → IsKept P fd (view s fd)
      → IsSafe P s
  OnlyAt-IsSafe P fd r s safe only here j = elim (Bool-cases (j == fd)) [
    | inl e ↦ let q : fd ≡ j = ground arith in subst (λ k. IsKept P k (view s k)) q here
    | inr e ↦ let n : j ≢ fd = ground arith in subst (IsKept P j) (sym (only j n)) (safe j)
  ]

  abbrev pub on_kernel : K → Reactor K H → Reactor K H
  on_kernel k r = record r { poller = record r.poller { kernel = k } }

  pub on_kernel-OnlyAt :
      (fd : ℕ) (t : K) (r : Reactor K H)
      → ((j : ℕ) → j ≢ fd → epoll.interest t j ≡ epoll.interest r.poller.kernel j)
      → OnlyAt fd r (on_kernel t r)
  on_kernel-OnlyAt fd t r h j n = let e = h j n in cc

  pub OnlyAt-trans : (fd : ℕ) (r s t : Reactor K H) → OnlyAt fd r s → OnlyAt fd s t → OnlyAt fd r t
  OnlyAt-trans fd r s t f g j n = g j n ∙ f j n

module _ {K : Type 0} (epoll : Epoll K) (laws : IsEpoll epoll) {H : Type 0} (p : Protocol H)
    (fd : ℕ) where
  close_fd-OnlyAt : (r : Reactor K H) → OnlyAt epoll fd r (close_fd epoll p fd r)
  unfolding close_fd
  close_fd-OnlyAt r j n = let e = laws.close_other r.poller.kernel fd j n in cc

  pub erase_connection-OnlyAt :
      (r : Reactor K H) → OnlyAt epoll fd r (erase_connection epoll p fd r)
  unfolding erase_connection drop_connection close_fd
  erase_connection-OnlyAt r j n = elim (Option-cases (get fd r.connections)) [
    | inl e ↦ rw (e, erase_connection) refl
    | inr (o, e) ↦
        let a = laws.close_other r.poller.kernel fd j n in
        let b = get-erase_other j fd r.connections n in rw (e, erase_connection) cc
  ]

  pub remove_connection-OnlyAt :
      (r : Reactor K H) → OnlyAt epoll fd r (remove_connection epoll p fd r)
  unfolding remove_connection
  remove_connection-OnlyAt r j n =
      let a = erase_connection-OnlyAt r j n in
      let b = get-erase_other j fd (erase_connection epoll p fd r).channels n in cc

  -- After removeConnection the kernel, the connections and the channels hold nothing of the descriptor.
  pub remove_connection-IsKept :
      (P : Connection H → Type 0) (r : Reactor K H) (o : Owned H)
      → get fd r.connections ≡ some o
      → IsRegistered fd (get fd r.poller.callbacks)
      → IsKept P fd (view epoll (remove_connection epoll p fd r) fd)
  unfolding remove_connection erase_connection drop_connection close_fd
  remove_connection-IsKept P r o e registered =
      rw (e, get-erase_self fd r.connections)
        (registered, laws.close_self r.poller.kernel fd, get-erase_self fd r.channels)
