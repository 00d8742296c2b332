-- ===== src/Reactor/Safe.antt =====
-- No callback of a reactor uses a connection that is gone.
use mathlib.Core.Path.{subst}
use barcelona.Base.{
  ℕ, ◌≡◌, ◌≢◌, refl, ap, ◌∙◌, Bool, true, false, ◌&&◌, ◌||◌, Option, none, some, ◌⊎◌, inl, inr,
  List, [], ◌∷◌, if◌then◌else◌, Bool-cases,
}
use barcelona.Base.Assoc.{get}
use barcelona.Connection.Phases.{Step}
use barcelona.Connection.{
  Connection, read, write, State, reading, writing, closing, closed, Protocol, interested_events,
}
use barcelona.Poller.{
  Mask, Epoll, Event, to_epoll_events, meets, and_then, call_one, call_all, handle_event,
  poll_events,
}
use barcelona.Reactor.{called, readable, writable, Owned, Reactor, Inputs, run_callback, callbacks}
use barcelona.Reactor.Views.{
  IsEpoll, handlers_of, IsKept, View, view, IsSafe, OnlyAt, OnlyAt-IsSafe,
}
use barcelona.Reactor.Calls.{Owns, Keeps, run_callback-own, behind_call-Keeps}

-- A mask asks for one kind of event at most.
one_kind :
    (s : State)
    → let m = to_epoll_events (interested_events s) in (m.input ≡ false) ⊎ (m.output ≡ false)
unfolding to_epoll_events interested_events
one_kind reading = inr refl
one_kind writing = inl refl
one_kind closing = inr refl
one_kind closed = inl refl

-- The events are among those that the mask asks for, or are others than EPOLLIN and EPOLLOUT.
pub record IsWithin (e m : Mask) : Type 0 where
  pub input : e.input ≡ true → m.input ≡ true
  pub output : e.output ≡ true → m.output ≡ true

within_one :
    (e m : Mask)
    → IsWithin e m
    → ((m.input ≡ false) ⊎ (m.output ≡ false))
    → (e.input ≡ false) ⊎ (e.output ≡ false)
within_one e m w one = elim (Bool-cases e.input) [
  | inr f ↦ inl f
  | inl f ↦ elim (Bool-cases e.output) [
    | inr g ↦ inr g
    | inl g ↦ let a = w.input f in let b = w.output g in elim one [ inl h ↦ cc | inr h ↦ cc ]
  ]
]

unfoldable pub IsOther : ℕ → List (Event Inputs) → Type 0
IsOther fd [] = Unit
IsOther fd (e ∷ es) = (e.fd ≢ fd) × IsOther fd es

went_on :
    {W : Type 0} (b : Bool) (o : Option W) (f : W → Option W) (r s t : W)
    → b ≡ false
    → o ≡ some s
    → f s ≡ some t
    → (if b then some r else and_then o f) ≡ some t
unfolding and_then
went_on b o f r s t e q g = rw (e, q) g

asks_read :
    (s : State) → (to_epoll_events (interested_events s)).input ≡ true → interested_events s ≡ read
unfolding to_epoll_events interested_events
asks_read reading h = refl
asks_read writing h = cc
asks_read closing h = refl
asks_read closed h = cc

asks_write :
    (s : State)
    → (to_epoll_events (interested_events s)).output ≡ true
    → interested_events s ≡ write
unfolding to_epoll_events interested_events
asks_write reading h = cc
asks_write writing h = refl
asks_write closing h = cc
asks_write closed h = cc

-- Of two callbacks for different events, where one event at most has come.
one_of_two :
    {W : Type 0} (P : W → Type 0) (i o : Bool) (first second : W → Option W) (r a b : W)
    → (i ≡ false) ⊎ (o ≡ false)
    → first r ≡ some a
    → second r ≡ some b
    → P r
    → (i ≡ true → P a)
    → (o ≡ true → P b)
    → (s : W) × (and_then
          (if (i && true) || (o && false) then first r else some r)
          (λ x. and_then (if (i && false) || (o && true) then second x else some x) (λ y. some y))
        ≡ some s)
      × P s
unfolding and_then
one_of_two P true true first second r a b (inl e) f g pr pa pb = cc
one_of_two P true true first second r a b (inr e) f g pr pa pb = cc
one_of_two P true false first second r a b e f g pr pa pb = (a, rw f refl, pa refl)
one_of_two P false true first second r a b e f g pr pa pb = (b, rw g refl, pb refl)
one_of_two P false false first second r a b e f g pr pa pb = (r, refl, pr)

module _ {K : Type 0} (epoll : Epoll K) (laws : IsEpoll epoll) {H : Type 0} (p : Protocol H) where
  -- The kernel reports a descriptor only for what is on record for it.
  abbrev pub IsReported : Reactor K H → Event Inputs → Type 0
  IsReported r e = (m : Mask) × (epoll.interest r.poller.kernel e.fd ≡ some m) × IsWithin e.events m

  -- What one call of epoll_wait reports: each descriptor once.
  unfoldable pub Batch : Reactor K H → List (Event Inputs) → Type 0
  Batch r [] = Unit
  Batch r (e ∷ es) = IsReported r e × IsOther e.fd es × Batch r es

  Batch-kept :
      (r s : Reactor K H) (fd : ℕ) (es : List (Event Inputs))
      → OnlyAt epoll fd r s
      → IsOther fd es
      → Batch r es
      → Batch s es
  unfolding Batch IsOther
  Batch-kept r s fd [] only others batch = tt
  Batch-kept r s fd (e ∷ es) only (n, others) ((m, q, w), new, batch) = (
    (m, ap (λ (v : View H). v.0) (only e.fd n) ∙ q, w),
    new,
    Batch-kept r s fd es only others batch,
  )

-- A property `P` of connections that the events keep.
module _ {K : Type 0} (epoll : Epoll K) (laws : IsEpoll epoll) {H : Type 0} (p : Protocol H)
    (P : Connection H → Type 0) (steps : (c d : Connection H) → P c → Step p c d → P d) where
  reads :
      (e : Event Inputs) (o : Owned H)
      → (to_epoll_events (interested_events o.connection.state)).input ≡ true
      → Step p o.connection (called epoll p (readable e.fd o.object) e.inputs o.connection).0
  unfolding called
  reads e o h = Step.readable e.inputs.0 e.inputs.1 (asks_read o.connection.state h)

  writes :
      (e : Event Inputs) (o : Owned H)
      → (to_epoll_events (interested_events o.connection.state)).output ≡ true
      → Step p o.connection (called epoll p (writable e.fd o.object) e.inputs o.connection).0
  unfolding called
  writes e o h = Step.writable e.inputs.1 (asks_write o.connection.state h)

  kept_good :
      (e : Event Inputs) (o : Owned H) (r : Reactor K H)
      → Owns epoll laws p P e.fd o r
      → IsKept P e.fd (view epoll r e.fd)
      → P o.connection
  kept_good e o r owns kept = let k = rw (owns.0) at kept in k.4

  one_event :
      (r : Reactor K H) (e : Event Inputs) (o : Owned H)
      → Owns epoll laws p P e.fd o r
      → IsKept P e.fd (view epoll r e.fd)
      → IsWithin e.events (to_epoll_events (interested_events o.connection.state))
      → (s : Reactor K H) × (call_all
            (run_callback epoll p)
            (callbacks epoll p)
            e
            (handlers_of e.fd o.object)
            r
          ≡ some s)
        × Keeps epoll laws p P e.fd r s
  unfolding call_all call_one meets to_epoll_events
  one_event r e o owns kept within =
      let (f, g) = run_callback-own epoll laws p P e.fd o r e.inputs owns in
      let good = kept_good e o r owns kept in
      one_of_two (Keeps epoll laws p P e.fd r) e.events.input e.events.output
        (run_callback epoll p (readable e.fd o.object) e.inputs)
        (run_callback epoll p (writable e.fd o.object) e.inputs) r _ _
        (within_one e.events _ within (one_kind o.connection.state)) f g ((λ j n. refl), kept)
        (λ i.
          behind_call-Keeps epoll laws p P e.fd o r e.inputs (readable e.fd o.object) owns
            (steps o.connection _ good (reads e o (within.input i))))
        (λ i.
          behind_call-Keeps epoll laws p P e.fd o r e.inputs (writable e.fd o.object) owns
            (steps o.connection _ good (writes e o (within.output i))))

  handle_event-Keeps :
      (r : Reactor K H) (e : Event Inputs)
      → IsSafe epoll P r
      → IsReported epoll laws p r e
      → (s : Reactor K H) × (handle_event
            (run_callback epoll p)
            (callbacks epoll p)
            e
            (get e.fd (callbacks epoll p r))
            r
          ≡ some s)
        × Keeps epoll laws p P e.fd r s
  unfolding handle_event callbacks
  handle_event-Keeps r e safe (m, q, within) = found (get e.fd r.connections) refl (safe e.fd)
    where
      found :
          (o : Option (Owned H))
          → get e.fd r.connections ≡ o
          → IsKept P e.fd (
            epoll.interest r.poller.kernel e.fd,
            get e.fd r.poller.callbacks,
            o,
            get e.fd r.channels,
          )
          → (s : Reactor K H) × (handle_event
                (run_callback epoll p)
                (callbacks epoll p)
                e
                (get e.fd r.poller.callbacks)
                r
              ≡ some s)
            × Keeps epoll laws p P e.fd r s
      found none f (a, b, c) = cc
      found (some o) f (a, b, c, d, g) =
          let k : m ≡ to_epoll_events (interested_events o.connection.state) = cc in
          rw b (one_event r e o (f, b, d) (safe e.fd) (subst (IsWithin e.events) k within))

  pub poll_events-IsSafe :
      (es : List (Event Inputs)) (r : Reactor K H)
      → IsSafe epoll P r
      → Batch epoll laws p r es
      → (s : Reactor K H) × (poll_events (run_callback epoll p) (callbacks epoll p) es r ≡ some s)
        × IsSafe epoll P s
  unfolding poll_events Batch and_then
  poll_events-IsSafe [] r safe batch = (r, refl, safe)
  poll_events-IsSafe (e ∷ es) r safe (reported, others, batch) = elim (Bool-cases e.interrupted) [
    | inl f ↦ (r, rw f refl, safe)
    | inr f ↦
        let (s, q, (only, kept)) = handle_event-Keeps r e safe reported in
        let (t, g, safe') =
          poll_events-IsSafe es s (OnlyAt-IsSafe epoll P e.fd r s safe only kept)
            (Batch-kept epoll laws p r s e.fd es only others batch) in
        (t, went_on _ _ _ r s t f q g, safe')
  ]
