-- ===== src/Connection/Phases.antt =====
-- The phases of a connection under the events that the poller delivers.
use barcelona.Base.{ℕ, ◌≡◌, refl, ◌∙◌, Bool, true, false, none, some, arith}
use barcelona.Base.Expected.{Expected, ok, err}
use barcelona.Io.{WriteStatus, WriteResult, Error}
use barcelona.ProtocolHandler.{Status, want_read, want_write, over, error}
use barcelona.Connection.{
  State, reading, writing, closing, closed, read, write, ReadResult, got_data, eof, would_block,
  read_error, Protocol, Connection, Called, interested_events, next_state, update_state_in,
  on_readable, on_writable, written, on_readable_in,
}

-- The events that are delivered: only those that the connection is interested in.
pub data Step {H : Type 0} (p : Protocol H) (c : Connection H) : Connection H → Type 0 where
  readable :
      (r : ReadResult) (shut : Bool)
      → interested_events c.state ≡ read
      → Step p c (on_readable p r shut c).0
  writable : (shut : Bool) → interested_events c.state ≡ write → Step p c (on_writable p shut c).0

pub data Reach {H : Type 0} (p : Protocol H) (c : Connection H) : Connection H → Type 0 where
  here : Reach p c c
  next : {d e : Connection H} → Reach p c d → Step p d e → Reach p c e

-- How far a connection is on its way to the end.
abbrev pub IsEnding : State → Type 0
IsEnding reading = ⊥
IsEnding writing = ⊥
IsEnding closing = Unit
IsEnding closed = Unit

-- A call that returns an error leaves the connection closed.
abbrev pub Closes : {H : Type 0} → Called H → Type 0
Closes (c, none) = Unit
Closes (c, some e) = c.state ≡ closed

module _ {H : Type 0} (p : Protocol H) where
  on_readable-IsEnding :
      (s : State) (r : ReadResult) (shut : Bool) (c : Connection H)
      → c.state ≡ s
      → IsEnding s
      → interested_events s ≡ read
      → IsEnding (on_readable_in p s r shut c).0.state
        × ((on_readable_in p s r shut c).0.handler ≡ c.handler)
  unfolding on_readable_in interested_events
  on_readable-IsEnding closing (got_data i) shut c e h k = (rw e tt, refl)
  on_readable-IsEnding closing eof shut c e h k = (tt, refl)
  on_readable-IsEnding closing would_block shut c e h k = (rw e tt, refl)
  on_readable-IsEnding closing (read_error x) shut c e h k = (rw e tt, refl)
  on_readable-IsEnding closed r shut c e h k = cc
  on_readable-IsEnding _ r shut c e h k = absurd h

  writes-not-ending : (s : State) → interested_events s ≡ write → IsEnding s → ⊥
  unfolding interested_events
  writes-not-ending reading e h = h
  writes-not-ending writing e h = h
  writes-not-ending closing e h = cc
  writes-not-ending closed e h = cc

  Step-IsEnding :
      {c d : Connection H}
      → Step p c d
      → IsEnding c.state
      → IsEnding d.state × (d.handler ≡ c.handler)
  unfolding on_readable
  Step-IsEnding {c} (readable r shut e) h = on_readable-IsEnding c.state r shut c refl h e
  Step-IsEnding {c} (writable shut e) h = absurd (writes-not-ending c.state e h)

  -- Once a connection is closing, no series of delivered events makes it read or write again for
  -- its protocol handler: it stays closing or becomes closed, and the handler is as it was, whatever
  -- data still come.
  pub Reach-IsEnding :
      {c d : Connection H}
      → IsEnding c.state
      → Reach p c d
      → IsEnding d.state × (d.handler ≡ c.handler)
  Reach-IsEnding h here = (h, refl)
  Reach-IsEnding h (next r s) =
      let (ends, same) = Reach-IsEnding h r in
      let (ends', same') = Step-IsEnding s ends in (ends', same' ∙ same)

  received-Closes :
      (s : State) (r : ReadResult) (shut : Bool) (c : Connection H)
      → Closes (on_readable_in p s r shut c)
  unfolding on_readable_in
  received-Closes closing r shut c = tt
  received-Closes _ (got_data x) shut c = tt
  received-Closes _ eof shut c = tt
  received-Closes _ would_block shut c = tt
  received-Closes _ (read_error x) shut c = refl

  written-Closes :
      (w : H × Expected WriteResult Error) (shut : Bool) (c : Connection H)
      → Closes (written p w shut c)
  unfolding written
  written-Closes (h, err x) shut c = refl
  written-Closes (h, ok r) shut c = ground arith

  end_of_input :
      (s : State) (shut : Bool) (c : Connection H)
      → ((on_readable_in p s eof shut c).0.state ≡ closed)
        × ((on_readable_in p s eof shut c).1 ≡ none)
  unfolding on_readable_in
  end_of_input closing shut c = (refl, refl)
  end_of_input _ shut c = (refl, refl)

  -- In every state, a call that returns an error has closed the connection; and the end of the
  -- input closes the connection without an error.
  pub failures-Closes :
      (r : ReadResult) (shut : Bool) (c : Connection H)
      → Closes (on_readable p r shut c)
        × Closes (on_writable p shut c)
        × ((on_readable p eof shut c).0.state ≡ closed)
        × ((on_readable p eof shut c).1 ≡ none)
  unfolding on_readable on_writable
  failures-Closes r shut c = (
    received-Closes c.state r shut c,
    written-Closes (p.on_write_ready c.handler) shut c,
    (end_of_input c.state shut c).0,
    (end_of_input c.state shut c).1,
  )

-- The state says what the protocol wants.
abbrev pub InStep : State → Status → Type 0
InStep reading s = s ≡ want_read
InStep writing s = s ≡ want_write
InStep closing s = Unit
InStep closed s = Unit

-- A handler whose write is not done still wants to write.
pub record Persistent {H : Type 0} (p : Protocol H) : Type 0 where
  pub continues :
      (h h' : H) (n : ℕ)
      → p.on_write_ready h ≡ (h', ok (record { status = WriteStatus.continues; bytes_sent = n }))
      → p.get_status h' ≡ want_write

module _ {H : Type 0} (p : Protocol H) (persistent : Persistent p) where
  next_state-InStep : (s : Status) (shut : Bool) → InStep (next_state s shut) s
  unfolding next_state
  next_state-InStep want_read shut = refl
  next_state-InStep want_write shut = refl
  next_state-InStep over true = tt
  next_state-InStep over false = tt
  next_state-InStep error shut = tt

  update_state-InStep :
      (s : State) (shut : Bool) (c : Connection H)
      → c.state ≡ s
      → InStep
          (update_state_in p s shut c).state
          (p.get_status (update_state_in p s shut c).handler)
  unfolding update_state_in
  update_state-InStep closing shut c e = rw e tt
  update_state-InStep closed shut c e = rw e tt
  update_state-InStep _ shut c e = next_state-InStep (p.get_status c.handler) shut

  received-InStep :
      (s : State) (r : ReadResult) (shut : Bool) (c : Connection H)
      → c.state ≡ s
      → InStep s (p.get_status c.handler)
      → let d = (on_readable_in p s r shut c).0 in InStep d.state (p.get_status d.handler)
  unfolding on_readable_in
  received-InStep closing (got_data x) shut c e i = rw e tt
  received-InStep closing eof shut c e i = tt
  received-InStep closing would_block shut c e i = rw e tt
  received-InStep closing (read_error x) shut c e i = rw e tt
  received-InStep s (read_error x) shut c e i = tt
  received-InStep s (got_data x) shut c e i =
      update_state-InStep c.state shut (record c { handler = p.on_data x c.handler }) refl
  received-InStep s eof shut c e i = tt
  received-InStep s would_block shut c e i = rw e i

  continued-InStep :
      (status : WriteStatus) (n : ℕ) (h : H) (shut : Bool) (c : Connection H)
      → p.on_write_ready c.handler ≡ (h, ok (record { status = status; bytes_sent = n }))
      → let d = (written p (h, ok (record { status = status; bytes_sent = n })) shut c).0 in
        InStep d.state (p.get_status d.handler)
  unfolding written
  continued-InStep WriteStatus.continues n h shut c e = persistent.continues c.handler h n e
  continued-InStep WriteStatus.finished n h shut c e =
      update_state-InStep c.state shut (record c { handler = h }) refl

  written-InStep :
      (w : H × Expected WriteResult Error) (shut : Bool) (c : Connection H)
      → p.on_write_ready c.handler ≡ w
      → let d = (written p w shut c).0 in InStep d.state (p.get_status d.handler)
  unfolding written
  written-InStep (h, err x) shut c e = tt
  written-InStep (h, ok r) shut c e = continued-InStep r.status r.bytes_sent h shut c e

  -- Every delivered event leaves a state that is in step in step with what the protocol handler wants: a
  -- connection that waits to read (to write) has a handler that wants to read (to write),
  -- provided that the handler goes on wanting to write when its write is not done.
  pub Step-InStep :
      {c d : Connection H}
      → Step p c d
      → InStep c.state (p.get_status c.handler)
      → InStep d.state (p.get_status d.handler)
  unfolding on_readable on_writable
  Step-InStep {c} (readable r shut e) i = received-InStep c.state r shut c refl i
  Step-InStep {c} (writable shut e) i = written-InStep (p.on_write_ready c.handler) shut c refl
