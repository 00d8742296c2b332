-- ===== src/Poller.antt =====
-- lib/core: Poller (src/Poller.cc) and Channel (include/Channel.hpp). The calls of epoll are an
-- interface; std::function is a value `C` that names a callback, which the client runs.
use barcelona.Base.{
  ℕ, Bool, true, false, ◌&&◌, ◌||◌, not, Option, none, some, List, [], ◌∷◌, if◌then◌else◌,
}
use barcelona.Base.Assoc.{Assoc, get, put, erase}
use barcelona.Io.{Error}
use barcelona.Connection.{EventType, nothing, read, write}

-- The bits EPOLLIN and EPOLLOUT of a mask; no callback is registered under another bit.
pub record Mask : Type 0 where
  pub input : Bool
  pub output : Bool

-- epoll_ctl with ADD, MOD and DEL, and close(2), over a state `K` of the kernel. `interest` is what
-- the kernel has on record for a descriptor.
pub record Epoll (K : Type 0) : Type 0 where
  pub add : K → ℕ → K × Option Error
  pub modify : K → ℕ → Mask → K × Option Error
  pub remove : K → ℕ → K × Option Error
  pub close : K → ℕ → K
  pub interest : K → ℕ → Option Mask

unfoldable pub to_epoll_events : EventType → Mask
to_epoll_events nothing = record { input = false; output = false }
to_epoll_events read = record { input = true; output = false }
to_epoll_events write = record { input = false; output = true }

abbrev same_bit : Bool → Bool → Bool
same_bit a b = (a && b) || (not a && not b)

unfoldable pub same_mask : Mask → Mask → Bool
same_mask m n = same_bit m.input n.input && same_bit m.output n.output

-- `(m & n) != 0`
unfoldable pub meets : Mask → Mask → Bool
meets m n = (m.input && n.input) || (m.output && n.output)

-- The callbacks of one descriptor, by their masks.
abbrev pub Callbacks : Type 0 → Type 0
Callbacks C = List (Mask × C)

unfoldable pub put_mask : {C : Type 0} → Mask → C → Callbacks C → Callbacks C
unfolding same_mask
put_mask m c [] = (m, c) ∷ []
put_mask m c ((n, d) ∷ cs) =
    let rest = put_mask m c cs in if same_mask n m then (n, c) ∷ cs else (n, d) ∷ rest

-- The kernel's state, and `callbacks_`.
pub record Poller (K C : Type 0) : Type 0 where
  pub kernel : K
  pub callbacks : Assoc (Callbacks C)

abbrev pub Channel : Type 0 → Type 0
Channel C = Option C × Option C

-- What `epoll_wait` reports of a descriptor, with the value that errno has when the loop reaches
-- it, and `I`, what the calls of the callback will meet.
pub record Event (I : Type 0) : Type 0 where
  pub fd : ℕ
  pub events : Mask
  pub interrupted : Bool
  pub inputs : I

unfoldable pub or_empty : {C : Type 0} → Option (Callbacks C) → Callbacks C
or_empty none = []
or_empty (some cs) = cs

-- `registerCallback`
unfoldable pub register_callback : {K C : Type 0} → ℕ → EventType → C → Poller K C → Poller K C
unfolding to_epoll_events put_mask or_empty
register_callback fd e c p = record p {
  callbacks = put fd (put_mask (to_epoll_events e) c (or_empty (get fd p.callbacks))) p.callbacks;
}

module _ {K : Type 0} (epoll : Epoll K) {C : Type 0} where
  unfoldable pub with_kernel : Poller K C → K × Option Error → Poller K C × Option Error
  with_kernel p (k, e) = (record p { kernel = k }, e)

  -- `addFd`
  unfoldable pub add_fd : ℕ → Poller K C → Poller K C × Option Error
  unfolding with_kernel
  add_fd fd p = with_kernel p (epoll.add p.kernel fd)

  -- `updateEvents`
  unfoldable pub update_events : ℕ → EventType → Poller K C → Poller K C × Option Error
  unfolding with_kernel to_epoll_events
  update_events fd e p = with_kernel p (epoll.modify p.kernel fd (to_epoll_events e))

  unfoldable pub forget : ℕ → Poller K C × Option Error → Poller K C × Option Error
  forget fd (p, none) = (record p { callbacks = erase fd p.callbacks }, none)
  forget fd (p, some e) = (p, some e)

  -- `removeFd`
  unfoldable pub remove_fd : ℕ → Poller K C → Poller K C × Option Error
  unfolding with_kernel forget
  remove_fd fd p = forget fd (with_kernel p (epoll.remove p.kernel fd))

  unfoldable pub register_some : ℕ → EventType → Option C → Poller K C → Poller K C
  register_some fd e none p = p
  register_some fd e (some c) p = register_callback fd e c p

  -- The initial events are those of the readable handler only.
  unfoldable pub start_events : ℕ → Channel C → Poller K C → Poller K C × Option Error
  unfolding register_some
  start_events fd (none, w) p = (register_some fd write w p, none)
  start_events fd (some c, w) p =
      update_events fd read (register_some fd write w (register_callback fd read c p))

  unfoldable pub bind_added : ℕ → Channel C → Poller K C × Option Error → Poller K C × Option Error
  unfolding start_events
  bind_added fd ch (p, some e) = (p, some e)
  bind_added fd ch (p, none) = start_events fd ch p

  -- `bind_to` of a channel to a poller, lib/core/include/bind_to_impl.hpp
  unfoldable pub bind_to : ℕ → Channel C → Poller K C → Poller K C × Option Error
  unfolding bind_added
  bind_to fd ch p = bind_added fd ch (add_fd fd p)

-- What `epoll_wait` returns; `EINTR` is told apart from other failures.
pub data Waited (I : Type 0) : Type 0 where
  ready : List (Event I) → Waited I
  eintr : Waited I
  failed : Error → Waited I

unfoldable pub and_then : {W : Type 0} → Option W → (W → Option W) → Option W
and_then none f = none
and_then (some w) f = f w

-- `pollOnce` in a client with state `W`; `none` is undefined behaviour of a callback.
module _ {W C I : Type 0} (run : C → I → W → Option W) (callbacks : W → Assoc (Callbacks C)) where
  unfoldable pub call_one : Event I → Mask → C → W → Option W
  unfolding meets
  call_one e m c w = if meets e.events m then run c e.inputs w else some w

  unfoldable pub call_all : Event I → Callbacks C → W → Option W
  unfolding call_one and_then
  call_all e [] w = some w
  call_all e ((m, c) ∷ cs) w = and_then (call_one e m c w) (call_all e cs)

  -- On a copy of the callbacks of the descriptor.
  unfoldable pub handle_event : Event I → Option (Callbacks C) → W → Option W
  unfolding call_all
  handle_event e none w = some w
  handle_event e (some cs) w = call_all e cs w

  unfoldable pub poll_events : List (Event I) → W → Option W
  unfolding handle_event and_then
  poll_events [] w = some w
  poll_events (e ∷ es) w =
      if e.interrupted
      then some w
      else and_then (handle_event e (get e.fd (callbacks w)) w) (poll_events es)

  unfoldable pub with_success : Option W → Option (W × Option Error)
  with_success none = none
  with_success (some w) = some (w, none)

  unfoldable pub poll_once : Waited I → W → Option (W × Option Error)
  unfolding poll_events with_success
  poll_once eintr w = some (w, none)
  poll_once (failed e) w = some (w, some e)
  poll_once (ready es) w = with_success (poll_events es w)
