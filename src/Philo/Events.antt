-- ===== src/Philo/Events.antt =====
-- project/Philosophers/src/utils.c: the queue of events from the philosophers to the monitor, a
-- ring buffer. Each operation holds the mutex from its beginning to its end.
pub mod Fifo
use barcelona.Base.{ℕ, ◌+◌, ◌%◌, ◌≡◌, Bool, Option, none, some, ◌==◌, if◌then◌else◌}
use barcelona.Philo.{update}

pub data PhiloEventType : Type 0 where
  event_eat event_died event_finished : PhiloEventType

pub record PhiloEvent : Type 0 where
  pub philo_id : ℕ
  pub type : PhiloEventType

abbrev pub max_events : ℕ
max_events = 1024

pub record EventQueue : Type 0 where
  pub buf : ℕ → PhiloEvent
  pub head : ℕ
  pub tail : ℕ

-- `queue_init`, of a buffer with any content.
unfoldable pub queue_init : (ℕ → PhiloEvent) → EventQueue
queue_init buf = record { buf = buf; head = 0; tail = 0 }

unfoldable pub queue_empty : EventQueue → Bool
queue_empty q = q.head == q.tail

unfoldable pub queue_full : EventQueue → Bool
queue_full q = (q.tail + 1) % max_events == q.head

-- `enqueue`; `none` is a thread that waits.
unfoldable pub enqueue : PhiloEvent → EventQueue → Option EventQueue
unfolding queue_full update
enqueue ev q =
    if queue_full q
    then none
    else some (record q { buf = update q.tail ev q.buf; tail = (q.tail + 1) % max_events })

-- `dequeue`; `none` is a thread that waits.
unfoldable pub dequeue : EventQueue → Option (PhiloEvent × EventQueue)
unfolding queue_empty
dequeue q =
    if queue_empty q
    then none
    else some (q.buf q.head, record q { head = (q.head + 1) % max_events })
