-- ===== src/Philo/Ordered.antt =====
-- project/Philosophers/src/strategy_v1.c and routines.c: a philosopher locks the mutex of the fork
-- with the lower index first, and tells the monitor of its meals.
pub mod Holders
pub mod Progress
use barcelona.Base.{ℕ, suc, ◌<◌, ◌≡◌, Bool, true, false, Option, none, some, ltb, if◌then◌else◌}
use barcelona.Philo.Events.{
  PhiloEventType, event_eat, event_died, event_finished, PhiloEvent, EventQueue, queue_init,
  enqueue, dequeue,
}
use barcelona.Philo.Routines.{Sim, has_finished}
use barcelona.Philo.{
  Phase, at_top, taking, one_fork, ready, eating, reporting, putting, one_left, sleeping, gone,
  update, next_fork,
}

-- The phases and the meals of the philosophers, the owners of the mutexes, stop_simulation, the
-- queue of events, and what the monitor has counted.
pub record Table : Type 0 where
  pub phase : ℕ → Phase
  pub meal_count : ℕ → ℕ
  pub owner : ℕ → Option ℕ
  pub stopped : Bool
  pub event_queue : EventQueue
  pub finished_count : ℕ

-- `strategy_v1_init`: left_fork and right_fork, the one to lock first and the other.
unfoldable pub left_fork : ℕ → ℕ → ℕ
unfolding next_fork
left_fork n i = if ltb i (next_fork n i) then i else next_fork n i

unfoldable pub right_fork : ℕ → ℕ → ℕ
unfolding next_fork
right_fork n i = if ltb i (next_fork n i) then next_fork n i else i

-- The table behind `init_common` and `strategy_v1_init`; the buffer of the queue has any content.
unfoldable pub strategy_v1_init : (ℕ → PhiloEvent) → Table
unfolding queue_init
strategy_v1_init buf = record {
  phase = λ i. at_top;
  meal_count = λ i. 0;
  owner = λ fork. none;
  stopped = false;
  event_queue = queue_init buf;
  finished_count = 0;
}

unfoldable pub enter : ℕ → Phase → Table → Table
unfolding update
enter i phase t = record t { phase = update i phase t.phase }

-- `pthread_mutex_lock`, and the phase behind it; `none` is a thread that waits.
unfoldable pub lock : ℕ → ℕ → Phase → Table → Option Table
unfolding update
lock fork i phase t = elim (t.owner fork) [
  | none ↦ some (record t { phase = update i phase t.phase; owner = update fork (some i) t.owner })
  | some j ↦ none
]

-- `pthread_mutex_unlock`, and the phase behind it.
unfoldable pub unlock : ℕ → ℕ → Phase → Table → Table
unfolding update
unlock fork i phase t = record t {
  phase = update i phase t.phase;
  owner = update fork none t.owner;
}

-- `notify_monitor`, and the phase behind it; `none` is a thread that waits in `enqueue`.
unfoldable pub notify_monitor : PhiloEventType → ℕ → Phase → Table → Option Table
unfolding enqueue update
notify_monitor type i phase t =
    elim (enqueue (record { philo_id = suc i; type = type }) t.event_queue) [
      | none ↦ none
      | some q ↦ some (record t { phase = update i phase t.phase; event_queue = q })
    ]

-- The second test of stop_simulation; where it is not set, the meal is counted.
unfoldable pub test_stop : Bool → ℕ → Table → Table
unfolding enter update
test_stop true i t = enter i (putting true) t
test_stop false i t = record t {
  phase = update i eating t.phase;
  meal_count = update i (suc (t.meal_count i)) t.meal_count;
}

-- The monitor sets stop_simulation, and returns.
unfoldable pub halt : Table → Table
halt t = record t { stopped = true }

module _ (sim : Sim) (n : ℕ) where
  -- One step of a philosopher from its phase in `philo_routine`, with `strategy_v1_take`,
  -- `philo_act_eat` and `strategy_v1_put` in it.
  unfoldable pub move_at : ℕ → Phase → Table → Option Table
  unfolding enter lock unlock left_fork right_fork notify_monitor test_stop has_finished
  move_at i at_top t = some (enter i (if t.stopped then gone else taking) t)
  move_at i taking t = lock (left_fork n i) i one_fork t
  move_at i one_fork t = lock (right_fork n i) i ready t
  move_at i ready t = some (test_stop t.stopped i t)
  move_at i eating t =
      notify_monitor event_eat i
        (if has_finished sim (t.meal_count i) then reporting else putting false) t
  move_at i reporting t = notify_monitor event_finished i (putting false) t
  move_at i (putting last) t = some (unlock (right_fork n i) i (one_left last) t)
  move_at i (one_left last) t = some (unlock (left_fork n i) i (if last then gone else sleeping) t)
  move_at i sleeping t = some (enter i at_top t)
  move_at i gone t = none

  unfoldable pub move : ℕ → Table → Option Table
  unfolding move_at
  move i t = move_at i (t.phase i) t

  -- What `monitor_routine` does with an event.
  unfoldable pub on_event : PhiloEventType → Table → Table
  unfolding halt
  on_event event_eat t = t
  on_event event_died t = halt t
  on_event event_finished t =
      let t' = record t { finished_count = suc t.finished_count } in
      if ltb (suc t.finished_count) n then t' else halt t'

  -- A round of `monitor_routine`; `none` is a thread that waits in `dequeue`, or has returned.
  unfoldable pub monitor : Table → Option Table
  unfolding dequeue on_event
  monitor t = if t.stopped then none else elim (dequeue t.event_queue) [
    | none ↦ none
    | some (ev, q) ↦ some (on_event ev.type (record t { event_queue = q }))
  ]

  -- What n philosophers can come to, with the steps of the threads in any order. The watchdog may
  -- report any of them at any time, and more often than it does.
  pub data Reach : Table → Type 0 where
    start : (buf : ℕ → PhiloEvent) → Reach (strategy_v1_init buf)
    moved : {t t' : Table} (i : ℕ) → i < n → Reach t → move i t ≡ some t' → Reach t'
    monitored : {t t' : Table} → Reach t → monitor t ≡ some t' → Reach t'
    watched :
        {t : Table} {q : EventQueue} (i : ℕ)
        → i < n
        → Reach t
        → enqueue (record { philo_id = suc i; type = event_died }) t.event_queue ≡ some q
        → Reach (record t { event_queue = q })
