-- ===== src/Philo/Routines.antt =====
-- project/Philosophers/src/routines.c and parse_args of utils.c: the events of a meal, the search of
-- the watchdog and the loop of the monitor.
pub mod Starving
use barcelona.Base.{
  ℕ, zero, suc, ◌+◌, ◌≡◌, Bool, true, false, not, ◌&&◌, ◌||◌, Option, none, some, List, [], ◌∷◌,
  ltb, leb, ◌==◌, length, if◌then◌else◌,
}
use barcelona.Base.Int.{ℤ, pos, negsuc, ltb_ℤ, ◌+ℤ◌}
use barcelona.Base.Text.{Bytes}
use barcelona.Philo.Events.{PhiloEvent, event_eat, event_died, event_finished}

-- The numbers of the simulation; num_must_eat is -1 where it is not given.
pub record Sim : Type 0 where
  pub num_philos : ℤ
  pub time_to_die : ℤ
  pub time_to_eat : ℤ
  pub time_to_sleep : ℤ
  pub num_must_eat : ℤ
  pub start_time : ℤ

abbrev pub max_philos : ℕ
max_philos = 200

-- `parse_args`, with the C library's atoi and atol and the current time; memory is not short.
unfoldable pub parse_args : (Bytes → ℤ) → (Bytes → ℤ) → ℤ → List Bytes → Option Sim
parse_args atoi atol now (_ ∷ philos ∷ die ∷ eat ∷ sleep ∷ strategy ∷ rest) =
    if ltb 1 (length rest)
      || (not (ltb_ℤ (pos 0) (atoi philos)) || ltb_ℤ (pos max_philos) (atoi philos))
    then none
    else some (record {
      num_philos = atoi philos;
      time_to_die = atol die;
      time_to_eat = atol eat;
      time_to_sleep = atol sleep;
      num_must_eat = elim rest [ [] ↦ negsuc 0 | must_eat ∷ _ ↦ atoi must_eat ];
      start_time = now;
    })
parse_args atoi atol now _ = none

-- A philosopher, with its element of the simulation's next_deadline_ms.
pub record Philo : Type 0 where
  pub id : ℕ
  pub last_meal_time : ℤ
  pub meal_count : ℕ
  pub next_deadline_ms : ℤ

-- `init_common`, of one philosopher.
unfoldable pub init_philo : Sim → ℕ → Philo
init_philo sim i = record {
  id = suc i;
  last_meal_time = sim.start_time;
  meal_count = 0;
  next_deadline_ms = sim.start_time +ℤ sim.time_to_die;
}

-- The test that num_must_eat is given and reached.
unfoldable pub has_finished : Sim → ℕ → Bool
has_finished sim meal_count = elim sim.num_must_eat [
  | negsuc zero ↦ false
  | negsuc (suc _) ↦ true
  | pos n ↦ leb n meal_count
]

-- `philo_act_eat` at a time, with the events that it sends.
unfoldable pub philo_act_eat : Sim → ℤ → Philo → Philo × List PhiloEvent
unfolding has_finished
philo_act_eat sim now p =
    let p' = record p {
      last_meal_time = now;
      meal_count = suc p.meal_count;
      next_deadline_ms = now +ℤ sim.time_to_die;
    } in
    (
      p',
      record { philo_id = p.id; type = event_eat }
          ∷ (if has_finished sim (suc p.meal_count)
              then record { philo_id = p.id; type = event_finished } ∷ []
              else []),
    )

-- The loop of `watchdog_routine` over all philosophers: the event that it sends.
unfoldable pub watchdog : Sim → ℤ → List Philo → Option PhiloEvent
unfolding has_finished
watchdog sim current_time [] = none
watchdog sim current_time (p ∷ ps) =
    if not (has_finished sim p.meal_count) && ltb_ℤ p.next_deadline_ms current_time
    then some (record { philo_id = p.id; type = event_died })
    else watchdog sim current_time ps

-- What `monitor_routine` prints behind setting stop_simulation.
pub data Verdict : Type 0 where
  died : ℕ → Verdict
  all_have_eaten : Verdict

-- `monitor_routine` from a count of finished philosophers on; `none` where it still waits behind
-- the events. Only the monitor stops the simulation, so that it is never stopped at its first test.
unfoldable pub monitor_routine : Sim → ℕ → List PhiloEvent → Option Verdict
monitor_routine sim finished_count [] = none
monitor_routine sim finished_count (ev ∷ evs) =
    let counted = monitor_routine sim (suc finished_count) evs in
    let others = monitor_routine sim finished_count evs in
    elim ev.type [
      | event_eat ↦ others
      | event_died ↦ some (died ev.philo_id)
      | event_finished ↦
          if ltb_ℤ (pos (suc finished_count)) sim.num_philos then counted else some all_have_eaten
    ]
