-- ===== src/Philo/Tests.antt =====
-- The theorems of the philosophers at concrete runs, and runs of the monitor.
use barcelona.Base.{
  ℕ, ◌<◌, ◌≡◌, ◌≢◌, refl, true, false, none, some, List, [], ◌∷◌, ◌++◌, arith, length, ◌==◌, ◌⊎◌,
}
use barcelona.Base.Int.{pos}
use barcelona.Philo.{at_top, taking, one_fork, ready, eating, gone, update, next_fork}
use barcelona.Philo.Events.{
  PhiloEvent, EventQueue, event_eat, queue_init, queue_full, enqueue, dequeue,
}
use barcelona.Philo.Events.Fifo.{Run, start, put, events, is_waiting, events_order}
use barcelona.Philo.Ordered
use barcelona.Philo.Ordered.Progress.{Reach-moves}
use barcelona.Philo.Together
use barcelona.Philo.Together.Exclusion.{neighbours_lem}
use barcelona.Philo.Routines.{Sim, monitor_routine, all_have_eaten, init_philo, philo_act_eat}

abbrev meal : PhiloEvent
meal = record { philo_id = 1; type = event_eat }

abbrev one_meal : EventQueue
one_meal = record { buf = update 0 meal (λ i. meal); head = 0; tail = 1 }

holds_one : Run (meal ∷ []) [] one_meal
unfolding queue_init enqueue
holds_one = put meal (start (λ i. meal)) refl

events_order_example :
    (meal ∷ [] ≡ [] ++ events one_meal)
    × ((ev : PhiloEvent) → is_waiting (enqueue ev one_meal) ≡ (length (events one_meal) == 1023))
    × (is_waiting (dequeue one_meal) ≡ (length (events one_meal) == 0))
events_order_example = events_order holds_one

abbrev sim : Sim
sim = record {
  num_philos = pos 2;
  time_to_die = pos 100;
  time_to_eat = pos 10;
  time_to_sleep = pos 10;
  num_must_eat = pos 1;
  start_time = pos 0;
}

-- The first of two philosophers holds its first fork, for which the other waits.
abbrev first_holds : Ordered.Table
first_holds = record (Ordered.strategy_v1_init (λ i. meal)) {
  phase = update 1 taking (update 0 one_fork (update 0 taking (λ i. at_top)));
  owner = update 0 (some 0) (λ fork. none);
}

first_holds-Reach : Ordered.Reach sim 2 first_holds
unfolding Ordered.move Ordered.strategy_v1_init
first_holds-Reach =
    Ordered.moved 1 (omega arith)
      (Ordered.moved 0 (omega arith)
        (Ordered.moved 0 (omega arith) (Ordered.start (λ i. meal)) refl) refl)
      refl

Reach-moves_example :
    ((i : ℕ) → i < 2 → first_holds.phase i ≡ gone)
    ⊎ (((i : ℕ) × ((i < 2) × ((t' : Ordered.Table) × (Ordered.move sim 2 i first_holds ≡ some t'))))
        ⊎ ((queue_full first_holds.event_queue ≡ true)
            × (((t' : Ordered.Table) × (Ordered.monitor sim 2 first_holds ≡ some t'))
                ⊎ (first_holds.stopped ≡ true))))
Reach-moves_example = Reach-moves sim 2 (omega arith) first_holds-Reach

-- The first of two philosophers eats.
abbrev first_eats : Together.Table
first_eats = record {
  phase = update 0 eating (update 0 ready (update 0 taking (λ i. at_top)));
  is_taken = update 1 true (update 0 true (λ fork. false));
  stopped = false;
}

first_eats-Reach : Together.Reach 2 first_eats
unfolding Together.move Together.strategy_v2_init
first_eats-Reach =
    Together.moved 0 (omega arith)
      (Together.moved 0 (omega arith) (Together.moved 0 (omega arith) Together.start refl) refl)
      refl

neighbours_lem_example : first_eats.phase (next_fork 2 0) ≢ eating
unfolding update
neighbours_lem_example = neighbours_lem 2 0 (omega arith) (omega arith) first_eats-Reach refl

abbrev twice : List PhiloEvent
twice =
    let first = philo_act_eat sim (pos 0) (init_philo sim 0) in
    first.1 ++ (philo_act_eat sim (pos 20) first.0).1

-- The monitor takes two meals of one philosopher for one meal of each of two.
counted_twice : monitor_routine sim 0 twice ≡ some all_have_eaten
unfolding monitor_routine philo_act_eat init_philo
counted_twice = refl
