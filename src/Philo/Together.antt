-- ===== src/Philo/Together.antt =====
-- project/Philosophers/src/strategy_v2.c and routines.c: a philosopher takes both forks at once,
-- behind the mutex of the fork monitor, or waits at its condition.
pub mod Safe
pub mod Steps
pub mod Exclusion
use barcelona.Base.{ℕ, ◌<◌, ◌≡◌, Bool, true, false, ◌||◌, Option, none, some, if◌then◌else◌}
use barcelona.Philo.{
  Phase, at_top, taking, one_fork, ready, eating, putting, one_left, sleeping, gone, update,
  next_fork,
}

-- The phases of the philosophers, the flags of the forks, and stop_simulation.
pub record Table : Type 0 where
  pub phase : ℕ → Phase
  pub is_taken : ℕ → Bool
  pub stopped : Bool

unfoldable pub strategy_v2_init : Table
strategy_v2_init = record { phase = λ i. at_top; is_taken = λ fork. false; stopped = false }

unfoldable pub enter : ℕ → Phase → Table → Table
unfolding update
enter i phase t = record t { phase = update i phase t.phase }

unfoldable pub set_forks : ℕ → ℕ → Bool → Table → Table
unfolding update next_fork
set_forks n i taken t = record t {
  is_taken = update (next_fork n i) taken (update i taken t.is_taken);
}

-- `strategy_v2_take`: with both forks, or without them where the simulation has stopped; `none` is
-- a thread that waits. A thread may wake at any time, so another try is always possible.
unfoldable pub strategy_v2_take : ℕ → ℕ → Table → Option Table
unfolding enter set_forks next_fork
strategy_v2_take n i t =
    if t.is_taken i || t.is_taken (next_fork n i)
    then if t.stopped then some (enter i ready t) else none
    else some (enter i ready (set_forks n i true t))

-- `strategy_v2_put`
unfoldable pub strategy_v2_put : ℕ → ℕ → Table → Table
unfolding set_forks
strategy_v2_put n i t = set_forks n i false t

-- One step of a philosopher from its phase in `philo_routine`.
unfoldable pub move_at : ℕ → ℕ → Phase → Table → Option Table
unfolding enter strategy_v2_take strategy_v2_put
move_at n i at_top t = some (enter i (if t.stopped then gone else taking) t)
move_at n i taking t = strategy_v2_take n i t
move_at n i ready t = some (enter i (if t.stopped then putting true else eating) t)
move_at n i eating t = some (enter i (putting false) t)
move_at n i (putting last) t =
    some (enter i (if last then gone else sleeping) (strategy_v2_put n i t))
move_at n i sleeping t = some (enter i at_top t)
move_at n i _ t = none

unfoldable pub move : ℕ → ℕ → Table → Option Table
unfolding move_at
move n i t = move_at n i (t.phase i) t

-- The monitor sets stop_simulation.
unfoldable pub halt : Table → Table
halt t = record t { stopped = true }

-- What n philosophers can come to, with the steps of the threads in any order.
pub data Reach (n : ℕ) : Table → Type 0 where
  start : Reach n strategy_v2_init
  moved : {t t' : Table} (i : ℕ) → i < n → Reach n t → move n i t ≡ some t' → Reach n t'
  halted : {t : Table} → Reach n t → Reach n (halt t)
