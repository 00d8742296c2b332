-- ===== src/Philo.antt =====
-- project/Philosophers/src: the dining philosophers. What its strategies share: where a philosopher
-- stands in `philo_routine`, and the array of all philosophers.
pub mod Events
pub mod Routines
mod Tests
pub mod Forks
pub mod Ordered
pub mod Together
use barcelona.Base.{ℕ, ◌+◌, ◌%◌, ◌≡◌, Bool, ◌==◌, if◌then◌else◌}

-- Where a thread stands in `philo_routine`. `eating` is in front of the event EVENT_EAT of
-- `philo_act_eat`, `reporting` in front of EVENT_FINISHED; `taking` is in front of `take_forks`; `one_fork` lies
-- between its two locks; `ready` in front of the second test of stop_simulation; `putting` in front
-- of `put_forks`, with `true` if the thread leaves its loop behind it; `one_left` lies between the
-- two unlocks; `gone` is behind the loop. The waits for the output are no steps of
-- their own.
pub data Phase : Type 0 where
  at_top taking one_fork ready eating reporting : Phase
  putting one_left : Bool → Phase
  sleeping gone : Phase

-- An array, and an element of it set.
unfoldable pub update : {A : Type 0} → ℕ → A → (ℕ → A) → ℕ → A
update i x array k = if k == i then x else array k

-- The index of the fork at the other side: `(i + 1) % num_philos`.
unfoldable pub next_fork : ℕ → ℕ → ℕ
next_fork n i = (i + 1) % n
