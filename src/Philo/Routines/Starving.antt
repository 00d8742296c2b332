-- ===== src/Philo/Routines/Starving.antt =====
-- Whom the watchdog reports, and when the monitor ends.
use barcelona.Base.{
  ◌≡◌, refl, Bool, true, false, not, ◌&&◌, Option, none, some, List, [], ◌∷◌, ◌⊎◌, inl, inr,
  Bool-cases,
}
use barcelona.Base.Int.{ℤ, ltb_ℤ}
use barcelona.Philo.Events.{PhiloEvent, event_died}
use barcelona.Philo.Routines.{Sim, Philo, has_finished, watchdog}

-- The philosopher's deadline has passed and it has not had all its meals.
unfoldable pub is_starving : Sim → ℤ → Philo → Bool
is_starving sim now p = not (has_finished sim p.meal_count) && ltb_ℤ p.next_deadline_ms now

-- The watchdog reports the first philosopher that is starving.
abbrev pub IsFirst : Sim → ℤ → List Philo → Option PhiloEvent → Type 0
IsFirst sim now [] report = report ≡ none
IsFirst sim now (p ∷ ps) report =
    ((is_starving sim now p ≡ true)
      × (report ≡ some (record { philo_id = p.id; type = event_died })))
    ⊎ ((is_starving sim now p ≡ false) × IsFirst sim now ps report)

watchdog-IsFirst :
    (sim : Sim) (now : ℤ) (ps : List Philo) → IsFirst sim now ps (watchdog sim now ps)
unfolding watchdog is_starving
watchdog-IsFirst sim now [] = refl
watchdog-IsFirst sim now (p ∷ ps) = elim (Bool-cases (is_starving sim now p)) [
  | inl e ↦ inl (e, rw e refl)
  | inr e ↦ let rest = watchdog-IsFirst sim now ps in inr (e, rw e rest)
]
