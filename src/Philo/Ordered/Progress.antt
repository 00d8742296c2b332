-- ===== src/Philo/Ordered/Progress.antt =====
-- The philosophers with ordered forks never wait for each other in a circle.
use barcelona.Base.{
  ℕ, zero, suc, ◌+◌, ◌≤◌, ◌<◌, ◌≡◌, refl, sym, none, some, arith, ltb, ◌==◌, true, false, ◌⊎◌, inl,
  inr, Bool-cases, Option-cases,
}
use mathlib.Core.Path.{subst}
use barcelona.Philo.{
  Phase, at_top, taking, one_fork, ready, eating, reporting, putting, one_left, sleeping, gone,
  update, next_fork,
}
use barcelona.Philo.Events.{
  PhiloEventType, event_eat, event_finished, EventQueue, queue_empty, queue_full, enqueue, dequeue,
}
use barcelona.Philo.Routines.{Sim}
use barcelona.Philo.Forks.{next_fork-suc, next_fork-zero}
use barcelona.Philo.Ordered.{
  Table, left_fork, right_fork, lock, notify_monitor, move_at, move, monitor, Reach,
}
use barcelona.Philo.Ordered.Holders.{Holds, IsHeld, Reach-IsHeld}

fork_order : (n i : ℕ) → 2 ≤ n → i < n → (left_fork n i < right_fork n i) × (right_fork n i < n)
unfolding left_fork right_fork
fork_order n i two l = elim (Bool-cases (ltb (suc i) n)) [
  | inl x ↦ let e : next_fork n i ≡ suc i = next_fork-suc n i (ground arith) in ground arith
  | inr x ↦ let e : next_fork n i ≡ 0 = next_fork-zero n i (ground arith) in ground arith
]

locks :
    (n i fork : ℕ) (phase : Phase) (t : Table)
    → t.owner fork ≡ none
    → (t' : Table) × (lock fork i phase t ≡ some t')
unfolding lock update
locks n i fork phase t e = (_, taken)
  where
    taken :
        lock fork i phase t
        ≡ some (record t { phase = update i phase t.phase; owner = update fork (some i) t.owner })
    taken = rw (e, lock) refl

notifies :
    (type : PhiloEventType) (i : ℕ) (phase : Phase) (t : Table)
    → queue_full t.event_queue ≡ false
    → (t' : Table) × (notify_monitor type i phase t ≡ some t')
unfolding notify_monitor enqueue
notifies type i phase t room = rw (room, notify_monitor, enqueue) (_, refl)

-- A full queue is not empty, so that the monitor can take an event.
full_not_empty : (q : EventQueue) → queue_full q ≡ true → queue_empty q ≡ false
unfolding queue_full queue_empty
full_not_empty q e = ground arith

module _ (sim : Sim) where
  -- Some philosopher can go on, or the queue is full.
  abbrev Goes : ℕ → Table → Type 0
  Goes n t =
      ((i : ℕ) × ((i < n) × ((t' : Table) × (move sim n i t ≡ some t'))))
      ⊎ (queue_full t.event_queue ≡ true)

  steps :
      (n i : ℕ) (p : Phase) (t t' : Table)
      → i < n
      → t.phase i ≡ p
      → move_at sim n i p t ≡ some t'
      → Goes n t
  steps n i p t t' l a e = inl (i, (l, (t', eq)))
    where
      eq : move sim n i t ≡ some t'
      eq = unfold move in rw a e

  -- A philosopher whose fork is free or held by one that can move.
  at_fork :
      (n i fork : ℕ) (p phase : Phase) (t : Table)
      → i < n
      → t.phase i ≡ p
      → ((t' : Table) → lock fork i phase t ≡ some t' → move_at sim n i p t ≡ some t')
      → ((j : ℕ) → t.owner fork ≡ some j → Goes n t)
      → Goes n t
  at_fork n i fork p phase t l a lands others = elim (Option-cases (t.owner fork)) [
    | inl free ↦ let (t', e) = locks n i fork phase t free in steps n i p t t' l a (lands t' e)
    | inr (j, owned) ↦ others j owned
  ]

  -- A philosopher that sends an event, unless the queue is full.
  at_queue :
      (n i : ℕ) (type : PhiloEventType) (p phase : Phase) (t : Table)
      → i < n
      → t.phase i ≡ p
      → ((t' : Table) → notify_monitor type i phase t ≡ some t' → move_at sim n i p t ≡ some t')
      → Goes n t
  at_queue n i type p phase t l a sends = elim (Bool-cases (queue_full t.event_queue)) [
    | inl full ↦ inr full
    | inr room ↦ let (t', e) = notifies type i phase t room in steps n i p t t' l a (sends t' e)
  ]

  -- A philosopher with one fork, or with both, can move, or the one that it waits for can: the
  -- distance of its first fork to the end of the table becomes smaller.
  holder-Goes :
      (n k fork j : ℕ) (p : Phase) (t : Table)
      → 2 ≤ n
      → IsHeld n t
      → n ≤ k + fork
      → t.phase j ≡ p
      → j < n
      → Holds (left_fork n j) (right_fork n j) fork p
      → Goes n t
  unfolding move_at
  holder-Goes n k fork j at_top t two held d a l h = absurd h
  holder-Goes n k fork j taking t two held d a l h = absurd h
  holder-Goes n zero fork j one_fork t two held d a l h =
      let (x, y) = fork_order n j two l in absurd (omega arith)
  holder-Goes n (suc k) fork j one_fork t two held d a l h =
      at_fork n j (right_fork n j) one_fork ready t l a (λ t' e. e)
        (λ i owned.
          let (x, y) = fork_order n j two l in
          let (li, hi) = held (right_fork n j) i owned in
          holder-Goes n k (right_fork n j) i (t.phase i) t two held (omega arith) refl li hi)
  holder-Goes n k fork j ready t two held d a l h = steps n j ready t _ l a refl
  holder-Goes n k fork j eating t two held d a l h =
      at_queue n j event_eat eating _ t l a (λ t' e. e)
  holder-Goes n k fork j reporting t two held d a l h =
      at_queue n j event_finished reporting (putting false) t l a (λ t' e. e)
  holder-Goes n k fork j (putting last) t two held d a l h = steps n j (putting last) t _ l a refl
  holder-Goes n k fork j (one_left last) t two held d a l h = steps n j (one_left last) t _ l a refl
  holder-Goes n k fork j sleeping t two held d a l h = absurd h
  holder-Goes n k fork j gone t two held d a l h = absurd h

  waiter-Goes :
      (n i : ℕ) (p : Phase) (t : Table)
      → 2 ≤ n
      → IsHeld n t
      → t.phase i ≡ p
      → i < n
      → (p ≡ gone) ⊎ Goes n t
  unfolding move_at
  waiter-Goes n i at_top t two held a l = inr (steps n i at_top t _ l a refl)
  waiter-Goes n i taking t two held a l = inr (
      at_fork n i (left_fork n i) taking one_fork t l a (λ t' e. e)
        (λ j owned.
          let (lj, hj) = held (left_fork n i) j owned in
          holder-Goes n n (left_fork n i) j (t.phase j) t two held (omega arith) refl lj hj))
  waiter-Goes n i one_fork t two held a l =
      inr (holder-Goes n n (left_fork n i) i one_fork t two held (omega arith) a l refl)
  waiter-Goes n i ready t two held a l = inr (steps n i ready t _ l a refl)
  waiter-Goes n i eating t two held a l = inr (at_queue n i event_eat eating _ t l a (λ t' e. e))
  waiter-Goes n i reporting t two held a l =
      inr (at_queue n i event_finished reporting (putting false) t l a (λ t' e. e))
  waiter-Goes n i (putting last) t two held a l = inr (steps n i (putting last) t _ l a refl)
  waiter-Goes n i (one_left last) t two held a l = inr (steps n i (one_left last) t _ l a refl)
  waiter-Goes n i sleeping t two held a l = inr (steps n i sleeping t _ l a refl)
  waiter-Goes n i gone t two held a l = inl refl

  all_or-Goes :
      (n m : ℕ) (t : Table)
      → 2 ≤ n
      → IsHeld n t
      → m ≤ n
      → ((i : ℕ) → i < m → t.phase i ≡ gone) ⊎ Goes n t
  all_or-Goes n zero t two held l = inl (λ i x. absurd (omega arith))
  all_or-Goes n (suc m) t two held l =
      elim (waiter-Goes n m (t.phase m) t two held refl (omega arith)) [
        | inr moves ↦ inr moves
        | inl e ↦ elim (all_or-Goes n m t two held (omega arith)) [
          | inr moves ↦ inr moves
          | inl es ↦ inl (λ i x. extended i x e es)
        ]
      ]
    where
      extended :
          (i : ℕ)
          → i < suc m
          → t.phase m ≡ gone
          → ((i : ℕ) → i < m → t.phase i ≡ gone)
          → t.phase i ≡ gone
      extended i x e es = elim (Bool-cases (i == m)) [
        | inl same ↦ subst (λ k. t.phase k ≡ gone) (sym (the_same same)) e
        | inr other ↦ es i (ground arith)
      ]
        where
          the_same : (i == m) ≡ true → i ≡ m
          the_same same = ground arith

  monitor_takes :
      (n : ℕ) (t : Table)
      → queue_full t.event_queue ≡ true
      → ((t' : Table) × (monitor sim n t ≡ some t')) ⊎ (t.stopped ≡ true)
  unfolding monitor dequeue
  monitor_takes n t full = elim (Bool-cases t.stopped) [
    | inl off ↦ inr off
    | inr on ↦ inl (rw (on, full_not_empty t.event_queue full) (_, refl))
  ]

  -- The philosophers with ordered forks never wait for each other in a circle: with two philosophers
  -- or more, in every order of the steps of all threads, all have left their loops, or one of them can
  -- make its next step, or the queue of events is full. Where it is full, the monitor can take an
  -- event from it unless the simulation has stopped.
  pub Reach-moves :
      (n : ℕ) {t : Table}
      → 2 ≤ n
      → Reach sim n t
      → ((i : ℕ) → i < n → t.phase i ≡ gone)
        ⊎ (((i : ℕ) × ((i < n) × ((t' : Table) × (move sim n i t ≡ some t'))))
            ⊎ ((queue_full t.event_queue ≡ true)
                × (((t' : Table) × (monitor sim n t ≡ some t')) ⊎ (t.stopped ≡ true))))
  Reach-moves n {t} two r = elim (all_or-Goes n n t two (Reach-IsHeld sim n r) (omega arith)) [
    | inl all ↦ inl all
    | inr (inl moves) ↦ inr (inl moves)
    | inr (inr full) ↦ inr (inr (full, monitor_takes n t full))
  ]
