-- ===== src/Philo/Ordered/Holders.antt =====
-- Who owns a mutex stands where it is locked.
use barcelona.Base.{
  ℕ, suc, ◌<◌, ◌≡◌, ◌≢◌, refl, sym, none, some, arith, ltb, ◌==◌, ◌⊎◌, inl, inr, Bool, true, false,
  Bool-cases, if◌then◌else◌, Option-cases,
}
use mathlib.Core.Path.{subst}
use barcelona.Philo.{
  Phase, at_top, taking, one_fork, ready, eating, reporting, putting, one_left, sleeping, gone,
  update,
}
use barcelona.Philo.Events.{
  PhiloEventType, event_eat, event_died, event_finished, EventQueue, enqueue, dequeue,
}
use barcelona.Philo.Routines.{Sim, has_finished}
use barcelona.Philo.Ordered.{
  Table, left_fork, right_fork, strategy_v1_init, enter, lock, unlock, notify_monitor, test_stop,
  move_at, move, on_event, monitor, halt, Reach, start, moved, monitored, watched,
}

-- The phases in which a philosopher holds its first fork a, and those with its second fork b too.
abbrev pub Holds : ℕ → ℕ → ℕ → Phase → Type 0
Holds a b fork at_top = ⊥
Holds a b fork taking = ⊥
Holds a b fork one_fork = fork ≡ a
Holds a b fork ready = (fork ≡ a) ⊎ (fork ≡ b)
Holds a b fork eating = (fork ≡ a) ⊎ (fork ≡ b)
Holds a b fork reporting = (fork ≡ a) ⊎ (fork ≡ b)
Holds a b fork (putting last) = (fork ≡ a) ⊎ (fork ≡ b)
Holds a b fork (one_left last) = fork ≡ a
Holds a b fork sleeping = ⊥
Holds a b fork gone = ⊥

-- An owner is one of the n philosophers and holds what it owns.
abbrev pub IsHeld : ℕ → Table → Type 0
IsHeld n t =
    (fork j : ℕ)
    → t.owner fork ≡ some j
    → (j < n) × Holds (left_fork n j) (right_fork n j) fork (t.phase j)

abbrev HoldsAt : ℕ → ℕ → ℕ → Phase → Type 0
HoldsAt n j fork phase = Holds (left_fork n j) (right_fork n j) fork phase

update-HoldsAt :
    (n j i fork : ℕ) (phase : Phase) (phases : ℕ → Phase)
    → (HoldsAt n i fork (phases i) → HoldsAt n i fork phase)
    → HoldsAt n j fork (phases j)
    → HoldsAt n j fork (update i phase phases j)
unfolding update
update-HoldsAt n j i fork phase phases keeps h = elim (Bool-cases (j == i)) [
  | inl e ↦
      let same : j ≡ i = ground arith in
      subst (λ b. HoldsAt n j fork (if b then phase else phases j)) (sym e)
        (subst (λ k. HoldsAt n k fork phase) (sym same)
          (keeps (subst (λ k. HoldsAt n k fork (phases k)) same h)))
  | inr e ↦ subst (λ b. HoldsAt n j fork (if b then phase else phases j)) (sym e) h
]

update-HoldsAt_self :
    (n i fork : ℕ) (phase : Phase) (phases : ℕ → Phase)
    → HoldsAt n i fork phase
    → HoldsAt n i fork (update i phase phases i)
unfolding update
update-HoldsAt_self n i fork phase phases h =
    let same : (i == i) ≡ true = ground arith in
    subst (λ b. HoldsAt n i fork (if b then phase else phases i)) (sym same) h

enter-IsHeld :
    (n i : ℕ) (phase : Phase) (t : Table)
    → ((fork : ℕ) → HoldsAt n i fork (t.phase i) → HoldsAt n i fork phase)
    → IsHeld n t
    → IsHeld n (enter i phase t)
unfolding enter
enter-IsHeld n i phase t keeps h fork j e =
    ((h fork j e).0, update-HoldsAt n j i fork phase t.phase (keeps fork) (h fork j e).1)

unlock-IsHeld :
    (n i fork : ℕ) (phase : Phase) (t : Table)
    → ((f : ℕ) → f ≢ fork → HoldsAt n i f (t.phase i) → HoldsAt n i f phase)
    → IsHeld n t
    → IsHeld n (unlock fork i phase t)
unfolding unlock
unlock-IsHeld n i fork phase t keeps h f j e =
    let x : f ≢ fork = λ same. freed f j same e in
    let y : t.owner f ≡ some j = kept f j x e in
    ((h f j y).0, update-HoldsAt n j i f phase t.phase (keeps f x) (h f j y).1)
  where
    freed : (f j : ℕ) → f ≡ fork → update fork none t.owner f ≡ some j → ⊥
    freed f j same e = unfold update in ground arith

    kept : (f j : ℕ) → f ≢ fork → update fork none t.owner f ≡ some j → t.owner f ≡ some j
    kept f j x e = unfold update in ground arith

abbrev locked : ℕ → ℕ → Phase → Table → Table
locked fork i phase t = record t {
  phase = update i phase t.phase;
  owner = update fork (some i) t.owner;
}

lock-some :
    (fork i : ℕ) (phase : Phase) (t t' : Table)
    → lock fork i phase t ≡ some t'
    → (t.owner fork ≡ none) × (t' ≡ locked fork i phase t)
unfolding lock
lock-some fork i phase t t' e = ground arith

lock-IsHeld :
    (n i fork : ℕ) (phase : Phase) (t t' : Table)
    → i < n
    → HoldsAt n i fork phase
    → ((f : ℕ) → HoldsAt n i f (t.phase i) → HoldsAt n i f phase)
    → IsHeld n t
    → lock fork i phase t ≡ some t'
    → IsHeld n t'
lock-IsHeld n i fork phase t t' l got keeps h e =
    subst (λ s. IsHeld n s) (sym (lock-some fork i phase t t' e).1) held
  where
    self : (f j : ℕ) → f ≡ fork → update fork (some i) t.owner f ≡ some j → j ≡ i
    self f j same e = unfold update in ground arith

    other : (f j : ℕ) → f ≢ fork → update fork (some i) t.owner f ≡ some j → t.owner f ≡ some j
    other f j x e = unfold update in ground arith

    held : IsHeld n (locked fork i phase t)
    held f j e = elim (Bool-cases (f == fork)) [
      | inl a ↦
          let same : f ≡ fork = ground arith in
          let who : j ≡ i = self f j same e in
          subst (λ k. (k < n) × HoldsAt n k f (update i phase t.phase k)) (sym who)
            (
              l,
              update-HoldsAt_self n i f phase t.phase
                  (subst (λ g. HoldsAt n i g phase) (sym same) got),
            )
      | inr a ↦
          let y : t.owner f ≡ some j = other f j (ground arith) e in
          ((h f j y).0, update-HoldsAt n j i f phase t.phase (keeps f) (h f j y).1)
    ]

from :
    (n i f : ℕ) (p phase : Phase) (t : Table)
    → t.phase i ≡ p
    → (HoldsAt n i f p → HoldsAt n i f phase)
    → HoldsAt n i f (t.phase i)
    → HoldsAt n i f phase
from n i f p phase t a keeps h = keeps (subst (λ q. HoldsAt n i f q) a h)

some-injective : {t t' : Table} → some t ≡ some t' → t ≡ t'
some-injective e = ground arith

stepped : (n : ℕ) {t t' : Table} → IsHeld n t → some t ≡ some t' → IsHeld n t'
stepped n h e = subst (λ s. IsHeld n s) (some-injective e) h

other_fork : {a b f : ℕ} → f ≢ b → (f ≡ a) ⊎ (f ≡ b) → f ≡ a
other_fork x (inl e) = e
other_fork x (inr e) = absurd (x e)

notify_monitor-some :
    (type : PhiloEventType) (i : ℕ) (phase : Phase) (t t' : Table)
    → notify_monitor type i phase t ≡ some t'
    → (q : EventQueue) × (t' ≡ record t { phase = update i phase t.phase; event_queue = q })
unfolding notify_monitor
notify_monitor-some type i phase t t' e =
    elim (Option-cases (enqueue (record { philo_id = suc i; type = type }) t.event_queue)) [
      | inl f ↦ absurd (ground arith)
      | inr (q, f) ↦ (q, ground arith)
    ]

notify_monitor-IsHeld :
    (n i : ℕ) (type : PhiloEventType) (phase : Phase) (t t' : Table)
    → ((fork : ℕ) → HoldsAt n i fork (t.phase i) → HoldsAt n i fork phase)
    → IsHeld n t
    → notify_monitor type i phase t ≡ some t'
    → IsHeld n t'
unfolding enter
notify_monitor-IsHeld n i type phase t t' keeps h e =
    let (q, same) = notify_monitor-some type i phase t t' e in
    subst (λ s. IsHeld n s) (sym same) (enter-IsHeld n i phase t keeps h)

test_stop-IsHeld :
    (n i : ℕ) (b : Bool) (t : Table) → t.phase i ≡ ready → IsHeld n t → IsHeld n (test_stop b i t)
unfolding test_stop enter
test_stop-IsHeld n i true t a h =
    enter-IsHeld n i (putting true) t (λ f. from n i f ready (putting true) t a (λ x. x)) h
test_stop-IsHeld n i false t a h =
    enter-IsHeld n i eating t (λ f. from n i f ready eating t a (λ x. x)) h

eaten :
    (n i f : ℕ) (b : Bool)
    → HoldsAt n i f eating
    → HoldsAt n i f (if b then reporting else putting false)
eaten n i f true x = x
eaten n i f false x = x

module _ (sim : Sim) where
  -- A step from the phase at which the philosopher stands.
  move_at-IsHeld :
      (n i : ℕ) (p : Phase) (t t' : Table)
      → i < n
      → t.phase i ≡ p
      → IsHeld n t
      → move_at sim n i p t ≡ some t'
      → IsHeld n t'
  unfolding move_at
  move_at-IsHeld n i at_top t t' l a h e =
      stepped n (enter-IsHeld n i _ t (λ f. from n i f at_top _ t a (λ x. absurd x)) h) e
  move_at-IsHeld n i taking t t' l a h e =
      lock-IsHeld n i (left_fork n i) one_fork t t' l refl
        (λ f. from n i f taking one_fork t a (λ x. absurd x)) h e
  move_at-IsHeld n i one_fork t t' l a h e =
      lock-IsHeld n i (right_fork n i) ready t t' l (inr refl)
        (λ f. from n i f one_fork ready t a (λ x. inl x)) h e
  move_at-IsHeld n i ready t t' l a h e = stepped n (test_stop-IsHeld n i t.stopped t a h) e
  move_at-IsHeld n i eating t t' l a h e =
      notify_monitor-IsHeld n i event_eat _ t t'
        (λ f. from n i f eating _ t a (eaten n i f (has_finished sim (t.meal_count i)))) h e
  move_at-IsHeld n i reporting t t' l a h e =
      notify_monitor-IsHeld n i event_finished (putting false) t t'
        (λ f. from n i f reporting (putting false) t a (λ x. x)) h e
  move_at-IsHeld n i (putting last) t t' l a h e =
      stepped n
        (unlock-IsHeld n i (right_fork n i) (one_left last) t
          (λ f x. from n i f (putting last) (one_left last) t a (other_fork x)) h)
        e
  move_at-IsHeld n i (one_left last) t t' l a h e =
      stepped n
        (unlock-IsHeld n i (left_fork n i) _ t
          (λ f x. from n i f (one_left last) _ t a (λ y. absurd (x y))) h)
        e
  move_at-IsHeld n i sleeping t t' l a h e =
      stepped n (enter-IsHeld n i at_top t (λ f. from n i f sleeping at_top t a (λ x. x)) h) e
  move_at-IsHeld n i gone t t' l a h e = ground arith

  on_event-IsHeld :
      (n : ℕ) (type : PhiloEventType) (t : Table) → IsHeld n t → IsHeld n (on_event sim n type t)
  unfolding on_event halt
  on_event-IsHeld n event_eat t h = h
  on_event-IsHeld n event_died t h = h
  on_event-IsHeld n event_finished t h = elim (Bool-cases (ltb (suc t.finished_count) n)) [
    | inl e ↦ rw e h
    | inr e ↦ rw e h
  ]

  monitor-some :
      (n : ℕ) (t t' : Table)
      → monitor sim n t ≡ some t'
      → (type : PhiloEventType) × (q : EventQueue) × (t'
          ≡ on_event sim n type (record t { event_queue = q }))
  unfolding monitor
  monitor-some n t t' e = elim (Option-cases (dequeue t.event_queue)) [
    | inl f ↦ absurd (ground arith)
    | inr ((ev, q), f) ↦ (ev.type, q, ground arith)
  ]

  pub Reach-IsHeld : (n : ℕ) {t : Table} → Reach sim n t → IsHeld n t
  unfolding strategy_v1_init move
  Reach-IsHeld n (start buf) f j e = ground arith
  Reach-IsHeld n (moved {t} {t'} i l r e) f j e' =
      move_at-IsHeld n i (t.phase i) t t' l refl (Reach-IsHeld n r) e f j e'
  Reach-IsHeld n (monitored {t} {t'} r e) f j e' =
      let (type, q, same) = monitor-some n t t' e in
      subst (λ s. IsHeld n s) (sym same)
        (on_event-IsHeld n type (record t { event_queue = q }) (Reach-IsHeld n r)) f j e'
  Reach-IsHeld n (watched {t} i l r e) f j e' = Reach-IsHeld n r f j e'
