-- ===== src/Philo/Events/Fifo.antt =====
-- The ring buffer is a list of at most 1023 events.
use barcelona.Base.{
  ℕ, zero, suc, ◌+◌, ◌-◌, ◌%◌, ◌<◌, ◌≡◌, refl, sym, ap, ◌∙◌, Bool, true, false, Option, none, some,
  append_assoc, List, [], ◌∷◌, ◌++◌, arith, length, ◌==◌, if◌then◌else◌,
}
use mathlib.Core.Path.{subst}
use barcelona.Philo.{update}
use barcelona.Philo.Events.{
  PhiloEvent, EventQueue, queue_init, queue_empty, queue_full, enqueue, dequeue,
}

-- n events of the buffer from the index i on.
unfoldable pub events_from : ℕ → ℕ → (ℕ → PhiloEvent) → List PhiloEvent
events_from zero i buf = []
events_from (suc n) i buf = buf i ∷ events_from n ((i + 1) % 1024) buf

unfoldable size : EventQueue → ℕ
size q = (q.tail + 1024 - q.head) % 1024

unfoldable pub events : EventQueue → List PhiloEvent
unfolding events_from size
events q = events_from (size q) q.head q.buf

unfoldable pub IsRing : EventQueue → Type 0
IsRing q = (q.head < 1024) × (q.tail < 1024)

length-events_from : (n i : ℕ) (buf : ℕ → PhiloEvent) → length (events_from n i buf) ≡ n
unfolding events_from
length-events_from zero i buf = refl
length-events_from (suc n) i buf = ap suc (length-events_from n ((i + 1) % 1024) buf)

-- An element in front of the events or behind them is none of them.
events_from-update :
    (n i k : ℕ) (ev : PhiloEvent) (buf : ℕ → PhiloEvent)
    → i < 1024
    → n < 1024
    → k ≡ (i + n) % 1024
    → events_from (suc n) i (update k ev buf) ≡ events_from n i buf ++ (ev ∷ [])
unfolding events_from update
events_from-update zero i k ev buf a b e = let same : (i == k) ≡ true = ground arith in rw same refl
events_from-update (suc n) i k ev buf a b e =
    let other : (i == k) ≡ false = ground arith in
    rw other (
      ap (λ l. buf i ∷ l)
        (events_from-update n ((i + 1) % 1024) k ev buf (omega arith) (omega arith) (omega arith)))

abbrev enqueued : PhiloEvent → EventQueue → EventQueue
enqueued ev q = record q { buf = update q.tail ev q.buf; tail = (q.tail + 1) % 1024 }

abbrev dequeued : EventQueue → EventQueue
dequeued q = record q { head = (q.head + 1) % 1024 }

size-dequeued :
    (q : EventQueue) → IsRing q → queue_empty q ≡ false → size q ≡ suc (size (dequeued q))
unfolding queue_empty IsRing size
size-dequeued q (a, b) e = ground arith

queue_empty-size : (q : EventQueue) → IsRing q → queue_empty q ≡ (size q == 0)
unfolding queue_empty IsRing size
queue_empty-size q (a, b) = ground arith

queue_full-size : (q : EventQueue) → IsRing q → queue_full q ≡ (size q == 1023)
unfolding queue_full IsRing size
queue_full-size q (a, b) = ground arith

size-enqueued :
    (ev : PhiloEvent) (q : EventQueue)
    → IsRing q
    → queue_full q ≡ false
    → (size (enqueued ev q) ≡ suc (size q))
      × ((size q < 1024) × (q.tail ≡ (q.head + size q) % 1024))
unfolding queue_full IsRing size
size-enqueued ev q (a, b) e = (ground arith, (ground arith, ground arith))

enqueue-some :
    (ev : PhiloEvent) (q q' : EventQueue)
    → enqueue ev q ≡ some q'
    → (queue_full q ≡ false) × (q' ≡ enqueued ev q)
unfolding enqueue
enqueue-some ev q q' e = ground arith

dequeue-some :
    (ev : PhiloEvent) (q q' : EventQueue)
    → dequeue q ≡ some (ev, q')
    → (queue_empty q ≡ false) × ((q' ≡ dequeued q) × (ev ≡ q.buf q.head))
unfolding dequeue
dequeue-some ev q q' e = ground arith

events-enqueued :
    (ev : PhiloEvent) (q : EventQueue)
    → IsRing q
    → queue_full q ≡ false
    → IsRing (enqueued ev q) × (events (enqueued ev q) ≡ events q ++ (ev ∷ []))
unfolding events IsRing
events-enqueued ev q ring e =
    let (s, (l, t)) = size-enqueued ev q ring e in
    (
      (ring.0, omega arith),
      ap (λ n. events_from n q.head (update q.tail ev q.buf)) s
          ∙ events_from-update (size q) q.head q.tail ev q.buf ring.0 l t,
    )

events-dequeued :
    (q : EventQueue)
    → IsRing q
    → queue_empty q ≡ false
    → IsRing (dequeued q) × (events q ≡ q.buf q.head ∷ events (dequeued q))
unfolding events events_from IsRing
events-dequeued q ring e =
    ((omega arith, ring.1), ap (λ n. events_from n q.head q.buf) (size-dequeued q ring e))

-- A run of operations of any threads on the queue, with the events that went in and those that came
-- out, in the order of time.
pub data Run : List PhiloEvent → List PhiloEvent → EventQueue → Type 0 where
  start : (buf : ℕ → PhiloEvent) → Run [] [] (queue_init buf)
  put :
      {ins outs : List PhiloEvent} {q q' : EventQueue} (ev : PhiloEvent)
      → Run ins outs q
      → enqueue ev q ≡ some q'
      → Run (ins ++ (ev ∷ [])) outs q'
  got :
      {ins outs : List PhiloEvent} {q q' : EventQueue} (ev : PhiloEvent)
      → Run ins outs q
      → dequeue q ≡ some (ev, q')
      → Run ins (outs ++ (ev ∷ [])) q'

Run-order :
    {ins outs : List PhiloEvent} {q : EventQueue}
    → Run ins outs q
    → IsRing q × (ins ≡ outs ++ events q)
Run-order (start buf) = (unfold queue_init IsRing in (omega arith, omega arith), nothing buf)
  where
    nothing : (buf : ℕ → PhiloEvent) → [] ≡ [] ++ events (queue_init buf)
    nothing buf = unfold events events_from size queue_init in refl
Run-order (put {ins} {outs} {q} {q'} ev r e) =
    let (ring, order) = Run-order r in
    let (room, same) = enqueue-some ev q q' e in
    let (ring', more) = events-enqueued ev q ring room in
    subst (λ s. IsRing s × (ins ++ (ev ∷ []) ≡ outs ++ events s)) (sym same)
      (
        ring',
        ap (λ l. l ++ (ev ∷ [])) order
            ∙ append_assoc outs (events q) (ev ∷ [])
            ∙ ap (λ l. outs ++ l) (sym more),
      )
Run-order (got {ins} {outs} {q} {q'} ev r e) =
    let (ring, order) = Run-order r in
    let (some_left, (same, first)) = dequeue-some ev q q' e in
    let (ring', less) = events-dequeued q ring some_left in
    subst (λ s. IsRing s × (ins ≡ (outs ++ (ev ∷ [])) ++ events s)) (sym same)
      (
        ring',
        order
            ∙ ap (λ l. outs ++ l) (less ∙ ap (λ x. x ∷ events (dequeued q)) (sym first))
            ∙ sym (append_assoc outs (ev ∷ []) (events (dequeued q))),
      )

-- An operation that does not come back yet.
unfoldable pub is_waiting : {A : Type 0} → Option A → Bool
is_waiting none = true
is_waiting (some x) = false

length-events : (q : EventQueue) → length (events q) ≡ size q
unfolding events
length-events q = length-events_from (size q) q.head q.buf

-- The ring buffer is a queue of at most 1023 events: after any run of the operations of any
-- threads, what went in is what came out and then what the buffer holds; to put an event in waits
-- exactly if the buffer holds 1023, and to take one out exactly if it holds none.
pub events_order :
    {ins outs : List PhiloEvent} {q : EventQueue}
    → Run ins outs q
    → (ins ≡ outs ++ events q)
      × ((ev : PhiloEvent) → is_waiting (enqueue ev q) ≡ (length (events q) == 1023))
      × (is_waiting (dequeue q) ≡ (length (events q) == 0))
unfolding enqueue dequeue is_waiting
events_order {q = q} r =
    let (ring, order) = Run-order r in
    (
      order,
      (λ ev. waits _ 1023 (queue_full-size q ring) (length-events q)),
      waits _ 0 (queue_empty-size q ring) (length-events q),
    )
  where
    waits :
        {A : Type 0} (x : A) (k : ℕ) {b : Bool} {n m : ℕ}
        → b ≡ (n == k)
        → m ≡ n
        → is_waiting (if b then none else some x) ≡ (m == k)
    waits x k e l = ground arith
