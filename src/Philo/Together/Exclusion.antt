-- ===== src/Philo/Together/Exclusion.antt =====
-- Two philosophers never eat with the same fork.
use barcelona.Base.{
  ℕ, ◌≤◌, ◌<◌, ◌≡◌, ◌≢◌, refl, sym, Bool, true, false, some, arith, if◌then◌else◌, ◌⊎◌, inl, inr,
}
use mathlib.Core.Path.{subst}
use barcelona.Philo.{
  Phase, at_top, taking, one_fork, ready, eating, reporting, putting, one_left, sleeping, gone,
  next_fork,
}
use barcelona.Philo.Forks.{next_fork-ne}
use barcelona.Philo.Together.{
  Table, strategy_v2_init, enter, set_forks, strategy_v2_take, move_at, move, halt, Reach, start,
  moved, halted,
}
use barcelona.Philo.Together.Safe.{is_eating, has_forks, is_fork, IsSafe, enter-IsSafe}
use barcelona.Philo.Together.Steps.{begin-IsSafe, take-IsSafe, put-IsSafe}

some-injective : {t t' : Table} → some t ≡ some t' → t ≡ t'
some-injective e = ground arith

stepped : (n : ℕ) {t t' : Table} → IsSafe n t → some t ≡ some t' → IsSafe n t'
stepped n h e = subst (λ s. IsSafe n s) (some-injective e) h

-- What `strategy_v2_take` comes to.
strategy_v2_take-cases :
    (n i : ℕ) (t t' : Table)
    → strategy_v2_take n i t ≡ some t'
    → ((t.stopped ≡ true) × (t' ≡ enter i ready t))
      ⊎ ((t.is_taken i ≡ false)
          × ((t.is_taken (next_fork n i) ≡ false) × (t' ≡ enter i ready (set_forks n i true t))))
unfolding strategy_v2_take
strategy_v2_take-cases n i t t' e = ground arith

strategy_v2_take-IsSafe :
    (n i : ℕ) (t t' : Table) → IsSafe n t → strategy_v2_take n i t ≡ some t' → IsSafe n t'
strategy_v2_take-IsSafe n i t t' safe e = elim (strategy_v2_take-cases n i t t' e) [
  | inl (off, same) ↦
      subst (λ s. IsSafe n s) (sym same)
        (enter-IsSafe n i ready t (λ x. absurd (waits x)) (λ on. absurd (clash on off)) safe)
  | inr (free, (free', same)) ↦
      subst (λ s. IsSafe n s) (sym same) (take-IsSafe n i t free free' safe)
]
  where
    waits : is_eating ready ≡ true → ⊥
    waits x = unfold is_eating in ground arith

    clash : t.stopped ≡ false → t.stopped ≡ true → ⊥
    clash on off = ground arith

enters :
    (n i : ℕ) (p phase : Phase) (t t' : Table)
    → t.phase i ≡ p
    → is_eating phase ≡ false
    → (has_forks phase ≡ true → has_forks p ≡ true)
    → IsSafe n t
    → some (enter i phase t) ≡ some t'
    → IsSafe n t'
enters n i p phase t t' a rests has safe e =
    stepped n
      (enter-IsSafe n i phase t (λ x. absurd (clash x))
        (λ on x. subst (λ q. has_forks q ≡ true) (sym a) (has x)) safe)
      e
  where
    clash : is_eating phase ≡ true → ⊥
    clash x = ground arith

-- The test of stop_simulation behind `take_forks`.
test-IsSafe :
    (n i : ℕ) (b : Bool) (t t' : Table)
    → t.stopped ≡ b
    → t.phase i ≡ ready
    → IsSafe n t
    → some (enter i (if b then putting true else eating) t) ≡ some t'
    → IsSafe n t'
unfolding is_eating has_forks
test-IsSafe n i true t t' on a safe e = enters n i ready (putting true) t t' a refl (λ x. x) safe e
test-IsSafe n i false t t' on a safe e = stepped n (begin-IsSafe n i t a on safe) e

-- A step from the phase at which the philosopher stands.
move_at-IsSafe :
    (n i : ℕ) (p : Phase) (t t' : Table)
    → t.phase i ≡ p
    → IsSafe n t
    → move_at n i p t ≡ some t'
    → IsSafe n t'
unfolding move_at is_eating has_forks
move_at-IsSafe n i at_top t t' a safe e =
    enters n i at_top (if t.stopped then gone else taking) t t' a rests leaves safe e
  where
    rests : is_eating (if t.stopped then gone else taking) ≡ false
    rests = unfold is_eating in ground arith

    leaves : has_forks (if t.stopped then gone else taking) ≡ true → false ≡ true
    leaves x = unfold has_forks in ground arith
move_at-IsSafe n i taking t t' a safe e = strategy_v2_take-IsSafe n i t t' safe e
move_at-IsSafe n i ready t t' a safe e = test-IsSafe n i t.stopped t t' refl a safe e
move_at-IsSafe n i eating t t' a safe e =
    enters n i eating (putting false) t t' a refl (λ x. x) safe e
move_at-IsSafe n i (putting last) t t' a safe e =
    stepped n (put-IsSafe n i (if last then gone else sleeping) t has leaves safe) e
  where
    has : has_forks (t.phase i) ≡ true
    has = unfold has_forks in rw a refl

    leaves : has_forks (if last then gone else sleeping) ≡ false
    leaves = unfold has_forks in ground arith
move_at-IsSafe n i sleeping t t' a safe e = enters n i sleeping at_top t t' a refl (λ x. x) safe e
move_at-IsSafe n i one_fork t t' a safe e = ground arith
move_at-IsSafe n i reporting t t' a safe e = ground arith
move_at-IsSafe n i (one_left last) t t' a safe e = ground arith
move_at-IsSafe n i gone t t' a safe e = ground arith

Reach-IsSafe : (n : ℕ) {t : Table} → Reach n t → IsSafe n t
unfolding strategy_v2_init halt move
Reach-IsSafe n start = (
  λ i j fork x. absurd (idle x),
  λ on. (λ i j fork x. absurd (idle' x), λ i fork x. absurd (idle' x)),
)
  where
    idle : is_eating at_top ≡ true → ⊥
    idle x = unfold is_eating in ground arith

    idle' : has_forks at_top ≡ true → ⊥
    idle' x = unfold has_forks in ground arith
Reach-IsSafe n (moved {t} {t'} i l r e) =
    move_at-IsSafe n i (t.phase i) t t' refl (Reach-IsSafe n r) e
Reach-IsSafe n (halted {t} r) =
    let (apart, running) = Reach-IsSafe n r in (apart, λ on. absurd (clash on))
  where
    clash : true ≡ false → ⊥
    clash on = ground arith

-- The strategy of both forks at once never lets two neighbours eat: with two philosophers or more, in
-- every order of their steps and wherever the simulation is stopped, the next around the table to a
-- philosopher that eats does not eat.
pub neighbours_lem :
    (n i : ℕ) {t : Table}
    → 2 ≤ n
    → i < n
    → Reach n t
    → t.phase i ≡ eating
    → t.phase (next_fork n i) ≢ eating
neighbours_lem n i {t} two l r a b = next_fork-ne n i two l (
    (Reach-IsSafe n r).0 i (next_fork n i) (next_fork n i) (eats i a) (eats (next_fork n i) b)
      (second i) (first (next_fork n i)))
  where
    eats : (j : ℕ) → t.phase j ≡ eating → is_eating (t.phase j) ≡ true
    eats j e = unfold is_eating in rw e refl

    second : (j : ℕ) → is_fork n j (next_fork n j) ≡ true
    second j = unfold is_fork in ground arith

    first : (j : ℕ) → is_fork n j j ≡ true
    first j = unfold is_fork in ground arith
