-- ===== src/Philo/Together/Steps.antt =====
-- The steps that take forks, begin to eat with them and put them back.
use barcelona.Base.{ℕ, ◌≡◌, refl, ◌∙◌, Bool, true, false, arith, if◌then◌else◌, inl, inr}
use mathlib.Core.Path.{subst}
use barcelona.Philo.{
  Phase, at_top, taking, one_fork, ready, eating, reporting, putting, one_left, sleeping, gone,
  update, next_fork,
}
use barcelona.Philo.Together.{Table, enter, set_forks, strategy_v2_put}
use barcelona.Philo.Together.Safe.{
  is_eating, has_forks, is_fork, IsSafe, update-cases, IsAlone, stays, update-AreApart, AreTaken,
  enter-IsRunning,
}

-- The flags of the two forks and those of the others.
set_forks-cases :
    (n i fork : ℕ) (taken : Bool) (t : Table)
    → (set_forks n i taken t).is_taken fork ≡ (if is_fork n i fork then taken else t.is_taken fork)
unfolding set_forks update is_fork
set_forks-cases n i fork taken t = ground arith

is_eating-has_forks : (phase : Phase) → is_eating phase ≡ true → has_forks phase ≡ true
unfolding is_eating has_forks
is_eating-has_forks eating e = refl
is_eating-has_forks at_top e = ground arith
is_eating-has_forks taking e = ground arith
is_eating-has_forks one_fork e = ground arith
is_eating-has_forks ready e = ground arith
is_eating-has_forks reporting e = ground arith
is_eating-has_forks (putting last) e = ground arith
is_eating-has_forks (one_left last) e = ground arith
is_eating-has_forks sleeping e = ground arith
is_eating-has_forks gone e = ground arith

-- The second test: who has forks begins to eat.
pub begin-IsSafe :
    (n i : ℕ) (t : Table)
    → t.phase i ≡ ready
    → t.stopped ≡ false
    → IsSafe n t
    → IsSafe n (enter i eating t)
unfolding enter
begin-IsSafe n i t a on (apart, running) = (
  update-AreApart is_eating n i eating t.phase alone apart,
  λ y. enter-IsRunning n i eating t.phase t.is_taken (λ x. has_i) (running y),
)
  where
    has_i : has_forks (t.phase i) ≡ true
    has_i = unfold has_forks in rw a refl

    alone : IsAlone is_eating n i eating t.phase
    alone j fork x b c fi fj =
        x ((running on).0 j i fork (is_eating-has_forks (t.phase j) c) has_i fj fi)

pub take-IsSafe :
    (n i : ℕ) (t : Table)
    → t.is_taken i ≡ false
    → t.is_taken (next_fork n i) ≡ false
    → IsSafe n t
    → IsSafe n (enter i ready (set_forks n i true t))
unfolding enter set_forks
take-IsSafe n i t free free' (apart, running) = (
  stays is_eating n i ready t.phase (λ e. absurd (waits e)) apart,
  λ on. (
    update-AreApart has_forks n i ready t.phase (alone (running on).1) (running on).0,
    λ j fork b f. elim (update-cases has_forks i j ready t.phase b) [
      | inl (j-i, c) ↦
          set_forks-cases n i fork true t ∙ own fork (subst (λ m. is_fork n m fork ≡ true) j-i f)
      | inr (x, c) ↦ set_forks-cases n i fork true t ∙ kept fork ((running on).1 j fork c f)
    ],
  ),
)
  where
    waits : is_eating ready ≡ true → ⊥
    waits e = unfold is_eating in ground arith

    free_fork : (fork : ℕ) → is_fork n i fork ≡ true → t.is_taken fork ≡ true → ⊥
    free_fork fork f e = unfold is_fork in ground arith

    alone : AreTaken n t.phase t.is_taken → IsAlone has_forks n i ready t.phase
    alone flagged j fork x b c fi fj = free_fork fork fi (flagged j fork c fj)

    own :
        (fork : ℕ)
        → is_fork n i fork ≡ true
        → (if is_fork n i fork then true else t.is_taken fork) ≡ true
    own fork f = rw f refl

    kept :
        (fork : ℕ)
        → t.is_taken fork ≡ true
        → (if is_fork n i fork then true else t.is_taken fork) ≡ true
    kept fork e = ground arith

pub put-IsSafe :
    (n i : ℕ) (phase : Phase) (t : Table)
    → has_forks (t.phase i) ≡ true
    → has_forks phase ≡ false
    → IsSafe n t
    → IsSafe n (enter i phase (strategy_v2_put n i t))
unfolding enter strategy_v2_put
put-IsSafe n i phase t has_i leaves (apart, running) = (
  stays is_eating n i phase t.phase (λ e. absurd (left (is_eating-has_forks phase e))) apart,
  λ on. (
    stays has_forks n i phase t.phase (λ e. absurd (left e)) (running on).0,
    λ j fork b f. elim (update-cases has_forks i j phase t.phase b) [
      | inl (j-i, c) ↦ absurd (left c)
      | inr (x, c) ↦
          set_forks-cases n i fork false t
          ∙ kept fork (λ fi. x ((running on).0 j i fork c has_i f fi)) ((running on).1 j fork c f)
    ],
  ),
)
  where
    left : has_forks phase ≡ true → ⊥
    left e = ground arith

    kept :
        (fork : ℕ)
        → ¬ (is_fork n i fork ≡ true)
        → t.is_taken fork ≡ true
        → (if is_fork n i fork then false else t.is_taken fork) ≡ true
    kept fork x e = ground arith
