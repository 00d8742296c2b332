-- ===== src/Philo/Together/Safe.antt =====
-- The philosophers that eat and those that have forks, and what stays of that.
use barcelona.Base.{
  ℕ, ◌≡◌, ◌≢◌, sym, ◌∙◌, Bool, true, false, ◌||◌, arith, ◌==◌, Bool-cases, if◌then◌else◌, ◌⊎◌, inl,
  inr,
}
use mathlib.Core.Path.{subst}
use barcelona.Philo.{Phase, ready, eating, putting, update, next_fork}
use barcelona.Philo.Together.{Table, enter}

unfoldable pub is_eating : Phase → Bool
is_eating eating = true
is_eating _ = false

-- The phases between `take_forks` and the end of `put_forks`.
unfoldable pub has_forks : Phase → Bool
has_forks ready = true
has_forks eating = true
has_forks (putting last) = true
has_forks _ = false

unfoldable pub is_fork : ℕ → ℕ → ℕ → Bool
unfolding next_fork
is_fork n i fork = fork == i || fork == next_fork n i

-- A fork is with one philosopher of those that are busy.
abbrev pub AreApart : (Phase → Bool) → ℕ → (ℕ → Phase) → Type 0
AreApart is_busy n phases =
    (i j fork : ℕ)
    → is_busy (phases i) ≡ true
    → is_busy (phases j) ≡ true
    → is_fork n i fork ≡ true
    → is_fork n j fork ≡ true
    → i ≡ j

abbrev pub AreTaken : ℕ → (ℕ → Phase) → (ℕ → Bool) → Type 0
AreTaken n phases is_taken =
    (i fork : ℕ) → has_forks (phases i) ≡ true → is_fork n i fork ≡ true → is_taken fork ≡ true

-- While the simulation runs, a fork is with one philosopher at most and then marked; behind its
-- stop this still holds of those that eat.
abbrev pub IsSafe : ℕ → Table → Type 0
IsSafe n t =
    AreApart is_eating n t.phase
    × (t.stopped ≡ false → AreApart has_forks n t.phase × AreTaken n t.phase t.is_taken)

-- What is known of a philosopher behind a step of the philosopher i.
pub update-cases :
    (is_busy : Phase → Bool) (i j : ℕ) (phase : Phase) (phases : ℕ → Phase)
    → is_busy (update i phase phases j) ≡ true
    → ((j ≡ i) × (is_busy phase ≡ true)) ⊎ ((j ≢ i) × (is_busy (phases j) ≡ true))
unfolding update
update-cases is_busy i j phase phases b = elim (Bool-cases (j == i)) [
  | inl e ↦ inl (ground arith, subst (λ x. is_busy (if x then phase else phases j) ≡ true) e b)
  | inr e ↦ inr (ground arith, subst (λ x. is_busy (if x then phase else phases j) ≡ true) e b)
]

-- A philosopher that becomes busy where no other is busy with its forks.
abbrev pub IsAlone : (Phase → Bool) → ℕ → ℕ → Phase → (ℕ → Phase) → Type 0
IsAlone is_busy n i phase phases =
    (j fork : ℕ)
    → j ≢ i
    → is_busy phase ≡ true
    → is_busy (phases j) ≡ true
    → is_fork n i fork ≡ true
    → is_fork n j fork ≡ true
    → ⊥

pub update-AreApart :
    (is_busy : Phase → Bool) (n i : ℕ) (phase : Phase) (phases : ℕ → Phase)
    → IsAlone is_busy n i phase phases
    → AreApart is_busy n phases
    → AreApart is_busy n (update i phase phases)
update-AreApart is_busy n i phase phases alone apart j k fork bj bk fj fk =
    elim (update-cases is_busy i j phase phases bj) [
      | inl (j-i, b) ↦ elim (update-cases is_busy i k phase phases bk) [
        | inl (k-i, c) ↦ j-i ∙ sym k-i
        | inr (x, c) ↦ absurd (alone k fork x b c (subst (λ m. is_fork n m fork ≡ true) j-i fj) fk)
      ]
      | inr (x, b) ↦ elim (update-cases is_busy i k phase phases bk) [
        | inl (k-i, c) ↦
            absurd (alone j fork x c b (subst (λ m. is_fork n m fork ≡ true) k-i fk) fj)
        | inr (y, c) ↦ apart j k fork b c fj fk
      ]
    ]

-- One that was busy already.
stays-IsAlone :
    (is_busy : Phase → Bool) (n i : ℕ) (phase : Phase) (phases : ℕ → Phase)
    → (is_busy phase ≡ true → is_busy (phases i) ≡ true)
    → AreApart is_busy n phases
    → IsAlone is_busy n i phase phases
stays-IsAlone is_busy n i phase phases keeps apart j fork x b c fi fj =
    x (apart j i fork c (keeps b) fj fi)

pub stays :
    (is_busy : Phase → Bool) (n i : ℕ) (phase : Phase) (phases : ℕ → Phase)
    → (is_busy phase ≡ true → is_busy (phases i) ≡ true)
    → AreApart is_busy n phases
    → AreApart is_busy n (update i phase phases)
stays is_busy n i phase phases keeps apart =
    update-AreApart is_busy n i phase phases (stays-IsAlone is_busy n i phase phases keeps apart)
      apart

abbrev pub IsRunning : ℕ → (ℕ → Phase) → (ℕ → Bool) → Type 0
IsRunning n phases is_taken = AreApart has_forks n phases × AreTaken n phases is_taken

pub enter-IsRunning :
    (n i : ℕ) (phase : Phase) (phases : ℕ → Phase) (is_taken : ℕ → Bool)
    → (has_forks phase ≡ true → has_forks (phases i) ≡ true)
    → IsRunning n phases is_taken
    → IsRunning n (update i phase phases) is_taken
enter-IsRunning n i phase phases is_taken has (held, flagged) = (
  stays has_forks n i phase phases has held,
  λ j fork b f. elim (update-cases has_forks i j phase phases b) [
    | inl (j-i, c) ↦ flagged i fork (has c) (subst (λ m. is_fork n m fork ≡ true) j-i f)
    | inr (x, c) ↦ flagged j fork c f
  ],
)

-- A step that takes no fork and leaves the flags alone.
pub enter-IsSafe :
    (n i : ℕ) (phase : Phase) (t : Table)
    → (is_eating phase ≡ true → is_eating (t.phase i) ≡ true)
    → (t.stopped ≡ false → has_forks phase ≡ true → has_forks (t.phase i) ≡ true)
    → IsSafe n t
    → IsSafe n (enter i phase t)
unfolding enter
enter-IsSafe n i phase t eats has (apart, running) = (
  stays is_eating n i phase t.phase eats apart,
  λ on. enter-IsRunning n i phase t.phase t.is_taken (has on) (running on),
)
