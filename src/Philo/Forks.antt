-- ===== src/Philo/Forks.antt =====
-- The fork at the other side of a philosopher.
use barcelona.Base.{ℕ, suc, ◌+◌, ◌%◌, ◌≤◌, ◌<◌, ◌≡◌, ◌≢◌, ◌∙◌, arith, ltb, Bool-cases, inl, inr}
use native.Mathlib.Nat.{mod-eq_of_lt, mod_self}
use mathlib.Core.Path.{subst}
use barcelona.Philo.{next_fork}

pub next_fork-suc : (n i : ℕ) → suc i < n → next_fork n i ≡ suc i
unfolding next_fork
next_fork-suc n i l = mod-eq_of_lt (omega arith) ∙ plus_one
  where
    plus_one : i + 1 ≡ suc i
    plus_one = omega arith

pub next_fork-zero : (n i : ℕ) → suc i ≡ n → next_fork n i ≡ 0
unfolding next_fork
next_fork-zero n i e = subst (λ m. (i + 1) % m ≡ 0) (the_end ∙ e) (mod_self (i + 1))
  where
    the_end : i + 1 ≡ suc i
    the_end = omega arith

pub next_fork-ne : (n i : ℕ) → 2 ≤ n → i < n → i ≢ next_fork n i
next_fork-ne n i two l same = elim (Bool-cases (ltb (suc i) n)) [
  | inl x ↦
      let e : next_fork n i ≡ suc i = next_fork-suc n i (ground arith) in absurd (ground arith)
  | inr x ↦ let e : next_fork n i ≡ 0 = next_fork-zero n i (ground arith) in absurd (ground arith)
]
