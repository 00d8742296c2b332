-- ===== src/Base/Text/Find.antt =====
-- Laws of `starts_with` and `find`: what they find, and that a match survives more input.
use barcelona.Base.Text.{Bytes, starts_with, find}
use Prim.Native.Nat.{ℕ, zero, suc, ◌+◌, ◌≤◌}
use mathlib.Core.Path.{◌≡◌, refl, sym, ap, ◌∙◌}
use mathlib.Core.Logic.{inl, inr}
use mathlib.Core.Bool.{true, ◌&&◌}
use mathlib.Core.Option.{some}
use mathlib.Core.List.{[], ◌∷◌, ◌++◌}
use native.Mathlib.Omega.{arith}
use barcelona.Base.Tests.{◌==◌, Bool-cases, Option-cases}
use barcelona.Base.Lists.{length, take, drop, take-append-drop}

pub starts_with_self : (p s : Bytes) → starts_with (p ++ s) p ≡ true
unfolding starts_with
starts_with_self [] s = refl
starts_with_self (x ∷ p) s = ground (arith, starts_with_self p s)

pub starts_with-eq : (s p : Bytes) → starts_with s p ≡ true → s ≡ p ++ drop (length p) s
unfolding starts_with
starts_with-eq s [] h = refl
starts_with-eq [] (y ∷ p) h = cc
starts_with-eq (x ∷ s) (y ∷ p) h = ground (arith, starts_with-eq s p)

pub starts_with-length : (s p : Bytes) → starts_with s p ≡ true → length p ≤ length s
unfolding starts_with
starts_with-length s [] h = omega arith
starts_with-length [] (y ∷ p) h = cc
starts_with-length (x ∷ s) (y ∷ p) h = ground (arith, starts_with-length s p)

-- A prefix is decided by the first bytes alone.
pub starts_with-append :
    (s t p : Bytes) → length p ≤ length s → starts_with (s ++ t) p ≡ starts_with s p
unfolding starts_with
starts_with-append s t [] h = refl
starts_with-append [] t (y ∷ p) h = elim h [ ]
starts_with-append (x ∷ s) t (y ∷ p) h = ap (◌&&◌ (x == y)) (starts_with-append s t p (omega arith))

pub find-bound : (s p : Bytes) (n : ℕ) → find s p ≡ some n → n + length p ≤ length s
unfolding find
find-bound [] p n h = elim (Bool-cases (starts_with [] p)) [
  | inl e ↦ ground (arith, starts_with-length [] p e)
  | inr e ↦ ground arith
]
find-bound (x ∷ s) p n h = elim (Bool-cases (starts_with (x ∷ s) p)) [
  | inl e ↦ ground (arith, starts_with-length (x ∷ s) p e)
  | inr e ↦ elim (Option-cases (find s p)) [
    | inl f ↦ ground arith
    | inr (m, f) ↦ ground (arith, find-bound s p m f)
  ]
]

drop-nil : (n : ℕ) → drop {A = ℕ} n [] ≡ []
drop-nil zero = refl
drop-nil (suc n) = refl

drop-drop : (m n : ℕ) (s : Bytes) → drop m (drop n s) ≡ drop (n + m) s
drop-drop m zero s = ap (λ (k : ℕ). drop k s) (omega arith)
drop-drop m (suc n) [] = drop-nil m ∙ sym (drop-nil (suc n + m))
drop-drop m (suc n) (x ∷ s) =
    drop-drop m n s
    ∙ ap (λ (k : ℕ). drop k (x ∷ s)) (let e : suc (n + m) ≡ suc n + m = omega arith in e)

pub find-starts_with : (s p : Bytes) (n : ℕ) → find s p ≡ some n → starts_with (drop n s) p ≡ true
unfolding find
find-starts_with [] p zero h = ground arith
find-starts_with [] p (suc n) h = ground arith
find-starts_with (x ∷ s) p zero h = elim (Option-cases (find s p)) [
  | inl f ↦ ground arith
  | inr (m, f) ↦ ground arith
]
find-starts_with (x ∷ s) p (suc n) h = ground (arith, find-starts_with s p n)

-- The text splits at the position found.
pub find-split :
    (s p : Bytes) (n : ℕ) → find s p ≡ some n → s ≡ take n s ++ (p ++ drop (n + length p) s)
find-split s p n h =
    sym (take-append-drop n s)
    ∙ ap (◌++◌ (take n s)) (starts_with-eq (drop n s) p (find-starts_with s p n h))
    ∙ ap (λ r. take n s ++ (p ++ r)) (drop-drop (length p) n s)

find-nil : (t : Bytes) → find t [] ≡ some 0
unfolding find
find-nil [] = refl
find-nil (x ∷ t) = refl

-- More input does not move a match.
pub find-append : (s t p : Bytes) (n : ℕ) → find s p ≡ some n → find (s ++ t) p ≡ some n
unfolding find
find-append [] t [] n h = find-nil t ∙ h
find-append [] t (y ∷ p) n h = ground arith
find-append (x ∷ s) t p n h = elim (Bool-cases (starts_with (x ∷ s) p)) [
  | inl e ↦ ground (arith, starts_with-append (x ∷ s) t p (starts_with-length (x ∷ s) p e))
  | inr e ↦ elim (Option-cases (find s p)) [
    | inl f ↦ ground arith
    | inr (m, f) ↦
        ground (arith, find-append s t p m f, find-bound s p m f, starts_with-append (x ∷ s) t p)
  ]
]
