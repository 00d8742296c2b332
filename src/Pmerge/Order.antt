-- ===== src/Pmerge/Order.antt =====
-- Ascending lists, and lists with the same values as often.
use barcelona.Base.{
  ℕ, zero, suc, ◌+◌, ◌≤◌, ◌<◌, ◌≡◌, refl, sym, List, [], ◌∷◌, arith, ◌==◌, if◌then◌else◌, length,
}
use barcelona.Pmerge.{get_or}

-- No value is below `x`.
abbrev pub AtLeast : ℕ → List ℕ → Type 0
AtLeast x [] = Unit
AtLeast x (y ∷ ys) = (x ≤ y) × AtLeast x ys

abbrev pub IsSorted : List ℕ → Type 0
IsSorted [] = Unit
IsSorted (x ∷ xs) = AtLeast x xs × IsSorted xs

abbrev pub occurrences : ℕ → List ℕ → ℕ
occurrences value [] = 0
occurrences value (y ∷ ys) = (if value == y then 1 else 0) + occurrences value ys

abbrev pub SameValues : List ℕ → List ℕ → Type 0
SameValues xs ys = (a : ℕ) → occurrences a xs ≡ occurrences a ys

pub AtLeast-le : (x y : ℕ) (ys : List ℕ) → x ≤ y → AtLeast y ys → AtLeast x ys
AtLeast-le x y [] h m = tt
AtLeast-le x y (z ∷ zs) h m = (omega arith, AtLeast-le x y zs h m.1)

pub AtLeast-get_or :
    (x : ℕ) (ys : List ℕ) (i : ℕ) → AtLeast x ys → i < length ys → x ≤ get_or ys i 0
AtLeast-get_or x [] i m h = absurd (omega arith)
AtLeast-get_or x (y ∷ ys) zero m h = m.0
AtLeast-get_or x (y ∷ ys) (suc i) m h = AtLeast-get_or x ys i m.1 (omega arith)

-- In an ascending list a later value is no smaller.
pub IsSorted-mono :
    (xs : List ℕ) (i j : ℕ) → IsSorted xs → i ≤ j → j < length xs → get_or xs i 0 ≤ get_or xs j 0
IsSorted-mono [] i j s h k = absurd (omega arith)
IsSorted-mono (x ∷ xs) zero zero s h k = omega arith
IsSorted-mono (x ∷ xs) zero (suc j) s h k = AtLeast-get_or x xs j s.0 (omega arith)
IsSorted-mono (x ∷ xs) (suc i) zero s h k = absurd (omega arith)
IsSorted-mono (x ∷ xs) (suc i) (suc j) s h k = IsSorted-mono xs i j s.1 (omega arith) (omega arith)

occurrences_pos : (x : ℕ) (xs : List ℕ) → 0 < occurrences x (x ∷ xs)
occurrences_pos x xs = ground arith

pub occurrences-AtLeast : (x a : ℕ) (ys : List ℕ) → AtLeast x ys → a < x → occurrences a ys ≡ 0
occurrences-AtLeast x a [] m h = refl
occurrences-AtLeast x a (y ∷ ys) m h = ground (arith, occurrences-AtLeast x a ys m.1 h, m.0)

-- The heads of two ascending lists with the same values are the same.
head_le : (x y : ℕ) (xs ys : List ℕ) → AtLeast y ys → SameValues (x ∷ xs) (y ∷ ys) → y ≤ x
head_le x y xs ys m c = ground (arith, c x, occurrences-AtLeast y x ys m)

head_eq :
    (x y : ℕ) (xs ys : List ℕ) → AtLeast x xs → AtLeast y ys → SameValues (x ∷ xs) (y ∷ ys) → x ≡ y
head_eq x y xs ys m n c = omega (arith, head_le x y xs ys n c, head_le y x ys xs m (λ a. sym (c a)))

-- There is only one ascending list with given values.
pub IsSorted-unique : (xs ys : List ℕ) → IsSorted xs → IsSorted ys → SameValues xs ys → xs ≡ ys
IsSorted-unique [] [] s t c = refl
IsSorted-unique [] (y ∷ ys) s t c = absurd (omega (arith, c y, occurrences_pos y ys))
IsSorted-unique (x ∷ xs) [] s t c = absurd (omega (arith, c x, occurrences_pos x xs))
IsSorted-unique (x ∷ xs) (y ∷ ys) s t c =
    let e = head_eq x y xs ys s.0 t.0 c in
    rw (e, IsSorted-unique xs ys s.1 t.1 (λ a. ground (arith, c a, e))) refl
