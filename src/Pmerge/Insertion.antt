-- ===== src/Pmerge/Insertion.antt =====
-- The insertion sort in place.
use mathlib.Core.Path.{subst}
use barcelona.Base.{
  ℕ, suc, ◌+◌, ◌-◌, ◌≤◌, ◌≡◌, refl, sym, ap, ◌∙◌, true, inl, inr, List, [], ◌∷◌, ◌++◌, arith, ltb,
  leb, if◌then◌else◌, length, Bool-cases, append-nil,
}
use barcelona.Pmerge.{get_or, set, shift, insert_round, insert_rounds, insertion_sort_vector}
use barcelona.Pmerge.Order.{AtLeast, IsSorted, occurrences, SameValues, AtLeast-le}

-- The array whose part before the current place is `r`, the last value first.
abbrev pub behind : List ℕ → List ℕ → List ℕ
behind [] t = t
behind (x ∷ r) t = behind r (x ∷ t)

get_or-behind : (r t : List ℕ) (i : ℕ) → get_or (behind r t) (length r + i) 0 ≡ get_or t i 0
get_or-behind [] t i = let e : 0 + i ≡ i = omega arith in rw e refl
get_or-behind (x ∷ r) t i =
    let e : suc (length r) + i ≡ length r + suc i = omega arith in
    rw e (get_or-behind r (x ∷ t) (suc i))

set-behind : (r t : List ℕ) (i v : ℕ) → set (behind r t) (length r + i) v ≡ behind r (set t i v)
set-behind [] t i v = let e : 0 + i ≡ i = omega arith in rw e refl
set-behind (x ∷ r) t i v =
    let e : suc (length r) + i ≡ length r + suc i = omega arith in
    rw e (set-behind r (x ∷ t) (suc i) v)

-- The key in its place among `r`, in front of `s`.
place : ℕ → List ℕ → List ℕ → List ℕ
place key [] s = key ∷ s
place key (x ∷ r) s =
    let on = place key r (x ∷ s) in if ltb key x then on else behind r (x ∷ key ∷ s)

last_of : (r t : List ℕ) (x : ℕ) → get_or (behind r (x ∷ t)) (length r) 0 ≡ x
last_of r t x = let e : length r ≡ length r + 0 = omega arith in rw e (get_or-behind r (x ∷ t) 0)

set_next :
    (r s : List ℕ) (x h v : ℕ)
    → set (behind r (x ∷ h ∷ s)) (suc (length r)) v ≡ behind r (x ∷ v ∷ s)
set_next r s x h v =
    let e : suc (length r) ≡ length r + 1 = omega arith in rw e (set-behind r (x ∷ h ∷ s) 1 v)

abbrev finish : ℕ → List ℕ × ℕ → List ℕ
finish key (v, k) = set v k key

shift_lem :
    (key h : ℕ) (r s : List ℕ)
    → finish key (shift key 0 (length r) (behind r (h ∷ s))) ≡ place key r s
unfolding shift place
shift_lem key h [] s = refl
shift_lem key h (x ∷ r) s =
    let started : leb 0 (length r) ≡ true = ground arith in
    elim (Bool-cases (ltb key x)) [
      | inl e ↦ rw (started, last_of r (h ∷ s) x, e, set_next r s x h x) (shift_lem key x r (x ∷ s))
      | inr e ↦ rw (started, last_of r (h ∷ s) x, e) (set_next r s x h key)
    ]

insert_round_lem :
    (key : ℕ) (r s : List ℕ) → insert_round 0 (length r) (behind r (key ∷ s)) ≡ place key r s
unfolding insert_round
insert_round_lem key r s = rw (last_of r s key, shift_lem key key r s) refl

occurrences-behind :
    (a : ℕ) (r t : List ℕ) → occurrences a (behind r t) ≡ occurrences a r + occurrences a t
occurrences-behind a [] t = omega arith
occurrences-behind a (x ∷ r) t = omega (arith, occurrences-behind a r (x ∷ t))

occurrences-place :
    (a key : ℕ) (r s : List ℕ) → occurrences a (place key r s) ≡ occurrences a (key ∷ behind r s)
unfolding place
occurrences-place a key [] s = refl
occurrences-place a key (x ∷ r) s = elim (Bool-cases (ltb key x)) [
  | inl e ↦ rw (e, place) (occurrences-place a key r (x ∷ s))
  | inr e ↦
      rw (e, place)
        (omega (arith, occurrences-behind a r (x ∷ key ∷ s), occurrences-behind a r (x ∷ s)))
]

occurrences-append :
    (v : ℕ) (front rest : List ℕ)
    → occurrences v (front ++ rest) ≡ occurrences v front + occurrences v rest
occurrences-append v [] rest = omega arith
occurrences-append v (w ∷ front) rest = omega (arith, occurrences-append v front rest)

-- The values of `r`, from the last to the first, fit in front of `t`.
Fits : List ℕ → List ℕ → Type 0
Fits [] t = Unit
Fits (x ∷ r) t = AtLeast x t × Fits r (x ∷ t)

Fits-mono : (r t t' : List ℕ) → ((y : ℕ) → AtLeast y t → AtLeast y t') → Fits r t → Fits r t'
unfolding Fits
Fits-mono [] t t' h f = tt
Fits-mono (x ∷ r) t t' h f = (h x f.0, Fits-mono r (x ∷ t) (x ∷ t') (λ y m. (m.0, h y m.1)) f.1)

behind-IsSorted : (r t : List ℕ) → IsSorted t → Fits r t → IsSorted (behind r t)
unfolding Fits
behind-IsSorted [] t s f = s
behind-IsSorted (x ∷ r) t s f = behind-IsSorted r (x ∷ t) (f.0, s) f.1

IsSorted-behind : (r t : List ℕ) → IsSorted (behind r t) → IsSorted t × Fits r t
unfolding Fits
IsSorted-behind [] t s = (s, tt)
IsSorted-behind (x ∷ r) t s = let (u, f) = IsSorted-behind r (x ∷ t) s in (u.1, (u.0, f))

place-IsSorted :
    (key : ℕ) (r s : List ℕ) → IsSorted (behind r s) → AtLeast key s → IsSorted (place key r s)
unfolding place
place-IsSorted key [] s h m = (m, h)
place-IsSorted key (x ∷ r) s h m = elim (Bool-cases (ltb key x)) [
  | inl e ↦
      rw (e, place)
        (place-IsSorted key r (x ∷ s) h
          (ground arith, AtLeast-le key x s (ground arith) (IsSorted-behind r (x ∷ s) h).0.0))
  | inr e ↦
      let below : x ≤ key = ground arith in
      let (u, f) = IsSorted-behind r (x ∷ s) h in
      rw (e, place)
        (behind-IsSorted r (x ∷ key ∷ s) ((below, u.0), (m, u.1))
          (Fits-mono r (x ∷ s) (x ∷ key ∷ s) (λ y n. (n.0, (omega arith, n.1))) f))
]

-- A sorted part, with the key in its place.
ins : ℕ → List ℕ → List ℕ
ins key p = place key (behind p []) []

behind-behind : (p q : List ℕ) → behind (behind p q) [] ≡ behind q p
behind-behind [] q = refl
behind-behind (x ∷ p) q = behind-behind p (x ∷ q)

length-behind : (r t : List ℕ) → length (behind r t) ≡ length r + length t
length-behind [] t = omega arith
length-behind (x ∷ r) t = omega (arith, length-behind r (x ∷ t))

behind-append : (r s t : List ℕ) → behind r (s ++ t) ≡ behind r s ++ t
behind-append [] s t = refl
behind-append (x ∷ r) s t = behind-append r (x ∷ s) t

place-append : (key : ℕ) (r s t : List ℕ) → place key r (s ++ t) ≡ place key r s ++ t
unfolding place
place-append key [] s t = refl
place-append key (x ∷ r) s t = elim (Bool-cases (ltb key x)) [
  | inl e ↦ rw (e, place) (place-append key r (x ∷ s) t)
  | inr e ↦ rw (e, place) (behind-append r (x ∷ key ∷ s) t)
]

ins-IsSorted : (key : ℕ) (p : List ℕ) → IsSorted p → IsSorted (ins key p)
unfolding ins
ins-IsSorted key p s =
    place-IsSorted key (behind p []) [] (subst IsSorted (sym (behind-behind p [])) s) tt

occurrences-ins : (a key : ℕ) (p : List ℕ) → occurrences a (ins key p) ≡ occurrences a (key ∷ p)
unfolding ins
occurrences-ins a key p =
    occurrences-place a key (behind p []) []
    ∙ ap (λ q. occurrences a (key ∷ q)) (behind-behind p [])

length-place : (key : ℕ) (r s : List ℕ) → length (place key r s) ≡ suc (length r + length s)
unfolding place
length-place key [] s = omega arith
length-place key (x ∷ r) s = elim (Bool-cases (ltb key x)) [
  | inl e ↦ rw (e, place) (omega (arith, length-place key r (x ∷ s)))
  | inr e ↦ rw (e, place) (omega (arith, length-behind r (x ∷ key ∷ s)))
]

length-ins : (key : ℕ) (p : List ℕ) → length (ins key p) ≡ suc (length p)
unfolding ins
length-ins key p = omega (arith, length-place key (behind p []) [], length-behind p [])

-- One round, on an array whose first part is `p`.
round_lem : (key : ℕ) (p t : List ℕ) → insert_round 0 (length p) (p ++ (key ∷ t)) ≡ ins key p ++ t
unfolding ins
round_lem key p t =
    let r = behind p [] in
    let array : p ++ (key ∷ t) ≡ behind r (key ∷ t) =
      ap (λ q. q ++ (key ∷ t)) (sym (behind-behind p [])) ∙ sym (behind-append r [] (key ∷ t)) in
    let size : length p ≡ length r = omega (arith, length-behind p []) in
    rw (array, size) (insert_round_lem key r t ∙ place-append key r [] t)

rounds_lem :
    (t p : List ℕ) (i : ℕ)
    → i ≡ length p
    → IsSorted p
    → IsSorted (insert_rounds (length t) 0 i (p ++ t))
      × SameValues (insert_rounds (length t) 0 i (p ++ t)) (p ++ t)
unfolding insert_rounds
rounds_lem [] p i e s = rw (append-nil p) (s, λ a. refl)
rounds_lem (key ∷ t) p i e s =
    let round : insert_round 0 i (p ++ (key ∷ t)) ≡ ins key p ++ t = rw e (round_lem key p t) in
    let (u, c) =
      rounds_lem t (ins key p) (i + 1) (omega (arith, length-ins key p)) (ins-IsSorted key p s) in
    subst
      (λ v.
        IsSorted (insert_rounds (length t) 0 (i + 1) v)
        × SameValues (insert_rounds (length t) 0 (i + 1) v) (p ++ (key ∷ t)))
      (sym round)
      (
        u,
        λ a.
            c a
            ∙ omega (
              arith,
              occurrences-append a (ins key p) t,
              occurrences-append a p (key ∷ t),
              occurrences-ins a key p,
            ),
      )

-- The array is sorted in place, with its values.
pub insertion_sort_vector_lem :
    (v : List ℕ)
    → IsSorted (insertion_sort_vector v 0 (length v - 1))
      × SameValues (insertion_sort_vector v 0 (length v - 1)) v
unfolding insertion_sort_vector insert_rounds
insertion_sort_vector_lem [] = (tt, λ a. refl)
insertion_sort_vector_lem (x ∷ xs) =
    let n : suc (length xs) - 1 - 0 ≡ length xs = omega arith in
    rw n (rounds_lem xs (x ∷ []) 1 (omega arith) (tt, tt))
