-- ===== src/Pmerge/Sort.antt =====
-- The merge-insertion sort.
use barcelona.Base.{
  ℕ, zero, suc, ◌+◌, ◌≤◌, ◌≡◌, refl, inl, inr, List, [], ◌∷◌, arith, ltb, leb, length, Bool-cases,
}
use barcelona.Pmerge.{split_pairs, merge_insertion, ford_johnson_sort_vector}
use barcelona.Pmerge.Order.{IsSorted, occurrences, SameValues, IsSorted-unique}
use barcelona.Pmerge.Insertion.{insertion_sort_vector_lem}
use barcelona.Pmerge.Search.{insert_smaller_lem}

-- The pairs hold all values, and the larger are at most one more than half of them.
split_pairs_lem :
    (input : List ℕ)
    → ((a : ℕ)
        → occurrences a (split_pairs input).0 + occurrences a (split_pairs input).1
          ≡ occurrences a input)
      × (length (split_pairs input).1 + length (split_pairs input).1 ≤ length input + 1)
unfolding split_pairs
split_pairs_lem [] = (λ a. omega arith, omega arith)
split_pairs_lem (x ∷ []) = (λ a. omega arith, omega arith)
split_pairs_lem (x ∷ y ∷ input) =
    let (c, l) = split_pairs_lem input in
    elim (Bool-cases (ltb x y)) [
      | inl e ↦ rw e (λ a. omega (arith, c a), omega (arith, l))
      | inr e ↦ rw e (λ a. omega (arith, c a), omega (arith, l))
    ]

short-IsSorted : (v : List ℕ) → length v ≤ 1 → IsSorted v
short-IsSorted [] h = tt
short-IsSorted (x ∷ []) h = (tt, tt)
short-IsSorted (x ∷ y ∷ v) h = absurd (omega arith)

merge_insertion_lem :
    (f : ℕ) (input : List ℕ)
    → length input ≤ f
    → IsSorted (merge_insertion f input) × SameValues (merge_insertion f input) input
unfolding merge_insertion
merge_insertion_lem zero input h = (short-IsSorted input (omega arith), λ a. refl)
merge_insertion_lem (suc f) input h = elim (Bool-cases (leb (length input) 1)) [
  | inl e ↦ rw e (short-IsSorted input (ground arith), λ a. refl)
  | inr e ↦ elim (Bool-cases (leb (length input) 10)) [
    | inl g ↦ rw (e, g) (insertion_sort_vector_lem input)
    | inr g ↦
        let (c, l) = split_pairs_lem input in
        let (u, d) = merge_insertion_lem f (split_pairs input).1 (ground arith) in
        let (v, b) =
          insert_smaller_lem (split_pairs input).0 (merge_insertion f (split_pairs input).1) u in
        rw (e, g) (v, λ a. omega (arith, b a, d a, c a))
  ]
]

-- fordJohnsonSortVector returns its input's values in ascending order, each as often as it was
-- there.
pub ford_johnson_sort_vector-IsSorted :
    (input : List ℕ)
    → IsSorted (ford_johnson_sort_vector input) × SameValues (ford_johnson_sort_vector input) input
unfolding ford_johnson_sort_vector
ford_johnson_sort_vector-IsSorted input = merge_insertion_lem (length input) input (omega arith)

-- An ascending list is left as it is.
pub ford_johnson_sort_vector_sorted :
    (input : List ℕ) → IsSorted input → ford_johnson_sort_vector input ≡ input
ford_johnson_sort_vector_sorted input s =
    let (u, c) = ford_johnson_sort_vector-IsSorted input in
    IsSorted-unique (ford_johnson_sort_vector input) input u s c
