-- ===== src/Pmerge/Input.antt =====
-- The values that are let in, and the run of the program.
use mathlib.Core.Path.{subst}
use barcelona.Base.{
  ℕ, ◌^◌, ◌≤◌, ◌<◌, ◌≡◌, refl, sym, ap, ◌∙◌, append_assoc, append-nil, Bool, true, false, some, inl,
  inr, List, [], ◌∷◌, ◌++◌, arith, Option-cases,
}
use barcelona.Base.Text.{Bytes}
use barcelona.Pmerge.{
  Sorter, new_sorter, all_digits, parse_value, push_value, parse_input, sort_vector, sort_deque,
  sorted_both, main, ford_johnson_sort_vector,
}
use barcelona.Base.Number.{stoull}
use barcelona.Pmerge.Deque.{ford_johnson_sort-eq}
use barcelona.Pmerge.Order.{IsSorted, SameValues}
use barcelona.Pmerge.Sort.{ford_johnson_sort_vector-IsSorted}

-- A positive int.
abbrev pub InRange : List ℕ → Type 0
InRange [] = Unit
InRange (x ∷ xs) = ((1 ≤ x) × (x < 2 ^ 31)) × InRange xs

InRange-append : (xs ys : List ℕ) → InRange xs → InRange ys → InRange (xs ++ ys)
InRange-append [] ys h k = k
InRange-append (x ∷ xs) ys h k = (h.0, InRange-append xs ys h.1 k)

parse_value_bounds : (arg : Bytes) (v : ℕ) → parse_value arg ≡ some v → (1 ≤ v) × (v < 2 ^ 31)
unfolding parse_value
parse_value_bounds [] v e = cc
parse_value_bounds (c ∷ s) v e = ground arith

-- An argument that is digits only, and the number that they write, in base 10.
abbrev pub IsNumber : Bytes → ℕ → Type 0
IsNumber arg v = (all_digits arg ≡ true) × (stoull 10 arg ≡ some v)

-- The values are those of the arguments, in order.
abbrev pub AreNumbers : List Bytes → List ℕ → Type 0
AreNumbers [] [] = Unit
AreNumbers (arg ∷ args) (v ∷ vs) = IsNumber arg v × AreNumbers args vs
AreNumbers _ _ = ⊥

parse_value-IsNumber : (arg : Bytes) (v : ℕ) → parse_value arg ≡ some v → IsNumber arg v
unfolding parse_value
parse_value-IsNumber [] v e = cc
parse_value-IsNumber (c ∷ s) v e = ground arith

AreNumbers-append :
    (args more : List Bytes) (vs ws : List ℕ)
    → AreNumbers args vs
    → AreNumbers more ws
    → AreNumbers (args ++ more) (vs ++ ws)
AreNumbers-append [] more [] ws h k = k
AreNumbers-append (a ∷ args) more (v ∷ vs) ws h k = (h.0, AreNumbers-append args more vs ws h.1 k)
AreNumbers-append [] more (v ∷ vs) ws h k = absurd h
AreNumbers-append (a ∷ args) more [] ws h k = absurd h

-- What holds of the sorter when it has read these arguments.
record Read (args : List Bytes) (m : Sorter) : Type 0 where
  same : m.deque_data ≡ m.vector_data
  in_range : InRange m.vector_data
  numbers : AreNumbers args m.vector_data
  clean : m.has_error ≡ false

push_value-Read :
    (args : List Bytes) (arg : Bytes) (v : ℕ) (m : Sorter)
    → parse_value arg ≡ some v
    → Read args m
    → Read (args ++ (arg ∷ [])) (push_value v m)
push_value-Read args arg v m e r = record {
  same = ap (λ l. l ++ (v ∷ [])) r.same;
  in_range = InRange-append m.vector_data (v ∷ []) r.in_range (parse_value_bounds arg v e, tt);
  numbers =
      AreNumbers-append args (arg ∷ []) m.vector_data (v ∷ []) r.numbers
        (parse_value-IsNumber arg v e, tt);
  clean = r.clean;
}

parse_input-Read :
    (done args : List Bytes) (m m' : Sorter)
    → Read done m
    → parse_input args m ≡ (m', true)
    → Read (done ++ args) m'
unfolding parse_input
parse_input-Read done [] m m' r e =
    let f : m ≡ m' = ap (λ z. z.0) e in
    subst (λ k. Read k m') (sym (append-nil done)) (subst (Read done) f r)
parse_input-Read done (arg ∷ args) m m' r e = elim (Option-cases (parse_value arg)) [
  | inl f ↦ let g = rw (f, parse_input) at e in cc
  | inr (v, f) ↦
      let g : parse_input args (push_value v m) ≡ (m', true) = rw (f, parse_input) at e in
      subst (λ k. Read k m') (append_assoc done (arg ∷ []) args)
        (parse_input-Read (done ++ (arg ∷ [])) args (push_value v m) m'
          (push_value-Read done arg v m f r) g)
]

-- What the program has done when it prints.
pub record Sorted (args : List Bytes) (m : Sorter) : Type 0 where
  pub agree : m.deque_sorted ≡ m.vector_sorted
  pub ascending : IsSorted m.vector_sorted
  pub kept : SameValues m.vector_sorted m.vector_data
  pub in_range : InRange m.vector_data
  pub numbers : AreNumbers args m.vector_data

both-Sorted :
    (args : List Bytes) (m : Sorter) → Read args m → Sorted args (sort_deque (sort_vector m))
unfolding sort_vector sort_deque
both-Sorted args m r =
    let (s, c) = ford_johnson_sort_vector-IsSorted m.vector_data in
    record {
      agree = ford_johnson_sort-eq m.deque_data ∙ ap ford_johnson_sort_vector r.same;
      ascending = s;
      kept = c;
      in_range = r.in_range;
      numbers = r.numbers;
    }

new_sorter-Read : Read [] new_sorter
new_sorter-Read = record { same = refl; in_range = tt; numbers = tt; clean = refl }

sorted_both_lem :
    (args : List Bytes) (x : Sorter × Bool) (m : Sorter)
    → ((m' : Sorter) → x ≡ (m', true) → Read args m')
    → sorted_both x ≡ some m
    → Sorted args m
unfolding sorted_both
sorted_both_lem args (m', false) m h e = cc
sorted_both_lem args (m', true) m h e =
    let f : sort_deque (sort_vector m') ≡ m = cc in
    subst (Sorted args) f (both-Sorted args m' (h m' refl))

-- Where the program does not end with "Error", every argument is digits only, the values are the
-- numbers that the arguments write, in order, and positive ints, and the two containers end up equal,
-- in ascending order, with each of these values as often as it was given.
pub main-Sorted : (args : List Bytes) (m : Sorter) → main args ≡ some m → Sorted args m
unfolding main
main-Sorted [] m e = cc
main-Sorted (arg ∷ args) m e =
    sorted_both_lem (arg ∷ args) (parse_input (arg ∷ args) new_sorter) m
      (λ m' f. parse_input-Read [] (arg ∷ args) new_sorter m' new_sorter-Read f) e
