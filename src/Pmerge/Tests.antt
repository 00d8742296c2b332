-- ===== src/Pmerge/Tests.antt =====
-- Runs of the sort and of the program.
use barcelona.Base.{ℕ, ◌≡◌, refl, false, none, some, List, [], ◌∷◌}
use barcelona.Base.Text.{codes, is_digit}
use barcelona.Base.Number.{stoull}
use barcelona.Pmerge.{
  Sorter, ford_johnson_sort_vector, ford_johnson_sort_deque, split_pairs, insert_at,
  insertion_sort_vector, parse_input, parse_value, main,
}
use barcelona.Pmerge.Order.{IsSorted, SameValues}
use barcelona.Pmerge.Sort.{ford_johnson_sort_vector-IsSorted}
use barcelona.Pmerge.Input.{Sorted, main-Sorted}

abbrev twelve : List ℕ
twelve = 7 ∷ 3 ∷ 9 ∷ 1 ∷ 12 ∷ 5 ∷ 3 ∷ 8 ∷ 2 ∷ 11 ∷ 4 ∷ 6 ∷ 10 ∷ []

sorts : ford_johnson_sort_vector twelve ≡ 1 ∷ 2 ∷ 3 ∷ 3 ∷ 4 ∷ 5 ∷ 6 ∷ 7 ∷ 8 ∷ 9 ∷ 10 ∷ 11 ∷ 12 ∷ []
unfolding ford_johnson_sort_vector split_pairs insert_at insertion_sort_vector
sorts = refl

values :
    (parse_value (codes "2147483647") ≡ some 2147483647)
    × (parse_value (codes "2147483648") ≡ none)
    × (parse_value (codes "0") ≡ none)
    × (parse_value (codes "-1") ≡ none)
    × (parse_value (codes "99999999999999999999") ≡ none)
unfolding parse_value stoull is_digit
values = (refl, refl, refl, refl, refl)

ford_johnson_sort_vector-IsSorted_example :
    IsSorted (ford_johnson_sort_vector twelve) × SameValues (ford_johnson_sort_vector twelve) twelve
ford_johnson_sort_vector-IsSorted_example = ford_johnson_sort_vector-IsSorted twelve

abbrev done : Sorter
done = record {
  vector_data = 3 ∷ 1 ∷ 2 ∷ [];
  deque_data = 3 ∷ 1 ∷ 2 ∷ [];
  vector_sorted = 1 ∷ 2 ∷ 3 ∷ [];
  deque_sorted = 1 ∷ 2 ∷ 3 ∷ [];
  has_error = false;
}

runs : main (codes "3" ∷ codes "1" ∷ codes "2" ∷ []) ≡ some done
unfolding main parse_value stoull is_digit parse_input ford_johnson_sort_deque insertion_sort_vector
    ford_johnson_sort_vector
runs = refl

main-Sorted_example : Sorted (codes "3" ∷ codes "1" ∷ codes "2" ∷ []) done
main-Sorted_example = main-Sorted (codes "3" ∷ codes "1" ∷ codes "2" ∷ []) done runs
