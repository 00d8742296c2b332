-- ===== src/Pmerge.antt =====
-- project/cpp_module/CPP09/ex02/PmergeMe.cpp: the input check and the merge-insertion sort. The
-- sorted values are positive ints, so natural numbers. The code for std::deque has definitions
-- of its own.
pub mod Order
pub mod Insertion
pub mod Search
pub mod Sort
pub mod Deque
pub mod Input
mod Tests
use barcelona.Base.{
  ℕ, zero, suc, ◌+◌, ◌-◌, ◌*◌, ◌/◌, ◌^◌, Bool, true, false, not, ◌&&◌, ◌||◌, Option, none, some,
  List, [], ◌∷◌, ◌++◌, ltb, leb, ◌==◌, if◌then◌else◌, length,
}
use barcelona.Base.Text.{Bytes, is_digit}
use barcelona.Base.Number.{stoull}

-- `v[i]`; the code reads inside the bounds.
abbrev pub get_or : List ℕ → ℕ → ℕ → ℕ
get_or [] i d = d
get_or (x ∷ xs) zero d = x
get_or (x ∷ xs) (suc i) d = get_or xs i d

-- `v[i] = x`
abbrev pub set : List ℕ → ℕ → ℕ → List ℕ
set [] i v = []
set (x ∷ xs) zero v = v ∷ xs
set (x ∷ xs) (suc i) v = x ∷ set xs i v

-- `v.insert(v.begin() + i, x)`
unfoldable pub insert_at : List ℕ → ℕ → ℕ → List ℕ
insert_at xs zero v = v ∷ xs
insert_at [] (suc i) v = v ∷ []
insert_at (x ∷ xs) (suc i) v = x ∷ insert_at xs i v

-- The while loop, from `j + 1` on, so that -1 is `zero`; it leaves the array and the last `j + 1`.
unfoldable pub shift : ℕ → ℕ → ℕ → List ℕ → List ℕ × ℕ
shift key start zero v = (v, zero)
shift key start (suc j) v =
    let moved = shift key start j (set v (suc j) (get_or v j 0)) in
    if leb start j && ltb key (get_or v j 0) then moved else (v, suc j)

-- One round of the for loop: `v[i]` is put in its place among those before it.
unfoldable pub insert_round : ℕ → ℕ → List ℕ → List ℕ
unfolding shift
insert_round start i v = let key = get_or v i 0 in let (v', k) = shift key start i v in set v' k key

-- The for loop, with the rounds left and the next index.
unfoldable pub insert_rounds : ℕ → ℕ → ℕ → List ℕ → List ℕ
unfolding insert_round
insert_rounds zero start i v = v
insert_rounds (suc n) start i v = insert_rounds n start (i + 1) (insert_round start i v)

-- `insertionSortVector(v, start, end)`
unfoldable pub insertion_sort_vector : List ℕ → ℕ → ℕ → List ℕ
unfolding insert_rounds
insertion_sort_vector v start end = insert_rounds (end - start) start (start + 1) v

-- The smaller and the larger of each pair; a last value without a partner is among the larger.
unfoldable pub split_pairs : List ℕ → List ℕ × List ℕ
split_pairs [] = ([], [])
split_pairs (x ∷ []) = ([], x ∷ [])
split_pairs (x ∷ y ∷ input) =
    let (smaller, larger) = split_pairs input in
    if ltb x y then (x ∷ smaller, y ∷ larger) else (y ∷ smaller, x ∷ larger)

-- The binary search; each round shortens the range, so its length is fuel enough.
unfoldable pub search_position : ℕ → List ℕ → ℕ → ℕ → ℕ → ℕ
search_position zero output val left right = left
search_position (suc f) output val left right =
    let mid = (left + right) / 2 in
    let upper = search_position f output val (mid + 1) right in
    let lower = search_position f output val left mid in
    if ltb left right then if ltb (get_or output mid 0) val then upper else lower else left

unfoldable pub insert_smaller : List ℕ → List ℕ → List ℕ
unfolding search_position
insert_smaller [] output = output
insert_smaller (val ∷ smaller) output =
    insert_smaller smaller
      (insert_at output (search_position (length output) output val 0 (length output)) val)

-- `fordJohnsonSortVector`; the larger values are fewer than all, so the length is fuel enough.
unfoldable pub merge_insertion : ℕ → List ℕ → List ℕ
unfolding insert_smaller
merge_insertion zero input = input
merge_insertion (suc f) input =
    let small = insertion_sort_vector input 0 (length input - 1) in
    let large = insert_smaller (split_pairs input).0 (merge_insertion f (split_pairs input).1) in
    if leb (length input) 1 then input else if leb (length input) 10 then small else large

unfoldable pub ford_johnson_sort_vector : List ℕ → List ℕ
unfolding merge_insertion
ford_johnson_sort_vector input = merge_insertion (length input) input

-- `insertionSortDeque`: its while loop, a round of its for loop, and the rounds.
unfoldable pub shift_deque : ℕ → ℕ → ℕ → List ℕ → List ℕ × ℕ
shift_deque key start zero d = (d, zero)
shift_deque key start (suc j) d =
    let moved = shift_deque key start j (set d (suc j) (get_or d j 0)) in
    if leb start j && ltb key (get_or d j 0) then moved else (d, suc j)

unfoldable pub insert_round_deque : ℕ → ℕ → List ℕ → List ℕ
unfolding shift_deque
insert_round_deque start i d =
    let key = get_or d i 0 in let (d', k) = shift_deque key start i d in set d' k key

unfoldable pub insert_rounds_deque : ℕ → ℕ → ℕ → List ℕ → List ℕ
unfolding insert_round_deque
insert_rounds_deque zero start i d = d
insert_rounds_deque (suc n) start i d =
    insert_rounds_deque n start (i + 1) (insert_round_deque start i d)

unfoldable pub insertion_sort_deque : List ℕ → ℕ → ℕ → List ℕ
unfolding insert_rounds_deque
insertion_sort_deque d start end = insert_rounds_deque (end - start) start (start + 1) d

-- `fordJohnsonSortDeque`: its loop over pairs, its binary search, the loop over the smaller values,
-- and the function.
unfoldable pub split_pairs_deque : List ℕ → List ℕ × List ℕ
split_pairs_deque [] = ([], [])
split_pairs_deque (x ∷ []) = ([], x ∷ [])
split_pairs_deque (x ∷ y ∷ input) =
    let (smaller, larger) = split_pairs_deque input in
    if ltb x y then (x ∷ smaller, y ∷ larger) else (y ∷ smaller, x ∷ larger)

unfoldable pub search_position_deque : ℕ → List ℕ → ℕ → ℕ → ℕ → ℕ
search_position_deque zero output val left right = left
search_position_deque (suc f) output val left right =
    let mid = (left + right) / 2 in
    let upper = search_position_deque f output val (mid + 1) right in
    let lower = search_position_deque f output val left mid in
    if ltb left right then if ltb (get_or output mid 0) val then upper else lower else left

unfoldable pub insert_smaller_deque : List ℕ → List ℕ → List ℕ
unfolding search_position_deque
insert_smaller_deque [] output = output
insert_smaller_deque (val ∷ smaller) output =
    insert_smaller_deque smaller
      (insert_at output (search_position_deque (length output) output val 0 (length output)) val)

unfoldable pub merge_insertion_deque : ℕ → List ℕ → List ℕ
unfolding insertion_sort_deque split_pairs_deque insert_smaller_deque
merge_insertion_deque zero input = input
merge_insertion_deque (suc f) input =
    let small = insertion_sort_deque input 0 (length input - 1) in
    let large =
      insert_smaller_deque (split_pairs_deque input).0
        (merge_insertion_deque f (split_pairs_deque input).1) in
    if leb (length input) 1 then input else if leb (length input) 10 then small else large

unfoldable pub ford_johnson_sort_deque : List ℕ → List ℕ
unfolding merge_insertion_deque
ford_johnson_sort_deque input = merge_insertion_deque (length input) input

-- The fields but the two durations.
pub record Sorter : Type 0 where
  pub vector_data : List ℕ
  pub deque_data : List ℕ
  pub vector_sorted : List ℕ
  pub deque_sorted : List ℕ
  pub has_error : Bool

-- `PmergeMe()`
abbrev pub new_sorter : Sorter
new_sorter = record {
  vector_data = [];
  deque_data = [];
  vector_sorted = [];
  deque_sorted = [];
  has_error = false;
}

unfoldable pub all_digits : Bytes → Bool
all_digits [] = true
all_digits (c ∷ s) = is_digit c && all_digits s

abbrev pub int_max : ℕ
int_max = 2 ^ 31 - 1

-- `stoul_cpp98` on digits only, and the range check; `none` sets the error.
unfoldable pub parse_value : Bytes → Option ℕ
unfolding all_digits
parse_value [] = none
parse_value (c ∷ s) =
    if all_digits (c ∷ s)
    then elim (stoull 10 (c ∷ s)) [
      | none ↦ none
      | some val ↦ if val == 0 || ltb int_max val then none else some val
    ]
    else none

abbrev pub push_value : ℕ → Sorter → Sorter
push_value v m = record m {
  vector_data = m.vector_data ++ (v ∷ []);
  deque_data = m.deque_data ++ (v ∷ []);
}

-- `parseInput`, from the argument behind the program's name on.
unfoldable pub parse_input : List Bytes → Sorter → Sorter × Bool
parse_input [] m = (m, not m.has_error)
parse_input (arg ∷ args) m = elim (parse_value arg) [
  | none ↦ (record m { has_error = true }, false)
  | some v ↦ parse_input args (push_value v m)
]

unfoldable pub sort_vector : Sorter → Sorter
sort_vector m = record m { vector_sorted = ford_johnson_sort_vector m.vector_data }

unfoldable pub sort_deque : Sorter → Sorter
unfolding ford_johnson_sort_deque
sort_deque m = record m { deque_sorted = ford_johnson_sort_deque m.deque_data }

sorted_both : Sorter × Bool → Option Sorter
unfolding sort_vector sort_deque
sorted_both (m, false) = none
sorted_both (m, true) = some (sort_deque (sort_vector m))

-- `main` of main.cpp, but for its output; `none` is the output "Error".
unfoldable pub main : List Bytes → Option Sorter
unfolding sorted_both
main [] = none
main (arg ∷ args) = sorted_both (parse_input (arg ∷ args) new_sorter)
