-- ===== src/Pmerge/Deque.antt =====
-- The two containers are sorted by the same steps.
use barcelona.Base.{
  ℕ, zero, suc, ◌+◌, ◌-◌, ◌/◌, ◌≡◌, refl, ap, ◌∙◌, ◌&&◌, List, [], ◌∷◌, ltb, leb, length,
  if◌then◌else◌,
}
use barcelona.Pmerge.{
  get_or, set, insert_at, shift, shift_deque, insert_round, insert_round_deque, insert_rounds,
  insert_rounds_deque, insertion_sort_vector, insertion_sort_deque, split_pairs, split_pairs_deque,
  search_position, search_position_deque, insert_smaller, insert_smaller_deque, merge_insertion,
  merge_insertion_deque, ford_johnson_sort_vector, ford_johnson_sort_deque,
}

shift-eq : (key start j : ℕ) (v : List ℕ) → shift_deque key start j v ≡ shift key start j v
unfolding shift shift_deque
shift-eq key start zero v = refl
shift-eq key start (suc j) v =
    ap (λ z. if leb start j && ltb key (get_or v j 0) then z else (v, suc j))
      (shift-eq key start j (set v (suc j) (get_or v j 0)))

insert_round-eq : (start i : ℕ) (v : List ℕ) → insert_round_deque start i v ≡ insert_round start i v
unfolding insert_round insert_round_deque
insert_round-eq start i v =
    ap (λ (z : List ℕ × ℕ). set z.0 z.1 (get_or v i 0)) (shift-eq (get_or v i 0) start i v)

insert_rounds-eq :
    (n start i : ℕ) (v : List ℕ) → insert_rounds_deque n start i v ≡ insert_rounds n start i v
unfolding insert_rounds insert_rounds_deque
insert_rounds-eq zero start i v = refl
insert_rounds-eq (suc n) start i v =
    insert_rounds-eq n start (i + 1) (insert_round_deque start i v)
    ∙ ap (insert_rounds n start (i + 1)) (insert_round-eq start i v)

insertion_sort-eq :
    (v : List ℕ) (start end : ℕ)
    → insertion_sort_deque v start end ≡ insertion_sort_vector v start end
unfolding insertion_sort_deque insertion_sort_vector
insertion_sort-eq v start end = insert_rounds-eq (end - start) start (start + 1) v

split_pairs-eq : (input : List ℕ) → split_pairs_deque input ≡ split_pairs input
unfolding split_pairs split_pairs_deque
split_pairs-eq [] = refl
split_pairs-eq (x ∷ []) = refl
split_pairs-eq (x ∷ y ∷ input) =
    ap (λ (z : List ℕ × List ℕ). if ltb x y then (x ∷ z.0, y ∷ z.1) else (y ∷ z.0, x ∷ z.1))
      (split_pairs-eq input)

search_position-eq :
    (f : ℕ) (output : List ℕ) (val left right : ℕ)
    → search_position_deque f output val left right ≡ search_position f output val left right
unfolding search_position search_position_deque
search_position-eq zero output val left right = refl
search_position-eq (suc f) output val left right =
    let mid = (left + right) / 2 in
    rw (search_position-eq f output val (mid + 1) right, search_position-eq f output val left mid)
      refl

insert_smaller-eq :
    (smaller output : List ℕ) → insert_smaller_deque smaller output ≡ insert_smaller smaller output
unfolding insert_smaller insert_smaller_deque
insert_smaller-eq [] output = refl
insert_smaller-eq (val ∷ smaller) output =
    insert_smaller-eq smaller _
    ∙ ap (λ i. insert_smaller smaller (insert_at output i val))
        (search_position-eq (length output) output val 0 (length output))

merge_insertion-eq :
    (f : ℕ) (input : List ℕ) → merge_insertion_deque f input ≡ merge_insertion f input
unfolding merge_insertion merge_insertion_deque
merge_insertion-eq zero input = refl
merge_insertion-eq (suc f) input =
    let pairs = split_pairs-eq input in
    let large : insert_smaller_deque (split_pairs_deque input).0
          (merge_insertion_deque f (split_pairs_deque input).1)
        ≡ insert_smaller (split_pairs input).0 (merge_insertion f (split_pairs input).1) =
      insert_smaller-eq (split_pairs_deque input).0 _
      ∙ ap (insert_smaller (split_pairs_deque input).0)
          (merge_insertion-eq f (split_pairs_deque input).1)
      ∙ ap (λ (z : List ℕ × List ℕ). insert_smaller z.0 (merge_insertion f z.1)) pairs in
    rw (insertion_sort-eq input 0 (length input - 1), large) refl

pub ford_johnson_sort-eq :
    (input : List ℕ) → ford_johnson_sort_deque input ≡ ford_johnson_sort_vector input
unfolding ford_johnson_sort_deque ford_johnson_sort_vector
ford_johnson_sort-eq input = merge_insertion-eq (length input) input
