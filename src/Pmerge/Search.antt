-- ===== src/Pmerge/Search.antt =====
-- The binary search, and the insertion of the smaller values.
use barcelona.Base.{
  ℕ, zero, suc, ◌+◌, ◌-◌, ◌/◌, ◌≤◌, ◌<◌, ◌≡◌, refl, inl, inr, List, [], ◌∷◌, arith, ltb, length,
  Bool-cases,
}
use barcelona.Pmerge.{get_or, insert_at, search_position, insert_smaller}
use barcelona.Pmerge.Order.{AtLeast, IsSorted, occurrences, IsSorted-mono}

-- `p` splits the list into values below `val` and values that are not.
pub record Splits (output : List ℕ) (val p : ℕ) : Type 0 where
  pub inside : p ≤ length output
  pub below : (i : ℕ) → i < p → get_or output i 0 < val
  pub above : (i : ℕ) → p ≤ i → i < length output → val ≤ get_or output i 0

module _ (output : List ℕ) (val : ℕ) (sorted : IsSorted output) where
  record Range (left right : ℕ) : Type 0 where
    ordered : left ≤ right
    inside : right ≤ length output
    below : (i : ℕ) → i < left → get_or output i 0 < val
    above : (i : ℕ) → right ≤ i → i < length output → val ≤ get_or output i 0

  upper-Range :
      (left right : ℕ)
      → Range left right
      → left < right
      → get_or output ((left + right) / 2) 0 < val
      → Range ((left + right) / 2 + 1) right
  upper-Range left right r h c = record {
    ordered = omega (arith, r.ordered);
    inside = r.inside;
    below = λ i k.
        let m =
          IsSorted-mono output i ((left + right) / 2) sorted (omega arith)
            (omega (arith, r.inside)) in
        omega arith;
    above = r.above;
  }

  lower-Range :
      (left right : ℕ)
      → Range left right
      → left < right
      → val ≤ get_or output ((left + right) / 2) 0
      → Range left ((left + right) / 2)
  lower-Range left right r h c = record {
    ordered = omega arith;
    inside = omega (arith, r.inside);
    below = r.below;
    above = λ i k l. let m = IsSorted-mono output ((left + right) / 2) i sorted k l in omega arith;
  }

  search_position-Splits :
      (f left right : ℕ)
      → right - left ≤ f
      → Range left right
      → Splits output val (search_position f output val left right)
  unfolding search_position
  search_position-Splits zero left right h r =
      let e : left ≡ right = omega (arith, r.ordered) in
      record {
        inside = omega (arith, r.inside, r.ordered);
        below = r.below;
        above = λ i k. r.above i (omega arith);
      }
  search_position-Splits (suc f) left right h r = elim (Bool-cases (ltb left right)) [
    | inr e ↦ rw e (record {
      inside = omega (arith, r.inside, r.ordered);
      below = r.below;
      above = λ i k. r.above i (ground arith);
    })
    | inl e ↦
        let some : left < right = ground arith in
        elim (Bool-cases (ltb (get_or output ((left + right) / 2) 0) val)) [
          | inl c ↦
              rw (e, c)
                (search_position-Splits f ((left + right) / 2 + 1) right (omega arith)
                  (upper-Range left right r some (ground arith)))
          | inr c ↦
              rw (e, c)
                (search_position-Splits f left ((left + right) / 2) (omega arith)
                  (lower-Range left right r some (ground arith)))
        ]
  ]

  pub search_lem : Splits output val (search_position (length output) output val 0 (length output))
  search_lem = search_position-Splits (length output) 0 (length output) (omega arith) (record {
    ordered = omega arith;
    inside = omega arith;
    below = λ i h. absurd (omega arith);
    above = λ i h k. absurd (omega arith);
  })

AtLeast-of_get_or :
    (val : ℕ) (ys : List ℕ) → ((i : ℕ) → i < length ys → val ≤ get_or ys i 0) → AtLeast val ys
AtLeast-of_get_or val [] h = tt
AtLeast-of_get_or val (y ∷ ys) h =
    (h 0 (omega arith), AtLeast-of_get_or val ys (λ i k. h (suc i) (omega arith)))

AtLeast-insert_at :
    (x val p : ℕ) (ys : List ℕ) → x ≤ val → AtLeast x ys → AtLeast x (insert_at ys p val)
unfolding insert_at
AtLeast-insert_at x val zero ys h m = (h, m)
AtLeast-insert_at x val (suc p) [] h m = (h, tt)
AtLeast-insert_at x val (suc p) (y ∷ ys) h m = (m.0, AtLeast-insert_at x val p ys h m.1)

insert_at-IsSorted :
    (output : List ℕ) (val p : ℕ)
    → IsSorted output
    → Splits output val p
    → IsSorted (insert_at output p val)
unfolding insert_at
insert_at-IsSorted output val zero s h =
    (AtLeast-of_get_or val output (λ i k. h.above i (omega arith) k), s)
insert_at-IsSorted [] val (suc p) s h = (tt, tt)
insert_at-IsSorted (x ∷ xs) val (suc p) s h =
    let first = h.below 0 (omega arith) in
    (
      AtLeast-insert_at x val p xs (omega arith) s.0,
      insert_at-IsSorted xs val p s.1 (record {
        inside = omega (arith, h.inside);
        below = λ i k. h.below (suc i) (omega arith);
        above = λ i k l. h.above (suc i) (omega arith) (omega arith);
      }),
    )

occurrences-insert_at :
    (a : ℕ) (output : List ℕ) (p val : ℕ)
    → occurrences a (insert_at output p val) ≡ occurrences a (val ∷ output)
unfolding insert_at
occurrences-insert_at a output zero val = refl
occurrences-insert_at a [] (suc p) val = refl
occurrences-insert_at a (x ∷ xs) (suc p) val = omega (arith, occurrences-insert_at a xs p val)

-- The smaller values, each put in its place.
pub insert_smaller_lem :
    (smaller output : List ℕ)
    → IsSorted output
    → IsSorted (insert_smaller smaller output)
      × ((a : ℕ)
          → occurrences a (insert_smaller smaller output)
            ≡ occurrences a smaller + occurrences a output)
unfolding insert_smaller
insert_smaller_lem [] output s = (s, λ a. omega arith)
insert_smaller_lem (val ∷ smaller) output s =
    let p = search_position (length output) output val 0 (length output) in
    let (u, c) =
      insert_smaller_lem smaller (insert_at output p val)
        (insert_at-IsSorted output val p s (search_lem output val s)) in
    (u, λ a. omega (arith, c a, occurrences-insert_at a output p val))
