-- ===== src/Uri/Clean.antt =====
-- What `normalizeUriPath` lets through.
use mathlib.Core.List.{reverse-cons}
use mathlib.Core.Path.{subst}
use barcelona.Base.{
  ℕ, zero, suc, ◌+◌, ◌≡◌, ◌≢◌, refl, sym, ap, Bool, true, false, ◌&&◌, Option, none, some, inl, inr,
  List, [], ◌∷◌, ◌++◌, ◌==◌, if◌then◌else◌, length, reverse, take, drop, arith, Bool-cases,
  Option-cases,
}
use barcelona.Base.Text.{Bytes, codes, equal, equal_iff, starts_with, find}
use barcelona.Base.Text.Find.{find-bound, find-starts_with}
use barcelona.Base.Expected.{Expected, ok, err}
use barcelona.Uri.{
  url_decode, strip_query, collapse_loop, collapse_slashes, erase_at, push_piece, pieces, parent,
  is_dot, walk, ends_open, keeps_slash, join, lexically_normal, UriError, invalid_argument,
  illegal_byte_sequence, permission_denied, check_root, normalize_decoded, normalize_uri_path,
  push_byte, plain_byte,
}

abbrev pub All : {A : Type 0} → (A → Type 0) → List A → Type 0
All P [] = Unit
All P (x ∷ xs) = P x × All P xs

abbrev pub NoSlash : Bytes → Type 0
NoSlash = All (λ c. c ≢ b'/')

-- A name between two slashes: not empty, no dot segment, with no slash inside.
pub record IsSegment (p : Bytes) : Type 0 where
  pub no_slash : NoSlash p
  pub ne_nil : p ≢ []
  pub ne_dot : p ≢ codes "."
  pub ne_dots : p ≢ codes ".."

-- A slash, then segments with one slash between each two, then a slash or none.
pub record IsClean (s : Bytes) : Type 0 where
  pub segments : List Bytes
  pub open_end : Bool
  pub form : s ≡ b'/' ∷ join segments open_end
  pub are_segments : All IsSegment segments

abbrev pub Clean : Expected Bytes UriError → Type 0
Clean (ok s) = IsClean s
Clean (err invalid_argument) = Unit
Clean (err illegal_byte_sequence) = Unit
Clean (err permission_denied) = ⊥

push_piece-NoSlash :
    (c : ℕ) (ps : List Bytes) → c ≢ b'/' → All NoSlash ps → All NoSlash (push_piece c ps)
unfolding push_piece
push_piece-NoSlash c [] h a = ((h, tt), tt)
push_piece-NoSlash c (p ∷ ps) h a = ((h, a.0), a.1)

pieces-NoSlash : (s : Bytes) → All NoSlash (pieces s)
unfolding pieces
pieces-NoSlash [] = (tt, tt)
pieces-NoSlash (c ∷ s) = elim (Bool-cases (c == b'/')) [
  | inl e ↦ rw (e, pieces) (tt, pieces-NoSlash s)
  | inr e ↦ rw (e, pieces) (push_piece-NoSlash c (pieces s) (ground arith) (pieces-NoSlash s))
]

equal_ne : (a b : Bytes) → equal a b ≡ false → a ≢ b
equal_ne a b h e = ground (arith, equal_iff a b)

step_kept : Bytes → List Bytes → List Bytes
step_kept p kept =
    if is_dot p then kept else if equal p (codes "..") then parent true kept else p ∷ kept

parent-IsSegment : (kept : List Bytes) → All IsSegment kept → All IsSegment (parent true kept)
unfolding parent
parent-IsSegment [] a = tt
parent-IsSegment (top ∷ kept) a = elim (Bool-cases (equal top (codes ".."))) [
  | inl e ↦ absurd (a.0.ne_dots ((equal_iff top (codes "..")).0 e))
  | inr e ↦ rw (e, parent) a.1
]

step_kept-IsSegment :
    (p : Bytes) (kept : List Bytes)
    → NoSlash p
    → All IsSegment kept
    → All IsSegment (step_kept p kept)
unfolding step_kept
step_kept-IsSegment p kept n a = elim (Bool-cases (is_dot p)) [
  | inl e ↦ rw (e, step_kept) a
  | inr e ↦ elim (Bool-cases (equal p (codes ".."))) [
    | inl f ↦ rw (e, f, step_kept) (parent-IsSegment kept a)
    | inr f ↦
        rw (e, f, step_kept)
          (
            record {
              no_slash = n;
              ne_nil = equal_ne p [] (ground arith);
              ne_dot = equal_ne p (codes ".") (ground arith);
              ne_dots = equal_ne p (codes "..") f;
            },
            a,
          )
  ]
]

walk-IsSegment :
    (ps kept : List Bytes) → All NoSlash ps → All IsSegment kept → All IsSegment (walk true kept ps)
unfolding walk step_kept
walk-IsSegment [] kept n a = a
walk-IsSegment (p ∷ ps) kept n a = walk-IsSegment ps _ n.1 (step_kept-IsSegment p kept n.0 a)

All-concat :
    (xs : List Bytes) (x : Bytes) → All IsSegment xs → IsSegment x → All IsSegment (xs ++ x ∷ [])
All-concat [] x a h = (h, tt)
All-concat (y ∷ xs) x a h = (a.0, All-concat xs x a.1 h)

All-reverse : (xs : List Bytes) → All IsSegment xs → All IsSegment (reverse xs)
All-reverse [] a = tt
All-reverse (x ∷ xs) a = rw (reverse-cons x xs) (All-concat (reverse xs) x (All-reverse xs a.1) a.0)

-- Of a pair of slashes in front one stays.
erase_at-head :
    (s : Bytes) (n : ℕ)
    → find (b'/' ∷ s) (codes "//") ≡ some n
    → (r : Bytes) × (erase_at n (b'/' ∷ s) ≡ b'/' ∷ r)
erase_at-head [] zero e = absurd (omega (arith, find-bound (b'/' ∷ []) (codes "//") 0 e))
erase_at-head (c ∷ s) zero e =
    let h : starts_with (b'/' ∷ c ∷ s) (codes "//") ≡ true = find-starts_with _ (codes "//") 0 e in
    (s, ap (λ x. x ∷ s) (second_slash c s h))
  where
    second_slash : (c : ℕ) (s : Bytes) → starts_with (b'/' ∷ c ∷ s) (codes "//") ≡ true → c ≡ b'/'
    second_slash c s h = unfold starts_with in ground arith
erase_at-head s (suc n) e = (take n s ++ drop (suc n + 1) (b'/' ∷ s), refl)

collapse_loop-head : (f : ℕ) (s : Bytes) → (r : Bytes) × (collapse_loop f (b'/' ∷ s) ≡ b'/' ∷ r)
unfolding collapse_loop
collapse_loop-head zero s = (s, refl)
collapse_loop-head (suc f) s = elim (Option-cases (find (b'/' ∷ s) (codes "//"))) [
  | inl e ↦ (s, rw (e, collapse_loop))
  | inr (n, e) ↦
      let (r, h) = erase_at-head s n e in
      let (t, k) = collapse_loop-head f r in (t, rw (e, collapse_loop) (rw h k))
]

push_byte-head :
    (c : ℕ) (o : Option Bytes) (path : Bytes)
    → push_byte c o ≡ some path
    → (r : Bytes) × (path ≡ c ∷ r)
unfolding push_byte
push_byte-head c none path e = cc
push_byte-head c (some r) path e = (r, cc)

url_decode-head :
    (s path : Bytes) → url_decode (b'/' ∷ s) ≡ some path → (r : Bytes) × (path ≡ b'/' ∷ r)
unfolding url_decode
url_decode-head [] path e = ([], cc)
url_decode-head (c ∷ []) path e = (plain_byte c ∷ [], cc)
url_decode-head (c ∷ d ∷ s) path e = push_byte-head b'/' (url_decode (c ∷ d ∷ s)) path e

pub lexically_normal-IsClean : (s : Bytes) → IsClean (lexically_normal (b'/' ∷ s))
unfolding lexically_normal
lexically_normal-IsClean s = record {
  segments = reverse (walk true [] (pieces (b'/' ∷ s)));
  open_end = ends_open (pieces (b'/' ∷ s)) && keeps_slash (walk true [] (pieces (b'/' ∷ s)));
  form = refl;
  are_segments =
      All-reverse _ (walk-IsSegment (pieces (b'/' ∷ s)) [] (pieces-NoSlash (b'/' ∷ s)) tt);
}

check_root-Clean : (s : Bytes) → IsClean s → Clean (check_root s)
unfolding check_root equal starts_with
check_root-Clean [] c = absurd (no_nil c.form)
  where
    no_nil : {r : Bytes} → ◌≡◌ {A = Bytes} [] (b'/' ∷ r) → ⊥
    no_nil e = cc
check_root-Clean (x ∷ s) c =
    subst (λ y. IsClean (y ∷ s) → Clean (check_root (y ∷ s))) (sym (first c.form)) (λ d. d) c
  where
    first : {r : Bytes} → ◌≡◌ {A = Bytes} (x ∷ s) (b'/' ∷ r) → x ≡ b'/'
    first e = cc

rooted-Clean : (r : Bytes) → Clean (normalize_decoded (some (b'/' ∷ r)))
unfolding normalize_decoded collapse_slashes
rooted-Clean r =
    let (t, k) = collapse_loop-head (length (b'/' ∷ r)) r in
    subst (λ z. Clean (check_root (lexically_normal z))) (sym k)
      (check_root-Clean _ (lexically_normal-IsClean t))

normalize_decoded-Clean :
    (raw : Bytes) (o : Option Bytes) → url_decode (b'/' ∷ raw) ≡ o → Clean (normalize_decoded o)
normalize_decoded-Clean raw none e = unfold normalize_decoded in tt
normalize_decoded-Clean raw (some path) e =
    let (r, h) = url_decode-head raw path e in
    subst (λ z. Clean (normalize_decoded (some z))) (sym h) (rooted-Clean r)

pub first_slash : (c : ℕ) (s : Bytes) → starts_with (c ∷ s) (codes "/") ≡ true → c ≡ b'/'
unfolding starts_with
first_slash c s h = ground arith

-- Whatever `normalizeUriPath` accepts is a slash and then segments that are not empty, are no `.` or
-- `..` and hold no slash, with one slash between each two; and its last check refuses nothing.
pub normalize_uri_path-Clean : (raw_uri : Bytes) → Clean (normalize_uri_path raw_uri)
unfolding normalize_uri_path
normalize_uri_path-Clean [] = unfold starts_with in tt
normalize_uri_path-Clean (c ∷ raw) = elim (Bool-cases (starts_with (c ∷ raw) (codes "/"))) [
  | inr e ↦ rw (e, normalize_uri_path) tt
  | inl e ↦
      rw (e, normalize_uri_path)
        (subst (λ x. Clean (normalize_decoded (url_decode (strip_query (x ∷ raw)))))
          (sym (first_slash c raw e)) (normalize_decoded-Clean (strip_query raw) _ refl))
]
