-- ===== src/SafePath/Inside.antt =====
-- Where resolveSafePath leads.
use mathlib.Core.Path.{subst}
use barcelona.Base.{
  ℕ, ◌≡◌, refl, sym, ap, Bool, true, false, Option, none, some, inl, inr, [], ◌∷◌, ◌++◌, Bool-cases,
}
use barcelona.Base.Text.{Bytes, codes, starts_with, find}
use barcelona.Base.Expected.{ok}
use barcelona.Uri.{lexically_normal}
use barcelona.Uri.Clean.{IsClean, lexically_normal-IsClean, first_slash}
use barcelona.SafePath.{
  append_path, ends_slash, elements, begins, relative, check_inside, resolve_safe_path,
}

-- A path without dot segments whose elements begin with those of the document root.
pub record IsInside (doc_root path : Bytes) : Type 0 where
  pub clean : IsClean path
  pub below : begins (elements doc_root) (elements path) ≡ some true

-- The path of an absolute root and anything is absolute.
append_path-rooted : (r q : Bytes) → (t : Bytes) × (append_path (b'/' ∷ r) q ≡ b'/' ∷ t)
unfolding append_path
append_path-rooted r [] = elim (Bool-cases (ends_slash (b'/' ∷ r))) [
  | inl e ↦ (r ++ [], unfold starts_with in (rw e refl))
  | inr e ↦ (r ++ (b'/' ∷ []), unfold starts_with in (rw e refl))
]
append_path-rooted r (c ∷ q) = elim (Bool-cases (starts_with (c ∷ q) (codes "/"))) [
  | inl e ↦ (q, rw e (ap (λ x. x ∷ q) (first_slash c q e)))
  | inr e ↦ elim (Bool-cases (ends_slash (b'/' ∷ r))) [
    | inl f ↦ (r ++ (c ∷ q), rw (e, f) refl)
    | inr f ↦ (r ++ (b'/' ∷ c ∷ q), rw (e, f) refl)
  ]
]

check_inside_lem :
    (doc_root full path : Bytes) (o : Option Bool)
    → begins (elements doc_root) (elements full) ≡ o
    → IsClean full
    → check_inside full o ≡ some (ok path)
    → IsInside doc_root path
unfolding check_inside
check_inside_lem doc_root full path none b c e = cc
check_inside_lem doc_root full path (some false) b c e = cc
check_inside_lem doc_root full path (some true) b c e =
    let f : full ≡ path = cc in subst (IsInside doc_root) f (record { clean = c; below = b })

resolved_lem :
    (r raw_uri index_file path : Bytes) (o : Option ℕ)
    → find (relative raw_uri index_file) (codes "..") ≡ o
    → resolve_safe_path (b'/' ∷ r) raw_uri index_file ≡ some (ok path)
    → IsInside (b'/' ∷ r) path
unfolding resolve_safe_path
resolved_lem r raw_uri index_file path (some n) f e = let g = rw (f, resolve_safe_path) at e in cc
resolved_lem r raw_uri index_file path none f e =
    let (t, h) = append_path-rooted r (relative raw_uri index_file) in
    check_inside_lem (b'/' ∷ r)
      (lexically_normal (append_path (b'/' ∷ r) (relative raw_uri index_file))) path _ refl
      (subst (λ z. IsClean (lexically_normal z)) (sym h) (lexically_normal-IsClean t))
      (rw (f, resolve_safe_path) at e)

-- Below an absolute document root, whatever path resolveSafePath returns has no dot segment, and
-- its elements begin with all of those of the root.
pub resolve_safe_path-IsInside :
    (r raw_uri index_file path : Bytes)
    → resolve_safe_path (b'/' ∷ r) raw_uri index_file ≡ some (ok path)
    → IsInside (b'/' ∷ r) path
resolve_safe_path-IsInside r raw_uri index_file path e =
    resolved_lem r raw_uri index_file path _ refl e
