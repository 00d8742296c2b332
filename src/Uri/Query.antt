-- ===== src/Uri/Query.antt =====
-- The query of a URI.
use barcelona.Base.{
  ℕ, ◌≡◌, refl, ap, true, ◌&&◌, ◌||◌, [], ◌∷◌, ◌++◌, ◌==◌, if◌then◌else◌, Bool-cases, inl, inr,
}
use barcelona.Base.Text.{Bytes, starts_with}
use barcelona.Base.Expected.{err}
use barcelona.Uri.{invalid_argument, strip_query, url_decode, normalize_decoded, normalize_uri_path}

strip_query-append : (p q : Bytes) → strip_query (p ++ (b'?' ∷ q)) ≡ strip_query p
unfolding strip_query
strip_query-append [] q = refl
strip_query-append (c ∷ p) q = elim (Bool-cases (c == b'?' || c == b'#')) [
  | inl e ↦ rw e refl
  | inr e ↦ rw e (ap (λ s. c ∷ s) (strip_query-append p q))
]

-- A question mark and what follows it change nothing of what normalizeUriPath gives for a path that
-- is not empty: it is the path that is returned, or the same error.
pub normalize_uri_path_query :
    (c : ℕ) (p q : Bytes) → normalize_uri_path ((c ∷ p) ++ (b'?' ∷ q)) ≡ normalize_uri_path (c ∷ p)
unfolding normalize_uri_path starts_with
normalize_uri_path_query c p q =
    ap (λ s. if c == b'/' && true then normalize_decoded (url_decode s) else err invalid_argument)
      (strip_query-append (c ∷ p) q)
