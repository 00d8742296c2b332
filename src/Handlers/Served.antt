-- ===== src/Handlers/Served.antt =====
-- Which files StaticFileHandler reads and removes.
pub mod Files
pub use Files.{Served}
use mathlib.Core.Path.{subst}
use barcelona.Base.{ℕ, ◌≡◌, refl, sym, ap, ◌∙◌, Option, none, some, inl, inr, ◌∷◌, leb, Bool-cases}
use barcelona.Base.Text.{Bytes, codes}
use barcelona.Base.Expected.{Expected, ok, err}
use barcelona.Http.{Method, get, head, delete, post, put, FileBody, bytes, file, Request, Response}
use barcelona.Http.Status.{StatusCode, enum_integer}
use barcelona.Response.{create_stock_response, create_header_only, create_from_file}
use barcelona.SafePath.{
  Errc, FileKind, not_found, regular, directory, FileInfo, Disk, resolve_safe_path, get_file_info,
  of_kind, sized,
}
use barcelona.SafePath.Inside.{IsInside, resolve_safe_path-IsInside}
use barcelona.Handlers.StaticFile.{
  StaticFileHandler, resolved, sub_uri, static_file, handle_method, handle_get_or_head, handle_path,
  get_or_head, opened, open_error, handle_delete, delete_path, delete_file, removed,
}
use Files.{stock-Served, handle_path-Served, delete_path-Served}

module _ (enum_name : StatusCode → Bytes) {S : Type 0} (disk : Disk S) (h : StaticFileHandler)
    (r : Bytes) (rooted : h.root_path ≡ b'/' ∷ r) where
  resolved-IsInside :
      (request : Request) (path : Bytes)
      → resolved h request ≡ some (ok path)
      → IsInside h.root_path path
  unfolding resolved
  resolved-IsInside request path e =
      subst (λ p. IsInside p path) (sym rooted)
        (resolve_safe_path-IsInside r (sub_uri h request.uri) (codes "index.html") path (
          subst
            (λ p. resolve_safe_path p (sub_uri h request.uri) (codes "index.html") ≡ some (ok path))
            rooted e))

  -- A method that goes on with what resolveSafePath returns.
  followed :
      (method : Method) (s t : S) (request : Request) (response : Response)
      (f : Expected Bytes Errc → S × Response)
      → ((x : Expected Bytes Errc)
          → ((path : Bytes) → x ≡ ok path → IsInside h.root_path path)
          → Served disk h.root_path method s (f x).0 (f x).1)
      → (o : Option (Expected Bytes Errc)) → resolved h request ≡ o
      → (elim o [ none ↦ none | some x ↦ some (f x) ]) ≡ some (t, response)
      → Served disk h.root_path method s t response
  followed method s t request response f g none q e = cc
  followed method s t request response f g (some x) q e =
      let k : f x ≡ (t, response) = cc in
      subst (λ z. Served disk h.root_path method s z.0 z.1) k
        (g x (λ path d. resolved-IsInside request path (q ∙ ap some d)))

  refused :
      (method : Method) (s t : S) (response : Response) (code : StatusCode)
      → ◌≡◌ {A = Option (S × Response)}
          (some (s, create_stock_response enum_name code))
          (some (t, response))
      → Served disk h.root_path method s t response
  refused method s t response code e =
      let k : ◌≡◌ {A = S × Response} (s, create_stock_response enum_name code) (t, response) = cc in
      subst (λ z. Served disk h.root_path method s z.0 z.1) k
        (stock-Served enum_name disk h.root_path s method code)

  handle_method-Served :
      (method : Method) (s t : S) (request : Request) (response : Response)
      → request.method ≡ method
      → handle_method enum_name disk method h s request ≡ some (t, response)
      → Served disk h.root_path method s t response
  unfolding handle_method handle_get_or_head handle_delete
  handle_method-Served get s t request response m e =
      followed get s t request response (λ x. (s, handle_path enum_name disk s request.method x))
        (λ x i.
          subst (λ n. Served disk h.root_path get s s (handle_path enum_name disk s n x)) (sym m)
            (handle_path-Served enum_name disk h.root_path s get x i))
        _ refl e
  handle_method-Served head s t request response m e =
      followed head s t request response (λ x. (s, handle_path enum_name disk s request.method x))
        (λ x i.
          subst (λ n. Served disk h.root_path head s s (handle_path enum_name disk s n x)) (sym m)
            (handle_path-Served enum_name disk h.root_path s head x i))
        _ refl e
  handle_method-Served delete s t request response m e =
      followed delete s t request response (delete_path enum_name disk s)
        (λ x i. delete_path-Served enum_name disk h.root_path s x i) _ refl e
  handle_method-Served post s t request response m e = refused post s t response _ e
  handle_method-Served put s t request response m e = refused put s t response _ e

  -- With an absolute root, StaticFileHandler answers from memory, or it opens a regular file below
  -- the root and answers with its whole content, from the first byte on and of the file's size, or, on a DELETE, it removes such a file; nothing
  -- else on the disk changes.
  pub static_file-Served :
      (s t : S) (request : Request) (response : Response)
      → static_file enum_name disk h s request ≡ some (t, response)
      → Served disk h.root_path request.method s t response
  unfolding static_file
  static_file-Served s t request response e =
      handle_method-Served request.method s t request response refl e
