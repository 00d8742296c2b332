-- ===== src/Handlers/Served/Files.antt =====
-- The files behind what resolveSafePath returns.
use mathlib.Core.Path.{subst}
use barcelona.Base.{ℕ, ◌≡◌, refl, sym, Option, none, some, inl, inr, leb, Bool-cases}
use barcelona.Base.Text.{Bytes}
use barcelona.Base.Expected.{Expected, ok, err}
use barcelona.Http.{Method, get, head, delete, post, put, bytes, file, Response}
use barcelona.Http.Status.{StatusCode, enum_integer}
use barcelona.Response.{create_stock_response, create_header_only, create_from_file}
use barcelona.SafePath.{
  Errc, FileKind, not_found, regular, directory, FileInfo, Disk, get_file_info, of_kind, sized,
}
use barcelona.SafePath.Inside.{IsInside}
use barcelona.Handlers.StaticFile.{
  handle_path, get_or_head, opened, open_error, delete_path, delete_file, removed,
}

-- What a request may lead to: an answer from memory, the content of a regular file below the
-- root, from its first byte on and as long as the file, or, for a DELETE, the removal of one.
pub data Served {S : Type 0} (disk : Disk S) (root : Bytes) (method : Method) (s : S)
    : S → Response → Type 0 where
  answered :
      {response : Response} (v : Bytes)
      → response.body ≡ bytes v
      → Served disk root method s s response
  served :
      {response : Response} (path : Bytes) (fd size : ℕ)
      → IsInside root path
      → disk.status s path ≡ ok regular
      → disk.file_size s path ≡ ok size
      → disk.open_for_reading s path ≡ ok fd
      → response.body ≡ file (record { fd = fd; size = size; offset = 0 })
      → Served disk root method s s response
  deleted :
      {response : Response} (path : Bytes)
      → method ≡ delete
      → IsInside root path
      → disk.status s path ≡ ok regular
      → Served disk root method s (disk.remove s path).0 response

stock-bytes :
    (enum_name : StatusCode → Bytes) (code : StatusCode)
    → (v : Bytes) × ((create_stock_response enum_name code).body ≡ bytes v)
unfolding create_stock_response
stock-bytes enum_name code = elim (Bool-cases (leb 400 (enum_integer code))) [
  | inl e ↦ rw (e, create_stock_response) (_, refl)
  | inr e ↦ rw (e, create_stock_response) (_, refl)
]

header_only-bytes :
    (enum_name : StatusCode → Bytes) (path : Bytes) (n : ℕ)
    → (v : Bytes) × ((create_header_only enum_name path n).body ≡ bytes v)
unfolding create_header_only
header_only-bytes enum_name path n = stock-bytes enum_name StatusCode.ok

module _ (enum_name : StatusCode → Bytes) {S : Type 0} (disk : Disk S) (root : Bytes) (s : S) where
  pub stock-Served :
      (method : Method) (code : StatusCode)
      → Served disk root method s s (create_stock_response enum_name code)
  stock-Served method code = let (v, e) = stock-bytes enum_name code in answered v e

  -- What getFileInfo accepts is a regular file at the path that it is given, with its size.
  abbrev IsAbout : Bytes → Expected FileInfo Errc → Type 0
  IsAbout path (err e) = Unit
  IsAbout path (ok info) =
      (info.full_path ≡ path)
      × (disk.status s path ≡ ok regular)
      × (disk.file_size s path ≡ ok info.size)

  pub get_file_info-IsAbout : (path : Bytes) → IsAbout path (get_file_info disk s path)
  unfolding get_file_info sized of_kind
  get_file_info-IsAbout path = about (disk.status s path) refl
    where
      sizes :
          (x : Expected ℕ Errc)
          → disk.status s path ≡ ok regular
          → disk.file_size s path ≡ x
          → IsAbout path (sized disk s path x)
      sizes (err e) h k = tt
      sizes (ok n) h k = (refl, h, k)

      about :
          (x : Expected FileKind Errc)
          → disk.status s path ≡ x
          → IsAbout path (of_kind disk s path x)
      about (err e) h = tt
      about (ok not_found) h = tt
      about (ok directory) h = tt
      about (ok regular) h = sizes (disk.file_size s path) h refl

  opened-Served :
      (method : Method) (info : FileInfo) (x : Expected ℕ Errc)
      → IsInside root info.full_path
      → disk.status s info.full_path ≡ ok regular
      → disk.file_size s info.full_path ≡ ok info.size
      → disk.open_for_reading s info.full_path ≡ x
      → Served disk root method s s (opened enum_name disk info x)
  unfolding opened create_from_file
  opened-Served method info (err e) i r n h = stock-Served method (open_error enum_name disk e)
  opened-Served method info (ok fd) i r n h = served info.full_path fd info.size i r n h refl

  content :
      (method : Method) (path : Bytes) (info : FileInfo)
      → IsInside root path
      → info.full_path ≡ path
      → disk.status s path ≡ ok regular
      → disk.file_size s path ≡ ok info.size
      → Served disk root method s s
          (opened enum_name disk info (disk.open_for_reading s info.full_path))
  content method path info i f r n =
      opened-Served method info _ (subst (IsInside root) (sym f) i)
        (subst (λ p. disk.status s p ≡ ok regular) (sym f) r)
        (subst (λ p. disk.file_size s p ≡ ok info.size) (sym f) n) refl

  get_or_head-Served :
      (method : Method) (path : Bytes) (x : Expected FileInfo Errc)
      → IsInside root path
      → IsAbout path x
      → Served disk root method s s (get_or_head enum_name disk s method x)
  unfolding get_or_head
  get_or_head-Served method path (err e) i a = stock-Served method _
  get_or_head-Served head path (ok info) i a =
      let (v, e) = header_only-bytes enum_name info.full_path info.size in answered v e
  get_or_head-Served get path (ok info) i (f, r, n) = content get path info i f r n
  get_or_head-Served delete path (ok info) i (f, r, n) = content delete path info i f r n
  get_or_head-Served post path (ok info) i (f, r, n) = content post path info i f r n
  get_or_head-Served put path (ok info) i (f, r, n) = content put path info i f r n

  removed-Served :
      (x : S × Option Errc)
      → ((response : Response) → Served disk root delete s x.0 response)
      → Served disk root delete s (removed enum_name disk x).0 (removed enum_name disk x).1
  unfolding removed
  removed-Served (t, none) f = f _
  removed-Served (t, some e) f = f _

  delete_file-Served :
      (path : Bytes) (x : Expected FileInfo Errc)
      → IsInside root path
      → IsAbout path x
      → Served disk root delete s
          (delete_file enum_name disk s x).0
          (delete_file enum_name disk s x).1
  unfolding delete_file
  delete_file-Served path (err e) i a = stock-Served delete _
  delete_file-Served path (ok info) i (f, r, n) =
      removed-Served (disk.remove s info.full_path) (λ response.
        deleted info.full_path refl (subst (IsInside root) (sym f) i)
          (subst (λ p. disk.status s p ≡ ok regular) (sym f) r))

  pub handle_path-Served :
      (method : Method) (x : Expected Bytes Errc)
      → ((path : Bytes) → x ≡ ok path → IsInside root path)
      → Served disk root method s s (handle_path enum_name disk s method x)
  unfolding handle_path
  handle_path-Served method (err e) i = stock-Served method _
  handle_path-Served method (ok path) i =
      get_or_head-Served method path _ (i path refl) (get_file_info-IsAbout path)

  pub delete_path-Served :
      (x : Expected Bytes Errc)
      → ((path : Bytes) → x ≡ ok path → IsInside root path)
      → Served disk root delete s
          (delete_path enum_name disk s x).0
          (delete_path enum_name disk s x).1
  unfolding delete_path
  delete_path-Served (err e) i = stock-Served delete _
  delete_path-Served (ok path) i =
      delete_file-Served path _ (i path refl) (get_file_info-IsAbout path)
