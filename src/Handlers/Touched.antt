-- ===== src/Handlers/Touched.antt =====
-- What the handlers change on the disk.
use barcelona.Base.{
  ◌≡◌, ◌≢◌, refl, Bool, true, false, none, ◌⊎◌, inl, inr, [], ◌∷◌, ◌==◌, Bool-cases, Option-cases,
  arith,
}
use barcelona.Base.Text.{Bytes, codes, equal_iff, find}
use barcelona.Http.{Request}
use barcelona.Http.Status.{StatusCode}
use barcelona.Mime.{filename, has_slash}
use barcelona.Uri.Clean.{NoSlash}
use barcelona.SafePath.{Disk, append_path}
use barcelona.Handlers.Upload.{is_refused, is_upload, upload, store, created, written}

-- A series of calls that change only the file at `path`.
pub data Touches {S : Type 0} (disk : Disk S) (path : Bytes) (s : S) : S → Type 0 where
  untouched : Touches disk path s s
  by_create : {t : S} → Touches disk path s t → Touches disk path s (disk.create t path).0
  by_write :
      {t : S} (body : Bytes)
      → Touches disk path s t
      → Touches disk path s (disk.write t path body).0
  by_remove : {t : S} → Touches disk path s t → Touches disk path s (disk.remove t path).0

has_slash-NoSlash : (s : Bytes) → has_slash s ≡ false → NoSlash s
unfolding has_slash
has_slash-NoSlash [] e = tt
has_slash-NoSlash (c ∷ s) e = (ground arith, has_slash-NoSlash s (ground arith))

filename-NoSlash : (s : Bytes) → NoSlash (filename s)
unfolding filename
filename-NoSlash [] = tt
filename-NoSlash (c ∷ s) = elim (Bool-cases (c == b'/')) [
  | inl e ↦ rw (e, filename) (filename-NoSlash s)
  | inr e ↦ elim (Bool-cases (has_slash s)) [
    | inl f ↦ rw (e, f, filename) (filename-NoSlash s)
    | inr f ↦ rw (e, f, filename) (ground arith, has_slash-NoSlash s f)
  ]
]

-- A name of one file: not empty, without a slash and without two dots in a row.
abbrev pub IsFileName : Bytes → Type 0
IsFileName name = NoSlash name × (name ≢ []) × (find name (codes "..") ≡ none)

module _ (enum_name : StatusCode → Bytes) {S : Type 0} (disk : Disk S) where
  store-Touches :
      (destination : Bytes) (s : S) (request : Request)
      → Touches disk destination s (store enum_name disk destination s request).0
  unfolding store
  store-Touches destination s request =
      after_create (disk.create s destination) (by_create untouched)
    where
      after_write :
          (x : S × Bool)
          → Touches disk destination s x.0
          → Touches disk destination s (written enum_name disk destination x).0
      after_write (t, true) h = unfold written in h
      after_write (t, false) h = unfold written in (by_remove h)

      after_create :
          (x : S × Bool)
          → Touches disk destination s x.0
          → Touches disk destination s (created enum_name disk destination request.body x).0
      after_create (t, false) h = unfold created in h
      after_create (t, true) h =
          unfold created in
          (after_write (disk.write t destination request.body) (by_write request.body h))

  kept_name : (name : Bytes) → NoSlash name → is_refused name ≡ false → IsFileName name
  unfolding is_refused
  kept_name name h e = elim (Option-cases (find name (codes ".."))) [
    | inl f ↦ (h, ground (arith, equal_iff name []), f)
    | inr (n, f) ↦ let g = rw (f, is_refused) at e in cc
  ]

  -- UploadHandler changes nothing on the disk but, by a POST or a PUT, the file that the last part
  -- of the URI names directly below its root; the name is not empty and has no slash and no two
  -- dots in a row.
  pub upload-Touches :
      (upload_root : Bytes) (s : S) (request : Request)
      → let t = (upload enum_name disk upload_root s request).0 in
        (t ≡ s)
        ⊎ ((is_upload request.method ≡ true)
            × IsFileName (filename request.uri)
            × Touches disk (append_path upload_root (filename request.uri)) s t)
  unfolding upload
  upload-Touches upload_root s request = elim (Bool-cases (is_upload request.method)) [
    | inr e ↦ inl (rw (e, upload) refl)
    | inl e ↦ elim (Bool-cases (is_refused (filename request.uri))) [
      | inl f ↦ inl (rw (e, f, upload) refl)
      | inr f ↦ inr (
        e,
        kept_name (filename request.uri) (filename-NoSlash request.uri) f,
        rw (e, f, upload)
            (store-Touches (append_path upload_root (filename request.uri)) s request),
      )
    ]
  ]
