-- ===== src/SafePath.antt =====
-- resolveSafePath and getFileInfo of lib/utils/src/FileUtils.cc. Paths are those of POSIX; what the
-- file system answers is an interface.
pub mod Inside
mod Tests
use barcelona.Base.{
  ℕ, Bool, true, false, not, ◌&&◌, ◌||◌, Option, none, some, List, [], ◌∷◌, ◌++◌, ◌==◌,
  if◌then◌else◌, drop,
}
use barcelona.Base.Text.{Bytes, codes, equal, starts_with, find}
use barcelona.Base.Expected.{Expected, ok, err}
use barcelona.Uri.{pieces, lexically_normal}

-- The error codes that the callers tell apart.
pub data Errc : Type 0 where
  no_such_file_or_directory permission_denied : Errc
  other : ℕ → Errc

unfoldable pub ends_slash : Bytes → Bool
ends_slash [] = false
ends_slash (c ∷ []) = c == b'/'
ends_slash (c ∷ d ∷ s) = ends_slash (d ∷ s)

-- `p / q`
unfoldable pub append_path : Bytes → Bytes → Bytes
unfolding ends_slash
append_path [] q = q
append_path (c ∷ p) q =
    if starts_with q (codes "/")
    then q
    else if ends_slash (c ∷ p)
    then c ∷ p ++ q
    else c ∷ p ++ (b'/' ∷ q)

unfoldable pub names : List Bytes → List Bytes
names [] = []
names ([] ∷ ps) = names ps
names ((c ∷ p) ∷ ps) = (c ∷ p) ∷ names ps

-- A path that ends in a slash has an empty last element.
unfoldable pub trailing : List Bytes → List Bytes
trailing [] = []
trailing ([] ∷ []) = [] ∷ []
trailing ((c ∷ p) ∷ []) = []
trailing (p ∷ q ∷ ps) = trailing (q ∷ ps)

unfoldable pub closing : List Bytes → List Bytes → List Bytes
unfolding trailing
closing ps [] = []
closing ps (n ∷ ns) = trailing ps

-- The elements from `begin()` to `end()`.
unfoldable pub elements : Bytes → List Bytes
unfolding names closing
elements [] = []
elements (c ∷ s) =
    let ps = pieces (c ∷ s) in
    let ns = names ps in (if c == b'/' then codes "/" ∷ [] else []) ++ (ns ++ closing ps ns)

-- `std::mismatch` with the first range's end; `none` reads past the end of the second.
unfoldable pub begins : List Bytes → List Bytes → Option Bool
begins [] fs = some true
begins (r ∷ rs) [] = none
begins (r ∷ rs) (f ∷ fs) = let rest = begins rs fs in if equal r f then rest else some false

-- What is below the document root.
unfoldable pub relative : Bytes → Bytes → Bytes
relative raw_uri index_file =
    if equal raw_uri (codes "/") || equal raw_uri []
    then index_file
    else if starts_with raw_uri (codes "/")
    then drop 1 raw_uri
    else raw_uri

unfoldable pub check_inside : Bytes → Option Bool → Option (Expected Bytes Errc)
check_inside full none = none
check_inside full (some true) = some (ok full)
check_inside full (some false) = some (err permission_denied)

-- `resolveSafePath`; `none` is undefined behaviour.
unfoldable pub resolve_safe_path : Bytes → Bytes → Bytes → Option (Expected Bytes Errc)
unfolding append_path elements begins relative check_inside
resolve_safe_path doc_root raw_uri index_file =
    let rel = relative raw_uri index_file in
    let full = lexically_normal (append_path doc_root rel) in
    elim (find rel (codes "..")) [
      | some n ↦ some (err permission_denied)
      | none ↦ check_inside full (begins (elements doc_root) (elements full))
    ]

pub data FileKind : Type 0 where
  not_found regular directory : FileKind

pub record FileInfo : Type 0 where
  pub full_path : Bytes
  pub size : ℕ

-- The calls of std::filesystem, open(2) and std::ofstream, over a state `S` of the disk.
pub record Disk (S : Type 0) : Type 0 where
  pub status : S → Bytes → Expected FileKind Errc
  pub file_size : S → Bytes → Expected ℕ Errc
  pub open_for_reading : S → Bytes → Expected ℕ Errc
  pub remove : S → Bytes → S × Option Errc
  pub create : S → Bytes → S × Bool
  pub write : S → Bytes → Bytes → S × Bool

module _ {S : Type 0} (disk : Disk S) (s : S) where
  unfoldable pub sized : Bytes → Expected ℕ Errc → Expected FileInfo Errc
  sized path (err e) = err e
  sized path (ok n) = ok (record { full_path = path; size = n })

  unfoldable pub of_kind : Bytes → Expected FileKind Errc → Expected FileInfo Errc
  unfolding sized
  of_kind path (err e) = err e
  of_kind path (ok not_found) = err no_such_file_or_directory
  of_kind path (ok directory) = err permission_denied
  of_kind path (ok regular) = sized path (disk.file_size s path)

  -- `getFileInfo`; `directory` is any file that is not regular.
  unfoldable pub get_file_info : Bytes → Expected FileInfo Errc
  unfolding of_kind
  get_file_info path = of_kind path (disk.status s path)
