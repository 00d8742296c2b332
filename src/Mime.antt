-- ===== src/Mime.antt =====
-- getMimeType of lib/utils/src/FileUtils.cc. Paths are those of POSIX.
mod Tests
use barcelona.Base.{
  ℕ, Bool, true, false, ◌||◌, Option, none, some, List, [], ◌∷◌, ◌==◌, if◌then◌else◌,
}
use barcelona.Base.Text.{Bytes, codes, equal}
use barcelona.Base.Dict.{Dict, lookup}

unfoldable pub has_slash : Bytes → Bool
has_slash [] = false
has_slash (c ∷ s) = c == b'/' || has_slash s

-- What stands behind the last slash: `path.filename()`.
unfoldable pub filename : Bytes → Bytes
unfolding has_slash
filename [] = []
filename (c ∷ s) =
    let rest = filename s in if c == b'/' then rest else if has_slash s then rest else c ∷ s

-- The last dot and what follows it, if there is a dot.
unfoldable pub last_dot : Bytes → Option Bytes
last_dot [] = none
last_dot (c ∷ s) = elim (last_dot s) [
  | some e ↦ some e
  | none ↦ if c == b'.' then some (c ∷ s) else none
]

-- `path.extension()`: a dot in front of a file name begins no extension, and `..` has none.
unfoldable pub extension : Bytes → Bytes
unfolding filename last_dot
extension path = elim (filename path) [
  | [] ↦ []
  | c ∷ s ↦ if equal (c ∷ s) (codes "..") then [] else elim (last_dot s) [ none ↦ [] | some e ↦ e ]
]

abbrev mime_types : Dict
mime_types =
    (codes ".css", codes "text/css")
    ∷ (codes ".gif", codes "image/gif")
    ∷ (codes ".htm", codes "text/html; charset=utf-8")
    ∷ (codes ".html", codes "text/html; charset=utf-8")
    ∷ (codes ".jpeg", codes "image/jpeg")
    ∷ (codes ".jpg", codes "image/jpeg")
    ∷ (codes ".js", codes "application/javascript")
    ∷ (codes ".json", codes "application/json")
    ∷ (codes ".pdf", codes "application/pdf")
    ∷ (codes ".png", codes "image/png")
    ∷ (codes ".svg", codes "image/svg+xml")
    ∷ (codes ".txt", codes "text/plain")
    ∷ (codes ".xml", codes "application/xml")
    ∷ []

-- `getMimeType`
unfoldable pub get_mime_type : Bytes → Bytes
unfolding extension
get_mime_type path = elim (lookup (extension path) mime_types) [
  | none ↦ codes "application/octet-stream"
  | some mime ↦ mime
]
