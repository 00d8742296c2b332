-- ===== src/Uri.antt =====
-- lib/utils/src/FileUtils.cc: URL decoding and the normal form of a request path.
-- A char is a byte, a number below 256. Paths are those of POSIX.
pub mod Clean
pub mod Query
mod Tests
use barcelona.Base.{
  ℕ, zero, suc, ◌+◌, ◌-◌, ◌*◌, Bool, true, false, not, ◌&&◌, ◌||◌, Option, none, some, List, [],
  ◌∷◌, ◌++◌, leb, ◌==◌, if◌then◌else◌, length, reverse, take, drop,
}
use barcelona.Base.Text.{Bytes, codes, equal, starts_with, find}
use barcelona.Base.Expected.{Expected, ok, err}

-- `none` is -1.
unfoldable pub hex_digit : ℕ → Option ℕ
hex_digit c =
    if leb b'0' c && leb c b'9'
    then some (c - b'0')
    else if leb b'a' c && leb c b'f'
    then some (c - b'a' + 10)
    else if leb b'A' c && leb c b'F'
    then some (c - b'A' + 10)
    else none

-- A byte that starts no escape.
unfoldable pub plain_byte : ℕ → ℕ
plain_byte c = if c == b'+' then b' ' else c

-- The escape's byte before the decoded rest, where both digits and the rest are valid.
unfoldable pub escaped_byte : Option ℕ → Option ℕ → Option Bytes → Option Bytes
escaped_byte (some hi) (some lo) (some r) = some ((hi * 16 + lo) ∷ r)
escaped_byte _ _ _ = none

unfoldable pub push_byte : ℕ → Option Bytes → Option Bytes
push_byte c none = none
push_byte c (some r) = some (c ∷ r)

-- `url_decode`; `none` is false. `i + 2 < s.size()` says that two bytes follow the `%`.
unfoldable pub url_decode : Bytes → Option Bytes
unfolding plain_byte escaped_byte push_byte hex_digit
url_decode (c ∷ h ∷ l ∷ s) =
    let escape = escaped_byte (hex_digit h) (hex_digit l) (url_decode s) in
    let plain = push_byte (plain_byte c) (url_decode (h ∷ l ∷ s)) in
    if c == b'%' then escape else plain
url_decode (c ∷ h ∷ []) = some (plain_byte c ∷ plain_byte h ∷ [])
url_decode (c ∷ []) = some (plain_byte c ∷ [])
url_decode [] = some []

-- `raw_uri.substr(0, raw_uri.find_first_of("?#"))`
unfoldable pub strip_query : Bytes → Bytes
strip_query [] = []
strip_query (c ∷ s) = if c == b'?' || c == b'#' then [] else c ∷ strip_query s

-- `path.erase(pos, 1)`
abbrev pub erase_at : ℕ → Bytes → Bytes
erase_at pos s = take pos s ++ drop (pos + 1) s

-- The loop that erases one slash of each pair; one round for each byte is enough.
unfoldable pub collapse_loop : ℕ → Bytes → Bytes
collapse_loop zero s = s
collapse_loop (suc f) s = elim (find s (codes "//")) [
  | none ↦ s
  | some pos ↦ collapse_loop f (erase_at pos s)
]

unfoldable pub collapse_slashes : Bytes → Bytes
unfolding collapse_loop
collapse_slashes s = collapse_loop (length s) s

-- What stands between the slashes of a path; at least one piece.
unfoldable pub push_piece : ℕ → List Bytes → List Bytes
push_piece c [] = (c ∷ []) ∷ []
push_piece c (p ∷ ps) = (c ∷ p) ∷ ps

unfoldable pub pieces : Bytes → List Bytes
unfolding push_piece
pieces [] = [] ∷ []
pieces (c ∷ s) = if c == b'/' then [] ∷ pieces s else push_piece c (pieces s)

-- A `..` behind the segments kept so far, the last of them first.
unfoldable pub parent : Bool → List Bytes → List Bytes
parent rooted [] = if rooted then [] else codes ".." ∷ []
parent rooted (top ∷ kept) = if equal top (codes "..") then codes ".." ∷ top ∷ kept else kept

abbrev pub is_dot : Bytes → Bool
is_dot p = equal p [] || equal p (codes ".")

unfoldable pub walk : Bool → List Bytes → List Bytes → List Bytes
unfolding parent
walk rooted kept [] = kept
walk rooted kept (p ∷ ps) =
    walk rooted
      (if is_dot p then kept else if equal p (codes "..") then parent rooted kept else p ∷ kept) ps

-- The path ends in a slash, in `.` or in `..`.
unfoldable pub ends_open : List Bytes → Bool
ends_open [] = false
ends_open (p ∷ []) = is_dot p || equal p (codes "..")
ends_open (p ∷ q ∷ ps) = ends_open (q ∷ ps)

-- A trailing slash stays behind a last segment that is not `..`.
unfoldable pub keeps_slash : List Bytes → Bool
keeps_slash [] = false
keeps_slash (top ∷ kept) = not (equal top (codes ".."))

unfoldable pub join : List Bytes → Bool → Bytes
join [] open_end = []
join (p ∷ []) open_end = p ++ (if open_end then codes "/" else [])
join (p ∷ q ∷ ps) open_end = p ++ (b'/' ∷ join (q ∷ ps) open_end)

unfoldable pub or_dot : Bytes → Bytes
or_dot [] = codes "."
or_dot (c ∷ s) = c ∷ s

-- `std::filesystem::path(s).lexically_normal().generic_string()` on POSIX.
unfoldable pub lexically_normal : Bytes → Bytes
unfolding pieces walk ends_open keeps_slash join or_dot
lexically_normal [] = []
lexically_normal (c ∷ s) =
    let rooted = c == b'/' in
    let kept = walk rooted [] (pieces (c ∷ s)) in
    let open_end = ends_open (pieces (c ∷ s)) && keeps_slash kept in
    or_dot ((if rooted then codes "/" else []) ++ join (reverse kept) open_end)

-- The std::errc values that the code returns.
pub data UriError : Type 0 where
  invalid_argument illegal_byte_sequence permission_denied : UriError

-- `s.empty() || s.rfind("..", 0) == 0`
unfoldable pub check_root : Bytes → Expected Bytes UriError
check_root s = if equal s [] || starts_with s (codes "..") then err permission_denied else ok s

unfoldable pub normalize_decoded : Option Bytes → Expected Bytes UriError
unfolding collapse_slashes lexically_normal check_root
normalize_decoded none = err illegal_byte_sequence
normalize_decoded (some path) = check_root (lexically_normal (collapse_slashes path))

-- `normalizeUriPath`
unfoldable pub normalize_uri_path : Bytes → Expected Bytes UriError
unfolding url_decode strip_query normalize_decoded
normalize_uri_path raw_uri =
    if starts_with raw_uri (codes "/")
    then normalize_decoded (url_decode (strip_query raw_uri))
    else err invalid_argument
