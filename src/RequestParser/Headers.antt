-- ===== src/RequestParser/Headers.antt =====
-- The header block and the body of known length: parseHeaders and parseBody of RequestParser.cc.
use barcelona.Base.{
  ℕ, ◌+◌, Bool, true, false, not, ◌||◌, Option, none, some, List, [], ◌∷◌, map, ltb, ◌==◌,
  if◌then◌else◌, length, take, drop,
}
use barcelona.Base.Text.{Bytes, codes, equal, starts_with, find, to_lower}
use barcelona.Base.Dict.{Dict, lookup, insert}
use barcelona.Base.Number.{drop_while, stoull}
use barcelona.Http.{Request}
use barcelona.Http.Status.{bad_request, not_implemented, payload_too_large}
use barcelona.RequestParser.{
  ParseResult, success, incomplete, Parser, back_of_empty, uncaught_exception, Outcome, ok, err,
  fault, ◌>>=◌, crlf, double_crlf,
}

-- `iequal`
unfoldable pub iequal : Bytes → Bytes → Bool
iequal a b = equal (map to_lower a) (map to_lower b)

abbrev pub with_headers : Parser → Dict → Parser
with_headers p h = record p { request = record (p.request) { headers = h } }

-- The lines that `std::getline` reads up to the end of the stream.
unfoldable pub push_line : ℕ → List Bytes → List Bytes
push_line c [] = (c ∷ []) ∷ []
push_line c (l ∷ ls) = (c ∷ l) ∷ ls

unfoldable pub getlines : Bytes → List Bytes
unfolding push_line
getlines [] = []
getlines (c ∷ s) = if c == b'\n' then [] ∷ getlines s else push_line c (getlines s)

-- `if (line.back() == '\r') line.pop_back();` on a line that is not empty.
unfoldable pub chomp : Bytes → Bytes
chomp [] = []
chomp (c ∷ []) = if c == 13 then [] else c ∷ []
chomp (c ∷ d ∷ s) = c ∷ chomp (d ∷ s)

unfoldable pub is_blank : ℕ → Bool
is_blank c = c == b' ' || c == 9

-- `s.erase(0, s.find_first_not_of(" \t"))`
abbrev pub trim_left : Bytes → Bytes
trim_left = drop_while is_blank

-- `s.erase(s.find_last_not_of(" \t") + 1)`
unfoldable pub keep_right : ℕ → Bytes → Bytes
keep_right c [] = if is_blank c then [] else c ∷ []
keep_right c (d ∷ s) = c ∷ d ∷ s

unfoldable pub trim_right : Bytes → Bytes
unfolding keep_right
trim_right [] = []
trim_right (c ∷ s) = keep_right c (trim_right s)

abbrev pub trim : Bytes → Bytes
trim s = trim_right (trim_left s)

-- One line without its `\r`; `none` is a line with no colon.
unfoldable pub read_field : Bytes → Dict → Option Dict
read_field [] m = some m
read_field (c ∷ line) m = elim (find (c ∷ line) (codes ":")) [
  | none ↦ none
  | some colon ↦ some (insert (trim (take colon (c ∷ line))) (trim (drop (colon + 1) (c ∷ line))) m)
]

-- The getline loop. `line.back()` of an empty line is not defined.
unfoldable pub read_lines : List Bytes → Parser → Outcome ParseResult
read_lines [] p = ok success p
read_lines ([] ∷ ls) p = fault back_of_empty
read_lines ((c ∷ l) ∷ ls) p = elim (read_field (chomp (c ∷ l)) p.request.headers) [
  | none ↦ err bad_request p
  | some m ↦ read_lines ls (with_headers p m)
]

-- Only the chunked transfer coding is known.
unfoldable pub check_transfer : Parser → Outcome ParseResult
check_transfer p = elim (lookup (codes "Transfer-Encoding") p.request.headers) [
  | none ↦ ok success p
  | some v ↦ if iequal v (codes "chunked") then ok success p else err not_implemented p
]

unfoldable pub check_length : Parser → Outcome ParseResult
check_length p = elim (lookup (codes "Content-Length") p.request.headers) [
  | none ↦ ok success p
  | some v ↦ elim (stoull 10 v) [
    | none ↦ err bad_request p
    | some n ↦ if ltb p.max_body_size n then err payload_too_large p else ok success p
  ]
]

unfoldable pub wants_keep_alive : Request → Bool
wants_keep_alive req =
    let default = not (equal req.version (codes "HTTP/1.0")) in
    elim (lookup (codes "Connection") req.headers) [
      | none ↦ default
      | some v ↦
          if iequal v (codes "close")
          then false
          else if iequal v (codes "keep-alive")
          then true
          else default
    ]

unfoldable pub read_headers : Bytes → Parser → Outcome ParseResult
read_headers part p = read_lines (getlines part) p >>= λ _ p1. check_transfer p1 >>= λ _ p2.
    check_length p2 >>= λ _ p3.
    ok success (record p3 { client_wants_keep_alive = wants_keep_alive p3.request })

unfoldable pub parse_headers : Parser → Outcome ParseResult
parse_headers p =
    if starts_with p.buffer crlf
    then ok success (record p { buffer = drop (length crlf) p.buffer })
    else elim (find p.buffer double_crlf) [
      | none ↦ ok incomplete p
      | some pos ↦
          read_headers (take pos p.buffer)
            (record p { buffer = drop (pos + length double_crlf) p.buffer })
    ]

-- `std::stoul` throws past `parse` where it refuses the value.
unfoldable pub parse_body : Parser → Outcome ParseResult
parse_body p = elim (lookup (codes "Content-Length") p.request.headers) [
  | none ↦ err bad_request p
  | some v ↦ elim (stoull 10 v) [
    | none ↦ fault uncaught_exception
    | some n ↦
        if ltb (length p.buffer) n
        then ok incomplete p
        else ok success (record p {
          request = record (p.request) { body = take n p.buffer };
          buffer = drop n p.buffer;
        })
  ]
]
