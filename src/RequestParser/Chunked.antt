-- ===== src/RequestParser/Chunked.antt =====
-- The chunked body: parseChunkedBody of RequestParser.cc.
use barcelona.Base.{
  ℕ, zero, suc, ◌+◌, ◌-◌, Bool, true, false, not, ◌&&◌, ◌||◌, Option, none, some, [], ◌∷◌, ◌++◌,
  ltb, leb, ◌==◌, if◌then◌else◌, length, take, drop,
}
use barcelona.Base.Text.{Bytes, codes, equal, starts_with, find}
use barcelona.Base.Number.{stoull}
use barcelona.Http.Status.{bad_request, payload_too_large}
use barcelona.RequestParser.{
  ParseResult, success, incomplete, Parser, Outcome, ok, err, crlf, double_crlf,
}
use barcelona.RequestParser.Headers.{trim}

-- The loop that erases the CRLFs in front.
unfoldable pub skip_crlfs : Bytes → Bytes
skip_crlfs (c ∷ d ∷ s) = let rest = skip_crlfs s in if c == 13 && d == 10 then rest else c ∷ d ∷ s
skip_crlfs s = s

-- A size line without its extension and the blanks round it.
unfoldable pub size_token : Bytes → Bytes
size_token line = elim (find line (codes ";")) [
  | none ↦ trim line
  | some semi ↦ trim (take semi line)
]

unfoldable pub is_xdigit : ℕ → Bool
is_xdigit c = (leb b'0' c && leb c b'9') || (leb b'a' c && leb c b'f') || (leb b'A' c && leb c b'F')

unfoldable pub all_xdigits : Bytes → Bool
all_xdigits [] = true
all_xdigits (c ∷ s) = is_xdigit c && all_xdigits s

unfoldable pub all_hex : Bytes → Bool
unfolding all_xdigits
all_hex s = not (equal s []) && all_xdigits s

-- `s.find(p, from)`
unfoldable pub shift : ℕ → Option ℕ → Option ℕ
shift n none = none
shift n (some m) = some (n + m)

unfoldable pub find_from : Bytes → Bytes → ℕ → Option ℕ
unfolding shift
find_from s p from = if ltb (length s) from then none else shift from (find (drop from s) p)

-- The scan for a CRLF before the declared end that a chunk-size line follows. Each round moves
-- the position on, so the length of the buffer is fuel enough.
unfoldable pub ends_early : ℕ → Bytes → ℕ → Option ℕ → Bool
unfolding size_token all_hex find_from is_xdigit
ends_early zero buffer limit pos = false
ends_early (suc f) buffer limit none = false
ends_early (suc f) buffer limit (some pos) =
    let after = pos + length crlf in
    let next = find_from buffer crlf after in
    let later = ends_early f buffer limit next in
    if ltb pos limit
    then elim next [
      | none ↦ false
      | some end ↦
          if all_hex (size_token (take (end - after) (drop after buffer))) then true else later
    ]
    else false

abbrev pub drop_buffer : ℕ → Parser → Parser
drop_buffer n p = record p { buffer = drop n p.buffer }

-- The last chunk: its empty line, or a trailer with its end.
unfoldable pub finish_chunks : Parser → Outcome ParseResult
finish_chunks p =
    if starts_with p.buffer crlf
    then ok success (drop_buffer (length crlf) p)
    else elim (find p.buffer double_crlf) [
      | none ↦ ok incomplete p
      | some pos ↦ ok success (drop_buffer (pos + length double_crlf) p)
    ]

-- Behind a size line that has been read.
unfoldable pub start_chunk : Option ℕ → Parser → Outcome ParseResult
start_chunk none p = err bad_request p
start_chunk (some size) p =
    let q = record p { chunk_size_remaining = size } in
    if size == 0 then finish_chunks q else ok incomplete q

-- Phase A, behind the leading CRLFs.
unfoldable pub read_size : Parser → Outcome ParseResult
read_size p = if equal p.buffer [] then ok incomplete p else elim (find p.buffer crlf) [
  | none ↦ ok incomplete p
  | some pos ↦
      start_chunk (stoull 16 (size_token (take pos p.buffer))) (drop_buffer (pos + length crlf) p)
]

-- `_request.body.insert(end, ...)` of the first `n` bytes, and `_buffer.erase(0, n)`
abbrev pub consume : ℕ → Parser → Parser
consume n p = record p {
  request = record (p.request) { body = p.request.body ++ take n p.buffer };
  buffer = drop n p.buffer;
  chunk_size_remaining = p.chunk_size_remaining - n;
}

abbrev pub is_too_large : Parser → Bool
is_too_large p = ltb p.max_body_size (length p.request.body)

-- Behind the data of a chunk there has to be a CRLF.
unfoldable pub end_chunk : Parser → Outcome ParseResult
end_chunk p =
    if is_too_large p
    then err payload_too_large p
    else if ltb (length p.buffer) (length crlf)
    then ok incomplete p
    else if not (starts_with p.buffer crlf)
    then err bad_request p
    else ok incomplete (drop_buffer (length crlf) p)

unfoldable pub part_chunk : Parser → Outcome ParseResult
part_chunk p = if is_too_large p then err payload_too_large p else ok incomplete p

-- Phase B: `std::min(_chunk_size_remaining, _buffer.size())` limits the scan.
unfoldable pub read_data : Parser → Outcome ParseResult
read_data p =
    let have = length p.buffer in
    let limit = if ltb have p.chunk_size_remaining then have else p.chunk_size_remaining in
    if ends_early have p.buffer limit (find p.buffer crlf)
    then err bad_request p
    else if ltb have p.chunk_size_remaining
    then part_chunk (consume have p)
    else end_chunk (consume p.chunk_size_remaining p)

unfoldable pub parse_chunked_body : Parser → Outcome ParseResult
parse_chunked_body p =
    if p.chunk_size_remaining == 0
    then read_size (record p { buffer = skip_crlfs p.buffer })
    else read_data p
