-- ===== src/RequestParser/Safety/Kept.antt =====
-- What the header block and the chunks leave of the limit.
use barcelona.Base.{
  ℕ, ◌≤◌, ◌≡◌, refl, Option, none, some, ◌⊎◌, inl, inr, [], arith, length, Bool-cases, Option-cases,
  ◌==◌,
}
use barcelona.Base.Text.{find, starts_with, equal}
use barcelona.Base.Dict.{lookup}
use barcelona.RequestParser.{
  ParseResult, incomplete, Parser, Outcome, ok, err, fault, crlf, double_crlf,
}
use barcelona.RequestParser.Headers.{parse_headers}
use barcelona.RequestParser.Chunked.{
  finish_chunks, start_chunk, read_size, end_chunk, part_chunk, read_data, parse_chunked_body,
}
use barcelona.RequestParser.Valid.{HeadersRead, read_headers-HeadersRead}

pub parse_headers-HeadersRead :
    (p : Parser)
    → p.request.headers ≡ []
    → (parse_headers p ≡ ok incomplete p) ⊎ HeadersRead p (parse_headers p)
unfolding parse_headers
parse_headers-HeadersRead p h = elim (Bool-cases (starts_with p.buffer crlf)) [
  | inl e ↦ inr (rw (e, parse_headers) (refl, refl, inl (rw h (unfold lookup in refl))))
  | inr e ↦ elim (Option-cases (find p.buffer double_crlf)) [
    | inl f ↦ inl (rw (e, f, parse_headers))
    | inr (n, f) ↦ inr (rw (e, f, parse_headers) (read_headers-HeadersRead _ _))
  ]
]

-- The chunked body never faults; it keeps the step, the limit and the bound.
abbrev pub ChunkKept : Parser → Outcome ParseResult → Type 0
ChunkKept p (ok r q) =
    (q.max_body_size ≡ p.max_body_size)
    × (length q.request.body ≤ q.max_body_size)
    × (q.step ≡ p.step)
ChunkKept p (err c q) = Unit
ChunkKept p (fault e) = ⊥

module _ (p : Parser) (within : length p.request.body ≤ p.max_body_size) where
  finish_chunks-ChunkKept : ChunkKept p (finish_chunks p)
  unfolding finish_chunks
  finish_chunks-ChunkKept = ground arith

start_chunk-ChunkKept :
    (size : Option ℕ) (p : Parser)
    → length p.request.body ≤ p.max_body_size
    → ChunkKept p (start_chunk size p)
unfolding start_chunk
start_chunk-ChunkKept none p h = tt
start_chunk-ChunkKept (some n) p h =
    ground (arith, finish_chunks-ChunkKept (record p { chunk_size_remaining = n }) h)

read_size-ChunkKept :
    (p : Parser) → length p.request.body ≤ p.max_body_size → ChunkKept p (read_size p)
unfolding read_size
read_size-ChunkKept p h = elim (Bool-cases (equal p.buffer [])) [
  | inl e ↦ rw (e, read_size) (refl, h, refl)
  | inr e ↦ elim (Option-cases (find p.buffer crlf)) [
    | inl f ↦ rw (e, f, read_size) (refl, h, refl)
    | inr (n, f) ↦ rw (e, f, read_size) (start_chunk-ChunkKept _ _ h)
  ]
]

read_data-ChunkKept : (p : Parser) → ChunkKept p (read_data p)
unfolding read_data end_chunk part_chunk
read_data-ChunkKept p = ground arith

pub parse_chunked_body-ChunkKept :
    (p : Parser) → length p.request.body ≤ p.max_body_size → ChunkKept p (parse_chunked_body p)
unfolding parse_chunked_body
parse_chunked_body-ChunkKept p h = elim (Bool-cases (p.chunk_size_remaining == 0)) [
  | inl e ↦ rw (e, parse_chunked_body) (read_size-ChunkKept _ h)
  | inr e ↦ rw (e, parse_chunked_body) (read_data-ChunkKept p)
]
