-- ===== src/RequestParser/LastChunk.antt =====
-- The last chunk of a chunked body, read at once and read in two pieces.
use barcelona.Base.{◌≡◌, refl, Option, some, [], ◌∷◌}
use barcelona.Base.Text.{Bytes, equal, find, starts_with}
use barcelona.Base.Number.{stoull}
use barcelona.Http.{Method}
use barcelona.RequestParser.{Step, finished, parsing, Parser, ok, crlf, double_crlf}
use barcelona.RequestParser.Headers.{trim_right, is_blank}
use barcelona.RequestParser.Chunked.{
  skip_crlfs, size_token, finish_chunks, start_chunk, read_size, parse_chunked_body,
}
use barcelona.RequestParser.Loop.{parse}

-- A parser that waits for the next chunk-size line, with nothing in its buffer.
abbrev pub at_chunk : Parser → Parser
at_chunk p = record p { step = Step.chunked_body; chunk_size_remaining = 0; buffer = [] }

abbrev pub last_size : Bytes
last_size = b'0' ∷ crlf

abbrev pub last_chunk : Bytes
last_chunk = b'0' ∷ double_crlf

module _ (cast : Bytes → Option Method) where
  -- Where nothing is in the buffer: the last chunk, `0\r\n\r\n`, ends the request if it comes in one
  -- piece. If it is cut behind its
  -- size line, each of the two pieces leaves the parser waiting for the next chunk as before, so
  -- that the end of the request is lost.
  pub last_chunk_split :
      (p : Parser)
      → (parse cast (at_chunk p) last_chunk
          ≡ some (ok finished (record (at_chunk p) { step = Step.completed })))
        × (parse cast (at_chunk p) last_size ≡ some (ok parsing (at_chunk p)))
        × (parse cast (at_chunk p) crlf ≡ some (ok parsing (at_chunk p)))
  unfolding parse parse_chunked_body read_size start_chunk finish_chunks size_token skip_crlfs find
      starts_with equal stoull trim_right is_blank
  last_chunk_split p = (refl, refl, refl)
