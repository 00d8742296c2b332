-- ===== src/RequestParser/Loop.antt =====
-- The loop of `parse`, and `parse` itself.
use barcelona.Base.{
  ℕ, zero, suc, ◌+◌, Bool, true, false, ◌||◌, Option, none, some, ◌++◌, ltb, if◌then◌else◌, length,
}
use barcelona.Base.Text.{Bytes, codes}
use barcelona.Base.Dict.{contains}
use barcelona.Http.{Method}
use barcelona.RequestParser.{
  Step, ParseResult, success, incomplete, State, parsing, finished, Parser, Outcome, ok, err, fault,
}
use barcelona.RequestParser.RequestLine.{parse_request_line}
use barcelona.RequestParser.Headers.{parse_headers, parse_body}
use barcelona.RequestParser.Chunked.{parse_chunked_body}

abbrev pub with_step : Parser → Step → Parser
with_step p s = record p { step = s }

-- `if (result && *result == ParseResult::Success) _step = ...`
unfoldable pub on_success : (Parser → Step) → Outcome ParseResult → Outcome ParseResult
on_success next (ok success p) = ok success (with_step p (next p))
on_success next (ok incomplete p) = ok incomplete p
on_success next (err c p) = err c p
on_success next (fault e) = fault e

-- What follows the headers.
unfoldable pub after_headers : Parser → Step
after_headers p =
    if contains (codes "Transfer-Encoding") p.request.headers
    then Step.chunked_body
    else if contains (codes "Content-Length") p.request.headers
    then Step.body
    else Step.completed

abbrev pub is_completed : Step → Bool
is_completed Step.completed = true
is_completed _ = false

module _ (enum_cast : Bytes → Option Method) where
  -- The switch. No step of the code enters ChunkedTrailer, for which it has no case.
  unfoldable pub advance : Step → Parser → Outcome ParseResult
  unfolding on_success after_headers
  advance Step.request_line p = on_success (λ _. Step.headers) (parse_request_line enum_cast p)
  advance Step.headers p = on_success after_headers (parse_headers p)
  advance Step.body p = on_success (λ _. Step.completed) (parse_body p)
  advance Step.chunked_body p = on_success (λ _. Step.completed) (parse_chunked_body p)
  advance Step.chunked_trailer p = ok success p
  advance Step.completed p = ok success p

  -- The while loop; `none` is fuel that has run out.
  unfoldable pub run : ℕ → Parser → Option (Outcome State)
  run zero p = none
  run (suc f) p = elim (is_completed p.step) [
    | true ↦ some (ok finished p)
    | false ↦ elim (advance p.step p) [
      | err c q ↦ some (err c q)
      | fault e ↦ some (fault e)
      | ok _ q ↦ elim (ltb (length q.buffer) (length p.buffer) || is_completed q.step) [
        | true ↦ run f q
        | false ↦ some (ok (if is_completed q.step then finished else parsing) q)
      ]
    ]
  ]

  -- `parse(data)`. Each round but the last two takes a byte from the buffer.
  unfoldable pub parse : Parser → Bytes → Option (Outcome State)
  unfolding run advance
  parse p input = let q = record p { buffer = p.buffer ++ input } in run (length q.buffer + 2) q
