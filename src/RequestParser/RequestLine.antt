-- ===== src/RequestParser/RequestLine.antt =====
-- The request line: parseRequestLine of RequestParser.cc.
use barcelona.Base.{◌+◌, not, Option, none, some, [], ◌∷◌, if◌then◌else◌, length, take, drop}
use barcelona.Base.Text.{Bytes, codes, equal, starts_with, find, is_space}
use barcelona.Base.Expected.{Expected}
use barcelona.Base.Number.{drop_while}
use barcelona.Http.{Method}
use barcelona.Http.Status.{bad_request, not_implemented, http_version_not_supported}
use barcelona.Uri.{normalize_uri_path}
use barcelona.RequestParser.{ParseResult, success, incomplete, Parser, Outcome, ok, err, crlf}

-- The bytes up to the next white space, and those from it on.
unfoldable pub span_word : Bytes → Bytes × Bytes
span_word [] = ([], [])
span_word (c ∷ s) = if is_space c then ([], c ∷ s) else (c ∷ (span_word s).0, (span_word s).1)

-- `ss >> word`; `none` is a stream that fails, for want of a word.
abbrev nonempty : Bytes × Bytes → Option (Bytes × Bytes)
nonempty ([], rest) = none
nonempty (c ∷ w, rest) = some (c ∷ w, rest)

unfoldable pub extract : Bytes → Option (Bytes × Bytes)
unfolding span_word
extract s = nonempty (span_word (drop_while is_space s))

abbrev with_uri : Parser → Bytes → Parser
with_uri p uri = record p { request = record (p.request) { uri = uri } }

abbrev with_version : Parser → Bytes → Parser
with_version p v = record p { request = record (p.request) { version = v } }

abbrev with_method : Parser → Method → Parser
with_method p m = record p { request = record (p.request) { method = m } }

module _ (enum_cast : Bytes → Option Method) where
  check_version : Parser → Outcome ParseResult
  check_version p =
      if not (starts_with p.request.version (codes "HTTP/"))
      then err http_version_not_supported p
      else ok success p

  check_method : Bytes → Parser → Outcome ParseResult
  unfolding check_version
  check_method method_str p = elim (enum_cast method_str) [
    | none ↦ err not_implemented p
    | some m ↦ check_version (with_method p m)
  ]

  check_uri : Bytes → Parser → Outcome ParseResult
  unfolding check_method
  check_uri method_str p = elim (normalize_uri_path p.request.uri) [
    | Expected.err e ↦ err bad_request p
    | Expected.ok uri ↦ check_method method_str (with_uri p uri)
  ]

  -- `ss >> method_str >> uri >> version` on the line, which has to end behind the version.
  unfoldable pub read_request_line : Bytes → Parser → Outcome ParseResult
  unfolding check_uri
  read_request_line line p = elim (extract line) [
    | none ↦ err bad_request p
    | some (method_str, r1) ↦ elim (extract r1) [
      | none ↦ err bad_request p
      | some (uri, r2) ↦ elim (extract r2) [
        | none ↦ err bad_request (with_uri p uri)
        | some (version, r3) ↦
            if not (equal r3 [])
            then err bad_request (with_version (with_uri p uri) version)
            else check_uri method_str (with_version (with_uri p uri) version)
      ]
    ]
  ]

  unfoldable pub parse_request_line : Parser → Outcome ParseResult
  parse_request_line p = elim (find p.buffer crlf) [
    | none ↦ ok incomplete p
    | some pos ↦
        read_request_line (take pos p.buffer)
          (record p { buffer = drop (pos + length crlf) p.buffer })
  ]
