-- ===== src/Handlers/Cgi.antt =====
-- lib/http/handlers/src/CgiHandler.cc over an interface of runners (ICgiRunner) with a state `S`.
use barcelona.Base.{ℕ, ◌+◌, Option, none, some, List, [], ◌∷◌, if◌then◌else◌, length, take, drop}
use barcelona.Base.Text.{Bytes, codes, find, starts_with}
use barcelona.Base.Dict.{insert}
use barcelona.Base.Int.{ℤ}
use barcelona.Base.Number.{to_string, stoi}
use barcelona.Base.Expected.{Expected, ok, err}
use barcelona.Http.{bytes, Request, Response, default_response}
use barcelona.Http.Status.{StatusCode, not_found, bad_gateway}
use barcelona.Io.{Error}
use barcelona.RequestParser.{double_crlf}
use barcelona.RequestParser.Headers.{getlines, chomp}
use barcelona.Response.{create_stock_response}
use barcelona.SafePath.{Errc, resolve_safe_path}

-- ICgiRunner: what `run` returns for a request, a script and an interpreter.
abbrev pub Runner : Type 0 → Type 0
Runner S = S → Request → Bytes → Bytes → S × Expected Bytes Error

-- `CgiHandler(script_root, interpreter_path, runner)`
pub record CgiHandler : Type 0 where
  pub script_root : Bytes
  pub interpreter_path : Bytes

-- `line.substr(line.find(' ') + 1)`, where npos + 1 is 0.
unfoldable pub behind_space : Bytes → Bytes
behind_space line = elim (find line (codes " ")) [ none ↦ line | some n ↦ drop (n + 1) line ]

unfoldable pub with_status : Option ℤ → Response → Response
with_status none r = r
with_status (some z) r = record r { status_code = z }

unfoldable pub with_field : Bytes → Response → Response
with_field line r = elim (find line (codes ": ")) [
  | none ↦ r
  | some n ↦ record r { headers = insert (take n line) (drop (n + 2) line) r.headers }
]

unfoldable pub read_line : Bytes → Response → Response
unfolding behind_space with_status with_field
read_line [] r = r
read_line (c ∷ line) r =
    if starts_with (c ∷ line) (codes "Status:")
    then with_status (stoi (behind_space (c ∷ line))) r
    else with_field (c ∷ line) r

unfoldable pub read_lines : List Bytes → Response → Response
unfolding read_line
read_lines [] r = r
read_lines (line ∷ lines) r = read_lines lines (read_line (chomp line) r)

-- `parseCgiHeaders`
unfoldable pub parse_cgi_headers : Bytes → Response → Response
unfolding read_lines
parse_cgi_headers header_part r = read_lines (getlines header_part) r

unfoldable pub with_body : Bytes → Response → Response
with_body body r = record r {
  headers = insert (codes "Content-Length") (to_string (length body)) r.headers;
  body = bytes body;
}

unfoldable pub crlf_or_lf : Bytes → Option ℕ → Option (ℕ × ℕ)
crlf_or_lf raw (some n) = some (n, 4)
crlf_or_lf raw none = elim (find raw (b'\n' ∷ b'\n' ∷ [])) [ none ↦ none | some n ↦ some (n, 2) ]

-- The place of the delimiter and its length.
unfoldable pub delimiter : Bytes → Option (ℕ × ℕ)
unfolding crlf_or_lf
delimiter raw = crlf_or_lf raw (find raw double_crlf)

module _ (enum_name : StatusCode → Bytes) where
  unfoldable pub at_delimiter : Bytes → Option (ℕ × ℕ) → Response
  unfolding parse_cgi_headers with_body
  at_delimiter raw none = create_stock_response enum_name bad_gateway
  at_delimiter raw (some (n, len)) =
      with_body (drop (n + len) raw) (parse_cgi_headers (take n raw) default_response)

  -- `parseCgiOutput`
  unfoldable pub parse_cgi_output : Bytes → Response
  unfolding delimiter at_delimiter
  parse_cgi_output raw = at_delimiter raw (delimiter raw)

  unfoldable pub of_output : Expected Bytes Error → Response
  unfolding parse_cgi_output
  of_output (err e) = create_stock_response enum_name bad_gateway
  of_output (ok raw) = parse_cgi_output raw

  module _ {S : Type 0} (run : Runner S) where
    unfoldable pub run_script : CgiHandler → S → Request → Expected Bytes Errc → S × Response
    unfolding of_output
    run_script h s request (err e) = (s, create_stock_response enum_name not_found)
    run_script h s request (ok path) =
        let x = run s request path h.interpreter_path in (x.0, of_output x.1)

    -- `CgiHandler::handleRequest`; `none` is the undefined behaviour of resolveSafePath.
    unfoldable pub handle_cgi : CgiHandler → S → Request → Option (S × Response)
    unfolding run_script
    handle_cgi h s request =
        elim (resolve_safe_path h.script_root request.uri (codes "index.html")) [
          | none ↦ none
          | some r ↦ some (run_script h s request r)
        ]
