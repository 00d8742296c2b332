-- ===== src/Handlers/CgiTests.antt =====
-- A script that prints its own status and length, run by processes that always succeed.
use barcelona.Base.{ℕ, suc, ◌≡◌, refl, true, some, [], ◌∷◌, ◌++◌}
use barcelona.Base.Text.{Bytes, codes, equal, find, starts_with, is_space}
use barcelona.Base.Dict.{insert}
use barcelona.Base.Int.{pos}
use barcelona.Base.Number.{stoi, number, digit_of, drop_while}
use barcelona.Base.Expected.{ok}
use barcelona.Http.{default_request, default_response, Response}
use barcelona.Http.Status.{StatusCode}
use barcelona.RequestParser.{double_crlf}
use barcelona.RequestParser.Headers.{getlines, chomp}
use barcelona.Uri.{lexically_normal, pieces}
use barcelona.SafePath.{resolve_safe_path}
use barcelona.Handlers.Cgi.{CgiHandler, handle_cgi, parse_cgi_output, parse_cgi_headers, with_body}
use barcelona.Handlers.CgiRunner.{Processes, run_cgi}
use barcelona.Handlers.CgiOutput.{HasLength, handle_cgi-HasLength}

abbrev name : StatusCode → Bytes
name = λ c. codes "BadGateway"

abbrev headers : Bytes
headers = codes "Status: 404" ++ (b'\n' ∷ codes "Content-Length: 7")

abbrev printed : Bytes
printed = headers ++ (double_crlf ++ codes "hi")

-- The state counts the calls.
abbrev calls : Processes ℕ
calls = record {
  pipe = λ n. (suc n, true);
  fork = λ n i p env. (suc n, true);
  write = λ n body. suc n;
  close_input = λ n. suc n;
  read = λ n. (suc n, headers ∷ (double_crlf ++ codes "hi") ∷ []);
  wait = λ n. (suc n, some 0);
}

ran :
    run_cgi (λ m. codes "GET") calls 0 default_request (codes "/www/a.py") (codes "/bin/python")
    ≡ (6, ok printed)
unfolding run_cgi equal
ran = refl

abbrev handler : CgiHandler
handler = record { script_root = codes "/www"; interpreter_path = codes "/bin/python" }

abbrev answer : Response
answer = with_body (codes "hi") (record default_response {
  status_code = pos 404;
  headers = (codes "Content-Length", codes "7") ∷ [];
})

handled :
    handle_cgi name (run_cgi (λ m. codes "GET") calls) handler 0 default_request ≡ some (6, answer)
unfolding handle_cgi run_cgi resolve_safe_path find starts_with equal lexically_normal pieces
    parse_cgi_output parse_cgi_headers with_body getlines chomp insert stoi number digit_of
    drop_while is_space
handled = refl

handle_cgi-HasLength_example : HasLength answer
handle_cgi-HasLength_example =
    handle_cgi-HasLength name (run_cgi (λ m. codes "GET") calls) handler 0 6 default_request answer
      handled
