-- ===== src/Handlers/CgiRunner.antt =====
-- lib/http/handlers/src/DefaultCgiRunner.cc over an interface of the calls that make and end processes.
use barcelona.Base.{
  ℕ, suc, Bool, true, false, Option, none, some, List, [], ◌∷◌, ◌++◌, ◌==◌, if◌then◌else◌, length,
  drop, map,
}
use barcelona.Base.Text.{Bytes, codes, equal, find}
use barcelona.Base.Dict.{Dict, lookup}
use barcelona.Base.Number.{to_string}
use barcelona.Base.Expected.{Expected, ok, err}
use barcelona.Config.{to_upper}
use barcelona.Http.{Method, Request}
use barcelona.Io.{Error, system}

-- The transformation of a header's name.
unfoldable pub upper_key : Bytes → Bytes
unfolding to_upper
upper_key key = map (λ c. if c == b'-' then b'_' else to_upper c) key

unfoldable pub query_string : Bytes → Bytes
query_string uri = elim (find uri (codes "?")) [
  | none ↦ codes "QUERY_STRING="
  | some n ↦ codes "QUERY_STRING=" ++ drop (suc n) uri
]

unfoldable pub content_length : Bytes → List Bytes
content_length [] = []
content_length (c ∷ body) = (codes "CONTENT_LENGTH=" ++ to_string (length (c ∷ body))) ∷ []

unfoldable pub content_type : Option Bytes → List Bytes
content_type none = []
content_type (some v) = (codes "CONTENT_TYPE=" ++ v) ∷ []

unfoldable pub http_variables : Dict → List Bytes
unfolding upper_key
http_variables [] = []
http_variables ((key, value) ∷ m) =
    (codes "HTTP_" ++ (upper_key key ++ (codes "=" ++ value))) ∷ http_variables m

-- `createCgiEnvironment`
unfoldable pub create_cgi_environment : (Method → Bytes) → Request → Bytes → List Bytes
unfolding query_string content_length content_type http_variables
create_cgi_environment method_name request script_path =
    codes "GATEWAY_INTERFACE=CGI/1.1"
    ∷ (codes "REQUEST_METHOD=" ++ method_name request.method)
    ∷ (codes "SERVER_PROTOCOL=" ++ request.version)
    ∷ (codes "SCRIPT_FILENAME=" ++ script_path)
    ∷ (codes "SCRIPT_NAME=" ++ request.uri)
    ∷ codes "SERVER_NAME=localhost"
    ∷ codes "SERVER_PORT=80"
    ∷ query_string request.uri
    ∷ (content_length request.body
        ++ (content_type (lookup (codes "Content-Type") request.headers)
            ++ http_variables request.headers))

-- The calls: both of `pipe`; `fork`, whose child has the interpreter, the script and the environment
-- for its execve; `write` and `close` of the child's input; what `read` gives until it gives no more;
-- `waitpid`, whose status is none where the child did not exit.
pub record Processes (S : Type 0) : Type 0 where
  pub pipe : S → S × Bool
  pub fork : S → Bytes → Bytes → List Bytes → S × Bool
  pub write : S → Bytes → S
  pub close_input : S → S
  pub read : S → S × List Bytes
  pub wait : S → S × Option ℕ

unfoldable pub appended : List Bytes → Bytes
appended [] = []
appended (chunk ∷ chunks) = chunk ++ appended chunks

-- EIO, EAGAIN and EBADMSG.
abbrev pub io_error : Error
io_error = system 5

abbrev pub try_again : Error
try_again = system 11

abbrev pub bad_message : Error
bad_message = system 74

-- `!WIFEXITED(status) || WEXITSTATUS(status) != 0`
unfoldable pub of_exit : Bytes → Option ℕ → Expected Bytes Error
of_exit output none = err bad_message
of_exit output (some n) = if n == 0 then ok output else err bad_message

module _ (method_name : Method → Bytes) {S : Type 0} (os : Processes S) where
  unfoldable pub parent_process : S → Request → S × Expected Bytes Error
  unfolding appended of_exit
  parent_process s request =
      let fed = os.close_input (if equal request.body [] then s else os.write s request.body) in
      let r = os.read fed in let w = os.wait r.0 in (w.0, of_exit (appended r.1) w.1)

  unfoldable pub after_fork : S × Bool → Request → S × Expected Bytes Error
  unfolding parent_process
  after_fork (s, false) request = (s, err try_again)
  after_fork (s, true) request = parent_process s request

  unfoldable pub after_pipes : S × Bool → Request → Bytes → Bytes → S × Expected Bytes Error
  unfolding after_fork
  after_pipes (s, false) request path interpreter = (s, err io_error)
  after_pipes (s, true) request path interpreter =
      after_fork (os.fork s interpreter path (create_cgi_environment method_name request path))
        request

  unfoldable pub second_pipe : S × Bool → S × Bool
  second_pipe (s, false) = (s, false)
  second_pipe (s, true) = os.pipe s

  -- `DefaultCgiRunner::run`
  unfoldable pub run_cgi : S → Request → Bytes → Bytes → S × Expected Bytes Error
  unfolding after_pipes second_pipe
  run_cgi s request path interpreter =
      after_pipes (second_pipe (os.pipe s)) request path interpreter
