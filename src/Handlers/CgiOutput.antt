-- ===== src/Handlers/CgiOutput.antt =====
-- The responses that CgiHandler makes of what a script prints.
use mathlib.Core.Path.{subst}
use barcelona.Base.{
  ℕ, ◌+◌, ◌≡◌, refl, ap, ◌∙◌, Option, none, some, [], ◌∷◌, ◌++◌, length, take, drop,
}
use barcelona.Base.Text.{Bytes, codes, find}
use barcelona.Base.Expected.{Expected, ok, err}
use barcelona.Http.{Request, Response, default_response}
use barcelona.Http.Status.{StatusCode, enum_integer, not_found, bad_gateway}
use barcelona.Io.{Error}
use barcelona.RequestParser.{double_crlf}
use barcelona.SafePath.{Errc, resolve_safe_path}
use barcelona.Handlers.Lengths.{size_of}
use barcelona.Base.Dict.{Dict, lookup, insert, lookup-insert_self}
use barcelona.Base.Number.{to_string}
use barcelona.Response.{create_stock_response, stock_headers}
use barcelona.Handlers.Cgi.{
  Runner, CgiHandler, parse_cgi_headers, with_body, delimiter, at_delimiter, parse_cgi_output,
  of_output, run_script, handle_cgi,
}

abbrev pub double_lf : Bytes
double_lf = b'\n' ∷ b'\n' ∷ []

lf_place : Option ℕ → Option (ℕ × ℕ)
lf_place o = elim o [ none ↦ none | some n ↦ some (n, 2) ]

-- What ends the headers of a script: CR LF CR LF that is not in them; or two LF that are not in them,
-- where CR LF CR LF is not in the whole output.
pub data EndsHeaders (headers body : Bytes) : Bytes → Type 0 where
  by_crlf :
      find (headers ++ double_crlf) double_crlf ≡ some (length headers)
      → EndsHeaders headers body double_crlf
  by_lf :
      find (headers ++ double_lf) double_lf ≡ some (length headers)
      → find (headers ++ (double_lf ++ body)) double_crlf ≡ none
      → EndsHeaders headers body double_lf

-- A Content-Length that gives the size of the body.
abbrev pub HasLength : Response → Type 0
HasLength r = lookup (codes "Content-Length") r.headers ≡ some (to_string (size_of r.body))

module _ (enum_name : StatusCode → Bytes) where
  has_length :
      (m : Dict) (r : Response)
      → r.headers ≡ insert (codes "Content-Length") (to_string (size_of r.body)) m
      → HasLength r
  has_length m r e =
      ap (λ (h : Dict). lookup (codes "Content-Length") h) e
      ∙ lookup-insert_self (codes "Content-Length") (to_string (size_of r.body)) m

  stock_base : Dict
  stock_base =
      insert (codes "Content-Type") (codes "text/plain; charset=utf-8")
        (insert (codes "Connection") (codes "close") [])

  bad_gateway-HasLength : HasLength (create_stock_response enum_name bad_gateway)
  unfolding create_stock_response stock_headers enum_integer stock_base
  bad_gateway-HasLength = has_length stock_base (create_stock_response enum_name bad_gateway) refl

  not_found-HasLength : HasLength (create_stock_response enum_name not_found)
  unfolding create_stock_response stock_headers enum_integer stock_base
  not_found-HasLength = has_length stock_base (create_stock_response enum_name not_found) refl

  at_delimiter-HasLength :
      (raw : Bytes) (o : Option (ℕ × ℕ)) → HasLength (at_delimiter enum_name raw o)
  unfolding at_delimiter with_body
  at_delimiter-HasLength raw none = bad_gateway-HasLength
  at_delimiter-HasLength raw (some (n, len)) =
      let r : Response = parse_cgi_headers (take n raw) default_response in
      has_length r.headers (with_body (drop (n + len) raw) r) refl

  of_output-HasLength : (x : Expected Bytes Error) → HasLength (of_output enum_name x)
  unfolding of_output parse_cgi_output
  of_output-HasLength (err e) = bad_gateway-HasLength
  of_output-HasLength (ok raw) = at_delimiter-HasLength raw (delimiter raw)

  run_script-HasLength :
      {S : Type 0} (run : Runner S) (h : CgiHandler) (s : S) (request : Request)
      (x : Expected Bytes Errc)
      → HasLength (run_script enum_name run h s request x).1
  unfolding run_script
  run_script-HasLength run h s request (err e) = not_found-HasLength
  run_script-HasLength run h s request (ok path) =
      of_output-HasLength (run s request path h.interpreter_path).1

  -- Whatever a script prints, even a Content-Length of its own, and whatever the runner returns: the
  -- response of CgiHandler has a Content-Length that is the decimal form of the size of its body.
  pub handle_cgi-HasLength :
      {S : Type 0} (run : Runner S) (h : CgiHandler) (s t : S) (request : Request)
      (response : Response)
      → handle_cgi enum_name run h s request ≡ some (t, response)
      → HasLength response
  unfolding handle_cgi
  handle_cgi-HasLength {S} run h s t request response e =
      resolved (resolve_safe_path h.script_root request.uri (codes "index.html")) e
    where
      resolved :
          (o : Option (Expected Bytes Errc))
          → (elim o [ none ↦ none | some r ↦ some (run_script enum_name run h s request r) ])
            ≡ some (t, response)
          → HasLength response
      resolved none e = cc
      resolved (some x) e =
          let q : run_script enum_name run h s request x ≡ (t, response) = cc in
          subst (λ z. HasLength z) (ap (λ (y : S × Response). y.1) q)
            (run_script-HasLength run h s request x)
