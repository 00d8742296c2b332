-- ===== src/Routing.antt =====
-- lib/http/routing: RequestRouter (src/RequestRouter.cc), and LongestPrefixMatch, ExactKeyMatch and
-- GenericRouter (include/http/routing/GenericRouter.hpp) with ExactRouter.hpp. A handler is what its
-- handleRequest does. Paths are below project/Webserv.
pub mod Keys
pub mod Choice
pub mod Builder
pub mod Longest
mod Tests
use barcelona.Base.{
  ℕ, Bool, true, false, not, ◌&&◌, Option, none, some, List, [], ◌∷◌, ◌++◌, ltb, ◌==◌,
  if◌then◌else◌, length,
}
use barcelona.Base.Text.{Bytes, equal, starts_with}
use barcelona.Base.Int.{ℤ, pos, negsuc}
use barcelona.Base.Expected.{Expected, ok, err}
use barcelona.Http.{Method, get, head, delete, post, put, Request, Response}
use barcelona.Http.Status.{StatusCode, not_found, method_not_allowed}
use barcelona.Io.{Error}
use barcelona.Response.{create_stock_response}
use barcelona.ProtocolHandler.{Dispatcher}
use Keys.{Table, find_key}

-- IRequestHandler
abbrev pub RequestHandler : Type 0
RequestHandler = Request → Expected Response Error

-- `response.status_code != 404`
unfoldable pub is_found : ℤ → Bool
is_found (pos n) = not (n == 404)
is_found (negsuc n) = true

-- Whether `RequestRouter` returns what a handler gave.
unfoldable pub is_answer : Expected Response Error → Bool
unfolding is_found
is_answer (ok r) = is_found r.status_code
is_answer (err e) = false

-- `RequestRouter::use`
unfoldable pub use_handler : RequestHandler → List RequestHandler → List RequestHandler
use_handler h pipeline = pipeline ++ (h ∷ [])

-- `LongestPrefixMatch`: the loop, with the best prefix and the best handler so far.
unfoldable pub longest_prefix :
    Bytes
    → Bytes × Option RequestHandler
    → Table Bytes RequestHandler
    → Bytes × Option RequestHandler
longest_prefix uri best [] = best
longest_prefix uri best ((prefix, h) ∷ handlers) =
    longest_prefix uri
      (if starts_with uri prefix && ltb (length best.0) (length prefix)
        then (prefix, some h)
        else best)
      handlers

unfoldable pub longest_prefix_match : Table Bytes RequestHandler → Bytes → Option RequestHandler
longest_prefix_match handlers uri = (longest_prefix uri ([], none) handlers).1

abbrev pub same_method : Method → Method → Bool
same_method get get = true
same_method head head = true
same_method delete delete = true
same_method post post = true
same_method put put = true
same_method _ _ = false

module _ (enum_name : StatusCode → Bytes) where
  -- `RequestRouter::handleRequest`
  unfoldable pub route : List RequestHandler → Request → Expected Response Error
  route [] request = ok (create_stock_response enum_name not_found)
  route (h ∷ pipeline) request =
      let rest = route pipeline request in if is_answer (h request) then h request else rest

  -- RequestRouter as an IRequestDispatcher.
  unfoldable pub request_router : List RequestHandler → Dispatcher
  request_router pipeline = record {
    handle_request = route pipeline;
    handle_error = create_stock_response enum_name;
  }

  -- `GenericRouter::handleRequest` behind the match.
  unfoldable pub serve : StatusCode → Option RequestHandler → RequestHandler
  serve missing none request = ok (create_stock_response enum_name missing)
  serve missing (some h) request = h request

  -- PrefixRouter
  unfoldable pub prefix_router : Table Bytes RequestHandler → RequestHandler
  unfolding serve
  prefix_router handlers request =
      serve not_found (longest_prefix_match handlers request.uri) request

  -- MethodRouter
  unfoldable pub method_router : Table Method RequestHandler → RequestHandler
  unfolding serve
  method_router handlers request =
      serve method_not_allowed (find_key same_method request.method handlers) request

  -- ExactRouter
  unfoldable pub exact_router : Table (Method × Bytes) RequestHandler → RequestHandler
  unfolding serve
  exact_router handlers request =
      serve not_found
        (find_key (λ (j k : Method × Bytes). same_method j.0 k.0 && equal j.1 k.1)
          (request.method, request.uri) handlers)
        request
