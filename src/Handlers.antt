-- ===== src/Handlers.antt =====
-- Request handlers, lib/http/handlers: RedirectHandler (src/RedirectHandler.cc). magic_enum's cast
-- of a number to a status code and its names are parameters.
pub mod Lengths
pub mod StaticFile
pub mod Upload
pub mod Cgi
pub mod CgiRunner
pub mod CgiOutput
pub mod Touched
pub mod Served
mod Tests
mod DiskTests
mod CgiTests
use barcelona.Base.{
  ℕ, Bool, true, false, ◌&&◌, Option, none, some, List, [], ◌++◌, leb, ltb, if◌then◌else◌, length,
}
use barcelona.Base.Text.{Bytes, codes}
use barcelona.Base.Dict.{insert}
use barcelona.Base.Int.{ℤ}
use barcelona.Base.Number.{to_string}
use barcelona.Base.Expected.{Expected, ok}
use barcelona.Http.{bytes, Request, Response}
use barcelona.Http.Status.{StatusCode, internal_server_error, enum_integer}
use barcelona.Io.{Error}
use barcelona.Response.{create_stock_response}

unfoldable pub redirect_body : Bytes → Bytes
redirect_body target_url =
    codes
      "<!DOCTYPE html><html><head><title>Redirect</title></head><body><p>This page has moved to <a href=\""
    ++ (target_url ++ (codes "\">" ++ (target_url ++ codes "</a>.</p></body></html>")))

-- `code >= StatusCode::MultipleChoices && code < StatusCode::BadRequest`
unfoldable pub is_redirect : StatusCode → Bool
is_redirect code = leb 300 (enum_integer code) && ltb (enum_integer code) 400

unfoldable pub with_target : Bytes → Response → Response
unfolding redirect_body
with_target target_url response = record response {
  headers = insert (codes "Content-Length") (to_string (length (redirect_body target_url))) (
      insert (codes "Content-Type") (codes "text/html; charset=utf-8")
        (insert (codes "Location") target_url response.headers));
  body = bytes (redirect_body target_url);
}

module _ (enum_name : StatusCode → Bytes) (status_of : ℤ → Option StatusCode) where
  redirect_to : Option StatusCode → Bytes → Response
  unfolding is_redirect with_target
  redirect_to none target_url = create_stock_response enum_name internal_server_error
  redirect_to (some code) target_url =
      if is_redirect code
      then with_target target_url (create_stock_response enum_name code)
      else create_stock_response enum_name internal_server_error

  -- `RedirectHandler::handleRequest`
  unfoldable pub redirect : ℤ → Bytes → Request → Expected Response Error
  unfolding redirect_to
  redirect status_code target_url request = ok (redirect_to (status_of status_code) target_url)
