-- ===== src/Response.antt =====
-- Stock responses: reasonPhraseFromEnum of lib/http/common HttpStatus.hpp, and
-- lib/http/utils/src/ResponseFactory.cc. magic_enum's name of a status code is a parameter.
use barcelona.Base.{ℕ, Bool, false, ◌&&◌, ◌||◌, [], ◌∷◌, ◌++◌, leb, if◌then◌else◌, length}
use barcelona.Base.Text.{Bytes, codes}
use barcelona.Base.Dict.{Dict, insert}
use barcelona.Base.Number.{to_string}
use barcelona.Base.Int.{pos}
use barcelona.Mime.{get_mime_type}
use barcelona.Http.{bytes, file, Response, default_response}
use barcelona.Http.Status.{StatusCode, ok, enum_integer}

unfoldable pub is_upper : ℕ → Bool
is_upper c = leb b'A' c && leb c b'Z'

unfoldable pub is_lower : ℕ → Bool
is_lower c = leb b'a' c && leb c b'z'

abbrev starts_lower : Bytes → Bool
starts_lower [] = false
starts_lower (c ∷ s) = is_lower c

-- The loop over the letters behind the first, with the letter before.
unfoldable pub spaced : ℕ → Bytes → Bytes
unfolding is_upper is_lower
spaced before [] = []
spaced before (c ∷ s) =
    if is_upper c && (is_lower before || (starts_lower s && is_upper before))
    then b' ' ∷ c ∷ spaced c s
    else c ∷ spaced c s

unfoldable pub reason_phrase_from_enum : Bytes → Bytes
unfolding spaced
reason_phrase_from_enum [] = codes "Unknown Status"
reason_phrase_from_enum (c ∷ s) = c ∷ spaced c s

-- `createText(body, content_type)`
unfoldable pub create_text : Bytes → Bytes → Response
create_text body content_type = record default_response {
  status_code = pos 200;
  reason_phrase = codes "OK";
  headers =
      insert (codes "Content-Length") (to_string (length body))
        (insert (codes "Content-Type") content_type []);
  body = bytes body;
}

-- `createJson`
unfoldable pub create_json : Bytes → Response
unfolding create_text
create_json body = create_text body (codes "application/json; charset=utf-8")

module _ (enum_name : StatusCode → Bytes) where
  unfoldable pub phrase : StatusCode → Bytes
  phrase code = reason_phrase_from_enum (enum_name code)

  -- `std::to_string(response.status_code) + " " + response.reason_phrase`
  unfoldable pub stock_body : StatusCode → Bytes
  unfolding phrase
  stock_body code = to_string (enum_integer code) ++ (codes " " ++ phrase code)

  unfoldable pub stock_headers : StatusCode → Dict
  unfolding stock_body
  stock_headers code = insert (codes "Content-Length") (to_string (length (stock_body code))) (
      insert (codes "Content-Type") (codes "text/plain; charset=utf-8")
        (insert (codes "Connection") (codes "close") []))

  -- `createStockResponse(code)`, the template and the function.
  unfoldable pub create_stock_response : StatusCode → Response
  unfolding phrase stock_body stock_headers
  create_stock_response code =
      let plain = record default_response {
        status_code = pos (enum_integer code);
        reason_phrase = phrase code;
      } in
      if leb 400 (enum_integer code)
      then record plain { headers = stock_headers code; body = bytes (stock_body code) }
      else plain

  unfoldable pub file_headers : Bytes → ℕ → Dict → Dict
  file_headers mime size m =
      insert (codes "Connection") (codes "close")
        (insert (codes "Content-Length") (to_string size) (insert (codes "Content-Type") mime m))

  -- `createFromFile`, on the path and the size of the file.
  unfoldable pub create_from_file : Bytes → ℕ → ℕ → Response
  unfolding create_stock_response file_headers
  create_from_file full_path size fd =
      let response = create_stock_response ok in
      record response {
        headers = file_headers (get_mime_type full_path) size response.headers;
        body = file (record { fd = fd; size = size; offset = 0 });
      }

  unfoldable pub create_header_only : Bytes → ℕ → Response
  unfolding create_stock_response file_headers
  create_header_only full_path size =
      let response = create_stock_response ok in
      record response { headers = file_headers (get_mime_type full_path) size response.headers }
