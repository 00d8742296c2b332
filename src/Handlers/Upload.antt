-- ===== src/Handlers/Upload.antt =====
-- lib/http/handlers/src/UploadHandler.cc over the interface of the disk: its handleRequest. The
-- constructor, which creates the root directory, is not modelled.
use barcelona.Base.{Bool, true, false, not, none, some, [], if◌then◌else◌}
use barcelona.Base.Text.{Bytes, codes, equal, find}
use barcelona.Base.Int.{pos}
use barcelona.Http.{Method, post, put, Request, Response}
use barcelona.Http.Status.{StatusCode, bad_request, internal_server_error, method_not_allowed}
use barcelona.Mime.{filename}
use barcelona.Response.{create_stock_response, create_json}
use barcelona.SafePath.{Disk, append_path}

abbrev pub is_upload : Method → Bool
is_upload post = true
is_upload put = true
is_upload _ = false

-- `filename.empty() || filename.string().find("..") != npos`
unfoldable pub is_refused : Bytes → Bool
is_refused name = elim (find name (codes "..")) [ none ↦ equal name [] | some n ↦ true ]

abbrev uploaded : Response
uploaded = record (create_json (codes "{\"message\": \"File uploaded successfully\"}")) {
  status_code = pos 201;
  reason_phrase = codes "Created";
}

module _ (enum_name : StatusCode → Bytes) {S : Type 0} (disk : Disk S) where
  -- Behind `outfile.write`; a failure removes the file.
  unfoldable pub written : Bytes → S × Bool → S × Response
  written destination (s, true) = (s, uploaded)
  written destination (s, false) =
      ((disk.remove s destination).0, create_stock_response enum_name internal_server_error)

  -- Behind the constructor of `outfile`.
  unfoldable pub created : Bytes → Bytes → S × Bool → S × Response
  unfolding written
  created destination body (s, false) = (s, create_stock_response enum_name internal_server_error)
  created destination body (s, true) = written destination (disk.write s destination body)

  unfoldable pub store : Bytes → S → Request → S × Response
  unfolding created
  store destination s request = created destination request.body (disk.create s destination)

  -- `UploadHandler::handleRequest`
  unfoldable pub upload : Bytes → S → Request → S × Response
  unfolding is_refused store
  upload upload_root s request =
      let name = filename request.uri in
      if not (is_upload request.method)
      then (s, create_stock_response enum_name method_not_allowed)
      else if is_refused name
      then (s, create_stock_response enum_name bad_request)
      else store (append_path upload_root name) s request
