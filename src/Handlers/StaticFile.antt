-- ===== src/Handlers/StaticFile.antt =====
-- lib/http/handlers/src/StaticFileHandler.cc over the interface of the disk. `none` is the
-- undefined behaviour of resolveSafePath.
use barcelona.Base.{ℕ, Option, none, some, ◌∷◌, if◌then◌else◌, drop, length}
use barcelona.Base.Text.{Bytes, codes, starts_with}
use barcelona.Base.Expected.{Expected, ok, err}
use barcelona.Http.{Method, get, head, delete, Request, Response}
use barcelona.Http.Status.{
  StatusCode, bad_request, not_found, forbidden, internal_server_error, method_not_allowed,
  no_content,
}
use barcelona.Response.{create_stock_response, create_header_only, create_from_file}
use barcelona.SafePath.{
  Errc, no_such_file_or_directory, permission_denied, other, FileInfo, Disk, resolve_safe_path,
  get_file_info,
}

-- `StaticFileHandler(root_path, location_prefix)`
pub record StaticFileHandler : Type 0 where
  pub root_path : Bytes
  pub location_prefix : Bytes

unfoldable pub with_slash : Bytes → Bytes
with_slash s = if starts_with s (codes "/") then s else b'/' ∷ s

unfoldable pub sub_uri : StaticFileHandler → Bytes → Bytes
unfolding with_slash
sub_uri h uri =
    if starts_with uri h.location_prefix
    then with_slash (drop (length h.location_prefix) uri)
    else uri

-- `resolveSafePath(_root_path, sub_uri)`, with its default index file.
unfoldable pub resolved : StaticFileHandler → Request → Option (Expected Bytes Errc)
unfolding sub_uri
resolved h request = resolve_safe_path h.root_path (sub_uri h request.uri) (codes "index.html")

module _ (enum_name : StatusCode → Bytes) {S : Type 0} (disk : Disk S) where
  abbrev stock : StatusCode → Response
  stock = create_stock_response enum_name

  unfoldable pub info_error : Errc → StatusCode
  info_error no_such_file_or_directory = not_found
  info_error permission_denied = forbidden
  info_error (other n) = internal_server_error

  unfoldable pub open_error : Errc → StatusCode
  open_error permission_denied = forbidden
  open_error _ = internal_server_error

  unfoldable pub opened : FileInfo → Expected ℕ Errc → Response
  unfolding open_error
  opened info (err e) = stock (open_error e)
  opened info (ok fd) = create_from_file enum_name info.full_path info.size fd

  unfoldable pub get_or_head : S → Method → Expected FileInfo Errc → Response
  unfolding info_error opened
  get_or_head s method (err e) = stock (info_error e)
  get_or_head s head (ok info) = create_header_only enum_name info.full_path info.size
  get_or_head s _ (ok info) = opened info (disk.open_for_reading s info.full_path)

  unfoldable pub handle_path : S → Method → Expected Bytes Errc → Response
  unfolding get_or_head
  handle_path s method (err e) = stock bad_request
  handle_path s method (ok path) = get_or_head s method (get_file_info disk s path)

  -- `handleGetOrHead`
  unfoldable pub handle_get_or_head : StaticFileHandler → S → Request → Option (S × Response)
  unfolding handle_path
  handle_get_or_head h s request = elim (resolved h request) [
    | none ↦ none
    | some r ↦ some (s, handle_path s request.method r)
  ]

  unfoldable pub delete_error : Errc → StatusCode
  delete_error no_such_file_or_directory = not_found
  delete_error _ = forbidden

  unfoldable pub removed : S × Option Errc → S × Response
  unfolding open_error
  removed (s, none) = (s, stock no_content)
  removed (s, some e) = (s, stock (open_error e))

  unfoldable pub delete_file : S → Expected FileInfo Errc → S × Response
  unfolding delete_error removed
  delete_file s (err e) = (s, stock (delete_error e))
  delete_file s (ok info) = removed (disk.remove s info.full_path)

  unfoldable pub delete_path : S → Expected Bytes Errc → S × Response
  unfolding delete_file
  delete_path s (err e) = (s, stock bad_request)
  delete_path s (ok path) = delete_file s (get_file_info disk s path)

  -- `handleDelete`
  unfoldable pub handle_delete : StaticFileHandler → S → Request → Option (S × Response)
  unfolding delete_path
  handle_delete h s request = elim (resolved h request) [
    | none ↦ none
    | some r ↦ some (delete_path s r)
  ]

  unfoldable pub handle_method : Method → StaticFileHandler → S → Request → Option (S × Response)
  handle_method get h s request = handle_get_or_head h s request
  handle_method head h s request = handle_get_or_head h s request
  handle_method delete h s request = handle_delete h s request
  handle_method _ h s request = some (s, stock method_not_allowed)

  -- `StaticFileHandler::handleRequest`
  unfoldable pub static_file : StaticFileHandler → S → Request → Option (S × Response)
  unfolding handle_method
  static_file h s request = handle_method request.method h s request
