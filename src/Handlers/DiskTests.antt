-- ===== src/Handlers/DiskTests.antt =====
-- Handlers over a disk that holds the files of a list.
use barcelona.Base.{◌≡◌, refl, Bool, true, false, none, some, ◌⊎◌, List, [], ◌∷◌, if◌then◌else◌}
use barcelona.Base.Text.{Bytes, codes, equal, find, starts_with}
use barcelona.Base.Expected.{ok}
use barcelona.Http.{delete, post, default_request, Request}
use barcelona.Http.Status.{StatusCode, no_content}
use barcelona.Mime.{filename}
use barcelona.Uri.{lexically_normal, pieces}
use barcelona.Response.{create_stock_response}
use barcelona.SafePath.{not_found, regular, Disk, append_path, resolve_safe_path, get_file_info}
use barcelona.Handlers.StaticFile.{StaticFileHandler, static_file, resolved, sub_uri, handle_delete}
use barcelona.Handlers.Upload.{is_upload, upload}
use barcelona.Handlers.Touched.{Touches, IsFileName, upload-Touches}
use barcelona.Handlers.Served.{Served, static_file-Served}

abbrev name : StatusCode → Bytes
name = λ c. codes "NoContent"

holds : List Bytes → Bytes → Bool
holds [] p = false
holds (q ∷ fs) p = if equal q p then true else holds fs p

without : List Bytes → Bytes → List Bytes
without [] p = []
without (q ∷ fs) p = if equal q p then without fs p else q ∷ without fs p

abbrev files : Disk (List Bytes)
files = record {
  status = λ fs p. if holds fs p then ok regular else ok not_found;
  file_size = λ fs p. ok 3;
  open_for_reading = λ fs p. ok 7;
  remove = λ fs p. (without fs p, none);
  create = λ fs p. (p ∷ fs, true);
  write = λ fs p body. (fs, true);
}

abbrev handler : StaticFileHandler
handler = record { root_path = codes "/www"; location_prefix = codes "/" }

abbrev removal : Request
removal = record default_request { method = delete; uri = codes "/a.txt" }

removed :
    static_file name files handler (codes "/www/a.txt" ∷ []) removal
    ≡ some ([], create_stock_response name no_content)
unfolding static_file resolved resolve_safe_path sub_uri find starts_with equal lexically_normal
    pieces handle_delete get_file_info holds without
removed = refl

static_file-Served_example :
    Served files
      (codes "/www")
      delete
      (codes "/www/a.txt" ∷ [])
      []
      (create_stock_response name no_content)
static_file-Served_example =
    static_file-Served name files handler (codes "www") refl (codes "/www/a.txt" ∷ []) [] removal
      (create_stock_response name no_content) removed

abbrev sent : Request
sent = record default_request { method = post; uri = codes "/up/a.txt"; body = codes "abc" }

upload-Touches_example :
    let t = (upload name files (codes "/www") [] sent).0 in
    (t ≡ [])
    ⊎ ((is_upload sent.method ≡ true)
        × IsFileName (filename sent.uri)
        × Touches files (append_path (codes "/www") (filename sent.uri)) [] t)
upload-Touches_example = upload-Touches name files (codes "/www") [] sent
