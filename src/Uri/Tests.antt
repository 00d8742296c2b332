-- ===== src/Uri/Tests.antt =====
-- Runs of the path normalisation.
use barcelona.Base.{◌≡◌, refl}
use barcelona.Base.Text.{codes, equal, starts_with, find}
use barcelona.Base.Expected.{ok, err}
use barcelona.Uri.Clean.{Clean, normalize_uri_path-Clean}
use barcelona.Uri.Query.{normalize_uri_path_query}
use barcelona.Uri.{lexically_normal, normalize_uri_path, invalid_argument, illegal_byte_sequence}

normal :
    (lexically_normal (codes "/a/./b/../c/") ≡ codes "/a/c/")
    × (lexically_normal (codes "/..") ≡ codes "/")
    × (lexically_normal (codes "/a/.") ≡ codes "/a/")
    × (lexically_normal (codes "a/..") ≡ codes ".")
    × (lexically_normal (codes "../x/../..") ≡ codes "../..")
    × (lexically_normal (codes "./www//index.html") ≡ codes "www/index.html")
unfolding lexically_normal equal
normal = (refl, refl, refl, refl, refl, refl)

requests :
    (normalize_uri_path (codes "/a%20b/%2e%2e/c+d?x=/../y") ≡ ok (codes "/c d"))
    × (normalize_uri_path (codes "//..//../etc///passwd#top") ≡ ok (codes "/etc/passwd"))
    × (normalize_uri_path (codes "index.html") ≡ err invalid_argument)
    × (normalize_uri_path (codes "/%zz") ≡ err illegal_byte_sequence)
    × (normalize_uri_path (codes "/50%") ≡ ok (codes "/50%"))
unfolding normalize_uri_path equal starts_with find
requests = (refl, refl, refl, refl, refl)

normalize_uri_path-Clean_example : Clean (normalize_uri_path (codes "//..//../etc///passwd#top"))
normalize_uri_path-Clean_example = normalize_uri_path-Clean (codes "//..//../etc///passwd#top")

normalize_uri_path_query_example :
    normalize_uri_path (codes "/cgi/a.py?x=1") ≡ normalize_uri_path (codes "/cgi/a.py")
normalize_uri_path_query_example = normalize_uri_path_query b'/' (codes "cgi/a.py") (codes "x=1")
