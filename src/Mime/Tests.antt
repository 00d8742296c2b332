-- ===== src/Mime/Tests.antt =====
-- Types of some paths.
use barcelona.Base.{◌≡◌, refl}
use barcelona.Base.Text.{codes, equal}
use barcelona.Base.Dict.{lookup}
use barcelona.Mime.{get_mime_type}

types :
    (get_mime_type (codes "/www/a.b/index.html") ≡ codes "text/html; charset=utf-8")
    × (get_mime_type (codes "/www/a.png/x") ≡ codes "application/octet-stream")
    × (get_mime_type (codes "/www/.txt") ≡ codes "application/octet-stream")
    × (get_mime_type (codes "archive.tar.json") ≡ codes "application/json")
unfolding get_mime_type lookup equal
types = (refl, refl, refl, refl)
