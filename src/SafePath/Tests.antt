-- ===== src/SafePath/Tests.antt =====
-- Paths below a document root.
use barcelona.Base.{◌≡◌, refl, some}
use barcelona.Base.Text.{codes, equal, find, starts_with}
use barcelona.Base.Expected.{ok, err}
use barcelona.Uri.{lexically_normal, pieces}
use barcelona.SafePath.{resolve_safe_path, permission_denied}
use barcelona.SafePath.Inside.{IsInside, resolve_safe_path-IsInside}

paths :
    (resolve_safe_path (codes "/www") (codes "/") (codes "index.html")
      ≡ some (ok (codes "/www/index.html")))
    × (resolve_safe_path (codes "/www") (codes "/img/a.png") (codes "index.html")
        ≡ some (ok (codes "/www/img/a.png")))
    × (resolve_safe_path (codes "/www") (codes "/../etc/passwd") (codes "index.html")
        ≡ some (err permission_denied))
    × (resolve_safe_path (codes "./www") (codes "/a") (codes "index.html")
        ≡ some (err permission_denied))
    × (resolve_safe_path (codes "/www/") (codes "/a") (codes "index.html")
        ≡ some (err permission_denied))
unfolding resolve_safe_path find starts_with equal lexically_normal pieces
paths = (refl, refl, refl, refl, refl)

served :
    resolve_safe_path (codes "/www") (codes "/img/a.png") (codes "index.html")
    ≡ some (ok (codes "/www/img/a.png"))
served = paths.1

resolve_safe_path-IsInside_example : IsInside (codes "/www") (codes "/www/img/a.png")
resolve_safe_path-IsInside_example =
    resolve_safe_path-IsInside (codes "www") (codes "/img/a.png") (codes "index.html")
      (codes "/www/img/a.png") served
