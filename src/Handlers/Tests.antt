-- ===== src/Handlers/Tests.antt =====
-- A redirect and a stock response.
use barcelona.Base.{◌≡◌, Option, some}
use barcelona.Base.Text.{Bytes, codes}
use barcelona.Base.Int.{ℤ, pos}
use barcelona.Base.Expected.{ok}
use barcelona.Http.{default_request, Response}
use barcelona.Http.Status.{StatusCode, moved_permanently, not_found}
use barcelona.Response.{create_stock_response, create_text}
use barcelona.Handlers.{redirect}
use barcelona.Handlers.Lengths.{IsAnnounced, responses-IsAnnounced}

abbrev name : StatusCode → Bytes
name = λ c. codes "NotFound"

abbrev moved : ℤ → Option StatusCode
moved = λ n. some moved_permanently

responses-IsAnnounced_example :
    IsAnnounced (create_stock_response name not_found)
    × IsAnnounced (create_text (codes "hi") (codes "text/plain"))
    × ((r : Response) × (redirect name moved (pos 301) (codes "/new") default_request ≡ ok r)
        × IsAnnounced r)
responses-IsAnnounced_example =
    responses-IsAnnounced name moved not_found (pos 301) (codes "hi") (codes "text/plain")
      (codes "/new") default_request
