-- ===== src/Routing/Tests.antt =====
-- Runs of the routers.
use mathlib.Core.Path.{subst}
use barcelona.Base.{◌≤◌, ◌≡◌, refl, true, none, List, [], ◌∷◌, arith, length, inl, inr}
use barcelona.Base.Text.{Bytes, codes, equal}
use barcelona.Base.Expected.{ok, err}
use barcelona.Http.{Request, Response, default_request, default_response, bytes}
use barcelona.Http.Status.{StatusCode, not_found}
use barcelona.Io.{unknown}
use barcelona.Response.{create_stock_response}
use barcelona.Routing.{RequestHandler, is_answer, method_router, route, longest_prefix_match}
use barcelona.Routing.Keys.{Table, find_key, set_key}
use barcelona.Routing.Choice.{Chosen, route_lem, Found, longest_prefix_match-Found}
use barcelona.Routing.Builder.{Location, Services, location_handler}
use barcelona.Routing.Longest.{Only}

abbrev name : StatusCode → Bytes
name = λ c. codes "NotFound"

abbrev greet : RequestHandler
greet = λ r. ok (record default_response { body = bytes (codes "hi") })

abbrev fail : RequestHandler
fail = λ r. err unknown

route_lem_example :
    Chosen
      (create_stock_response name not_found)
      default_request
      (fail ∷ greet ∷ [])
      (route name (fail ∷ greet ∷ []) default_request)
    × ((r : Response) × (route name (fail ∷ greet ∷ []) default_request ≡ ok r))
route_lem_example = route_lem name (fail ∷ greet ∷ []) default_request

abbrev table : Table Bytes RequestHandler
table = (codes "/", fail) ∷ (codes "/img", greet) ∷ []

longest_prefix_match-Found_example :
    Found (codes "/img/a.png") table (longest_prefix_match table (codes "/img/a.png"))
longest_prefix_match-Found_example = longest_prefix_match-Found (codes "/img/a.png") table

abbrev services : Services
services = record {
  redirect = λ code url r. err unknown;
  cgi = λ root interpreter r. err unknown;
  static_file = λ root path. greet;
  upload = λ root. greet;
}

abbrev location : Bytes → Location
location path = record {
  path = path;
  alias = none;
  methods = none;
  return_directive = none;
  index = none;
  autoindex = none;
  client_max_body_size = none;
  cgi_pass = none;
}

-- The configuration has the shorter path first.
abbrev locations : List Location
locations = location (codes "/") ∷ location (codes "/img") ∷ []

abbrev swap : List Location → List Location
swap (l ∷ m ∷ []) = m ∷ l ∷ []
swap ls = ls

abbrev picture : Request
picture = record default_request { uri = codes "/img/a.png" }

answers :
    is_answer (location_handler services name (codes "/www") (location (codes "/img")) picture)
    ≡ true
unfolding is_answer location_handler equal method_router find_key set_key
answers = refl

too_short : (l : Location) → l ≡ location (codes "/") → 4 ≤ length l.path → ⊥
too_short l e n =
    let f : 4 ≤ 1 = subst (λ (z : Location). 4 ≤ length z.path) e n in omega (arith, f)

only : Only services name (codes "/www") picture (location (codes "/img")) locations
only m i s n = elim i [
  | inl e ↦ absurd (too_short m e n)
  | inr j ↦ elim j [ inl e ↦ e | inr x ↦ absurd x ]
]
