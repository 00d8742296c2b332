-- ===== src/Routing/Builder.antt =====
-- src/RouterBuilder.cc: the routers that a server's configuration makes. The handlers are an
-- interface; std::ranges::sort is a parameter.
use barcelona.Base.{ℕ, Bool, false, ◌||◌, Option, none, some, List, [], ◌∷◌, ltb, if◌then◌else◌}
use barcelona.Base.Text.{Bytes, codes, equal}
use barcelona.Base.Dict.{less}
use barcelona.Base.Int.{ℤ}
use barcelona.Http.{Method, get, head, delete, post, put}
use barcelona.Http.Status.{StatusCode}
use barcelona.ProtocolHandler.{Dispatcher}
use barcelona.Routing.{
  RequestHandler, use_handler, same_method, request_router, prefix_router, method_router,
}
use barcelona.Routing.Keys.{Table, set_key}

pub record Redirect : Type 0 where
  pub code : ℤ
  pub url : Bytes

-- LocationConfig
pub record Location : Type 0 where
  pub path : Bytes
  pub alias : Option Bytes
  pub methods : Option (List Bytes)
  pub index : Option Bytes
  pub autoindex : Option Bool
  pub client_max_body_size : Option ℕ
  pub cgi_pass : Option Bytes
  pub return_directive : Option Redirect

-- The handlers that the builder makes, by what their constructors are given.
pub record Services : Type 0 where
  pub redirect : ℤ → Bytes → RequestHandler
  pub cgi : Bytes → Bytes → RequestHandler
  pub static_file : Bytes → Bytes → RequestHandler
  pub upload : Bytes → RequestHandler

-- `alias.value_or(root)`
abbrev pub value_or : Option Bytes → Bytes → Bytes
value_or none root = root
value_or (some s) root = s

-- The enumerators' order, which is that of std::map over methods.
abbrev pub rank : Method → ℕ
rank get = 0
rank head = 1
rank delete = 2
rank post = 3
rank put = 4

-- The chain of comparisons that inserts into `allowed_methods`.
unfoldable pub names_method : Bytes → Method → Bool
names_method s get = equal s (codes "GET")
names_method s post = equal s (codes "POST")
names_method s delete = equal s (codes "DELETE")
names_method s put = equal s (codes "PUT")
names_method s head = equal s (codes "HEAD")

unfoldable pub any_names : List Bytes → Method → Bool
unfolding names_method
any_names [] m = false
any_names (s ∷ ss) m = names_method s m || any_names ss m

-- `allowed_methods.contains(m)`
unfoldable pub is_allowed : Option (List Bytes) → Method → Bool
unfolding any_names
is_allowed none m = same_method m get || same_method m head
is_allowed (some ss) m = any_names ss m

unfoldable pub add_allowed :
    Option (List Bytes)
    → Method
    → RequestHandler
    → Table Method RequestHandler
    → Table Method RequestHandler
unfolding is_allowed
add_allowed methods m h table =
    if is_allowed methods m
    then set_key same_method (λ j k. ltb (rank j) (rank k)) m h table
    else table

module _ (sv : Services) (enum_name : StatusCode → Bytes) (root : Bytes) where
  unfoldable pub method_table : Location → Table Method RequestHandler
  unfolding add_allowed
  method_table loc =
      let document_root = value_or loc.alias root in
      let files = sv.static_file document_root loc.path in
      add_allowed loc.methods post (sv.upload document_root) (
        add_allowed loc.methods delete files
          (add_allowed loc.methods head files (add_allowed loc.methods get files [])))

  unfoldable pub location_handler : Location → RequestHandler
  unfolding method_table
  location_handler loc = elim loc.return_directive [
    | some r ↦ sv.redirect r.code r.url
    | none ↦ elim loc.cgi_pass [
      | some interpreter ↦ sv.cgi (value_or loc.alias root) interpreter
      | none ↦ method_router enum_name (method_table loc)
    ]
  ]

  unfoldable pub location_router : Location → RequestHandler
  location_router loc =
      prefix_router enum_name (set_key equal less loc.path (location_handler loc) [])

  -- The loop over the sorted locations.
  unfoldable pub add_locations : List RequestHandler → List Location → List RequestHandler
  unfolding location_router
  add_locations pipeline [] = pipeline
  add_locations pipeline (loc ∷ locations) =
      add_locations (use_handler (location_router loc) pipeline) locations

  -- `RouterBuilder::build`
  unfoldable pub build : (List Location → List Location) → List Location → Dispatcher
  unfolding add_locations
  build sort locations = request_router enum_name (add_locations [] (sort locations))
