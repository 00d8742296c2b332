-- ===== src/Config/Loader.antt =====
-- lib/config/src/ConfigLoader.cc: parse_location, parse_server and parse_config.
use barcelona.Base.{
  ℕ, ◌%◌, ◌^◌, Bool, true, false, ◌&&◌, Option, none, some, List, [], ◌∷◌, leb, if◌then◌else◌,
}
use barcelona.Base.Text.{Bytes, codes}
use barcelona.Base.Int.{ℤ, pos, negsuc}
use barcelona.Base.Number.{stoi}
use barcelona.Routing.Keys.{Table}
use barcelona.Routing.Builder.{Redirect, Location}
use barcelona.Config.{
  ServerConfig, Config, invalid_argument, Parsed, parsed, refused, ◌>>=◌, ◌>>◌, guard, got, Json,
  LongDouble, parse_body_size, set_page,
}

-- A field that need not be there.
unfoldable pub optional : {A : Type 0} → Bool → Parsed A → Parsed (Option A)
optional false m = parsed none
optional true m = m >>= λ a. parsed (some a)

-- The elements of an array, each by `parse`, in their order.
unfoldable pub each : {J A : Type 0} → (J → Parsed A) → List J → Parsed (List A)
each parse [] = parsed []
each parse (j ∷ js) = do a ← parse j; rest ← each parse js; parsed (a ∷ rest)

-- `port < 0 || port > 65535`, and the cast to uint16_t.
unfoldable pub port_of : ℤ → Parsed ℕ
port_of (pos n) = if leb n 65535 then parsed (n % 2 ^ 16) else refused invalid_argument
port_of (negsuc n) = refused invalid_argument

module _ {J : Type 0} (json : Json J) {D : Type 0} (real : LongDouble D) where
  unfoldable pub string_at : J → Bytes → Parsed Bytes
  string_at j key = got (json.get_string (json.at j key))

  -- A string that must be there.
  unfoldable pub required_string : J → Bytes → Parsed Bytes
  unfolding string_at
  required_string j key = do
    guard (json.contains j key && json.is_string (json.at j key)) invalid_argument
    string_at j key

  unfoldable pub parse_return : J → Parsed Redirect
  unfolding string_at
  parse_return r = do
    guard (json.contains r (codes "code") && json.contains r (codes "url")) invalid_argument
    code ← got (json.get_int (json.at r (codes "code")))
    url ← string_at r (codes "url")
    parsed (record { code = code; url = url })

  unfoldable pub parse_location_size : J → Parsed ℕ
  unfolding string_at
  parse_location_size j = do
    text ← string_at j (codes "client_max_body_size")
    parse_body_size real text

  -- `parse_location`
  unfoldable pub parse_location : J → Parsed Location
  unfolding required_string optional each parse_return parse_location_size
  parse_location j = do
    path ← required_string j (codes "path")
    alias ← optional (json.contains j (codes "alias")) (string_at j (codes "alias"))
    methods ←
        optional (json.contains j (codes "methods") && json.is_array (json.at j (codes "methods")))
          (each (λ m. got (json.get_string m)) (json.elements (json.at j (codes "methods"))))
    index ← optional (json.contains j (codes "index")) (string_at j (codes "index"))
    autoindex ←
        optional (json.contains j (codes "autoindex"))
          (got (json.get_bool (json.at j (codes "autoindex"))))
    size ← optional (json.contains j (codes "client_max_body_size")) (parse_location_size j)
    cgi ← optional (json.contains j (codes "cgi_pass")) (string_at j (codes "cgi_pass"))
    redirect ←
        optional (json.contains j (codes "return") && json.is_object (json.at j (codes "return")))
          (parse_return (json.at j (codes "return")))
    parsed (record {
      path = path;
      alias = alias;
      methods = methods;
      index = index;
      autoindex = autoindex;
      client_max_body_size = size;
      cgi_pass = cgi;
      return_directive = redirect;
    })

  unfoldable pub parse_listen : J → Parsed ℕ
  unfolding port_of
  parse_listen j = do
    guard (json.contains j (codes "listen") && json.is_number (json.at j (codes "listen")))
        invalid_argument
    port ← got (json.get_int64 (json.at j (codes "listen")))
    port_of port

  unfoldable pub add_pages : List (Bytes × J) → Table ℤ Bytes → Parsed (Table ℤ Bytes)
  unfolding set_page
  add_pages [] m = parsed m
  add_pages ((key, page) ∷ pages) m = do
    code ← got (stoi key)
    path ← got (json.get_string page)
    add_pages pages (set_page code path m)

  unfoldable pub parse_pages : J → Parsed (Table ℤ Bytes)
  unfolding add_pages
  parse_pages j =
      if json.contains j (codes "error_pages")
      then (got (json.items (json.at j (codes "error_pages"))) >>= λ pages. add_pages pages [])
      else parsed []

  unfoldable pub parse_locations : J → Parsed (List Location)
  unfolding each
  parse_locations j =
      if json.contains j (codes "locations") && json.is_array (json.at j (codes "locations"))
      then each parse_location (json.elements (json.at j (codes "locations")))
      else parsed []

  -- `parse_server`
  unfoldable pub parse_server : J → Parsed ServerConfig
  unfolding parse_listen required_string parse_pages parse_locations
  parse_server j = do
    listen ← parse_listen j
    name ← got (json.value j (codes "server_name") (codes "default"))
    root ← required_string j (codes "root")
    text ← got (json.value j (codes "client_max_body_size") (codes "1MB"))
    size ← parse_body_size real text
    pages ← parse_pages j
    locations ← parse_locations j
    parsed (record {
      listen = listen;
      server_name = name;
      root = root;
      client_max_body_size = size;
      error_pages = pages;
      locations = locations;
    })

  -- `parse_config`
  unfoldable pub parse_config : J → Parsed Config
  unfolding each
  parse_config j = do
    guard (json.contains j (codes "servers") && json.is_array (json.at j (codes "servers")))
        invalid_argument
    servers ← each parse_server (json.elements (json.at j (codes "servers")))
    parsed (record { servers = servers })
