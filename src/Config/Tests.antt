-- ===== src/Config/Tests.antt =====
-- Documents as trees, and body sizes over whole numbers.
use barcelona.Base.{
  ℕ, ◌≡◌, refl, ◌*◌, ◌^◌, Bool, true, false, Option, none, some, List, [], ◌∷◌, ltb, if◌then◌else◌,
  arith,
}
use barcelona.Base.Text.{Bytes, codes, equal, is_digit, is_alpha, is_space}
use barcelona.Base.Int.{ℤ, pos}
use barcelona.Base.Number.{number, digit_of, drop_while}
use barcelona.Config.{
  Config, invalid_body_size, parsed, refused, ◌>>=◌, Json, LongDouble, parse_body_size, scan_number,
  unit_name, multiplier, or_invalid, in_range, to_upper,
}
use barcelona.Config.Loader.{
  parse_config, parse_server, parse_listen, parse_pages, parse_locations, required_string,
  string_at, each, port_of,
}
use barcelona.Config.Bounds.{IsLongDouble, IsServerOf, parse_config-servers}
use barcelona.Config.Each.{Pairs}

mutual
  data Tree : Type 0 where
    number_of : ℕ → Tree
    text : Bytes → Tree
    array : Trees → Tree
    object : Fields → Tree

  data Trees : Type 0 where
    no_tree : Trees
    tree : Tree → Trees → Trees

  data Fields : Type 0 where
    no_field : Fields
    field : Bytes → Tree → Fields → Fields

unfoldable listed : Trees → List Tree
listed no_tree = []
listed (tree t ts) = t ∷ listed ts

unfoldable named : Bytes → Fields → Option Tree
named key no_field = none
named key (field k t fs) = let rest = named key fs in if equal k key then some t else rest

unfoldable member : Tree → Bytes → Option Tree
unfolding named
member (object fs) key = named key fs
member _ key = none

unfoldable text_of : Tree → Option Bytes
text_of (text s) = some s
text_of _ = none

unfoldable natural : Tree → Option ℤ
natural (number_of n) = some (pos n)
natural _ = none

unfoldable is_some : {A : Type 0} → Option A → Bool
is_some none = false
is_some (some a) = true

or_text : Bytes → Option Tree → Option Bytes
unfolding text_of
or_text s none = some s
or_text s (some t) = text_of t

or_tree : Option Tree → Tree
or_tree none = array no_tree
or_tree (some t) = t

array_of : Tree → Option (List Tree)
unfolding listed
array_of (array ts) = some (listed ts)
array_of _ = none

or_nothing : Option (List Tree) → List Tree
or_nothing none = []
or_nothing (some ts) = ts

abbrev trees : Json Tree
trees = record {
  contains = λ t key. is_some (member t key);
  at = λ t key. or_tree (member t key);
  is_array = λ t. is_some (array_of t);
  is_number = λ t. is_some (natural t);
  is_string = λ t. is_some (text_of t);
  is_object = λ t. false;
  elements = λ t. or_nothing (array_of t);
  items = λ t. none;
  get_int64 = natural;
  get_int = natural;
  get_string = text_of;
  get_bool = λ t. none;
  value = λ t key s. or_text s (member t key);
}

-- Whole numbers, without the fractions.
abbrev whole : LongDouble ℕ
whole = record {
  stold = number 10;
  times = λ d n. d * n;
  is_negative = λ d. false;
  is_above = λ d. if ltb d (2 ^ 64) then false else true;
  round = λ d. d;
}

whole-IsLongDouble : IsLongDouble whole
whole-IsLongDouble = record { round-lt = λ d e f. ground arith }

sizes :
    (parse_body_size whole (codes " 10 kb") ≡ parsed 10240)
    × (parse_body_size whole (codes "1MB") ≡ parsed 1048576)
    × (parse_body_size whole (codes "1.2.3") ≡ refused invalid_body_size)
    × (parse_body_size whole (codes "16x") ≡ refused invalid_body_size)
unfolding parse_body_size scan_number unit_name multiplier or_invalid in_range drop_while is_space
    is_digit is_alpha to_upper equal number digit_of ◌>>=◌
sizes = (refl, refl, refl, refl)

abbrev server : Tree
server =
    object (
      field (codes "listen") (number_of 8080) (field (codes "root") (text (codes "/www")) no_field))

abbrev document : Tree
document = object (field (codes "servers") (array (tree server no_tree)) no_field)

abbrev configuration : Config
configuration = record {
  servers =
      record {
        listen = 8080;
        server_name = codes "default";
        root = codes "/www";
        client_max_body_size = 1048576;
        error_pages = [];
        locations = [];
      }
      ∷ [];
}

loads : parse_config trees whole document ≡ parsed configuration
unfolding parse_config parse_server parse_listen parse_pages parse_locations required_string
    string_at each port_of ◌>>=◌ member is_some or_tree array_of or_nothing natural text_of or_text
    parse_body_size scan_number unit_name multiplier or_invalid in_range drop_while is_space
    is_digit is_alpha to_upper equal number digit_of
loads = refl

parse_config-servers_example :
    Pairs
      (IsServerOf trees whole whole-IsLongDouble)
      (trees.elements (trees.at document (codes "servers")))
      configuration.servers
parse_config-servers_example =
    parse_config-servers trees whole whole-IsLongDouble document configuration loads
