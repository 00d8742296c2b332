-- ===== src/Config.antt =====
-- lib/config/src/ConfigLoader.cc: from a JSON document to a configuration. The JSON library and the
-- arithmetic of long double are interfaces; the messages of errors are left out.
pub mod Loader
pub mod Bounds
pub mod Each
mod Tests
use barcelona.Base.{
  ℕ, ◌+◌, ◌-◌, ◌*◌, ◌^◌, Bool, true, false, not, ◌&&◌, ◌||◌, Option, none, some, List, [], ◌∷◌, leb,
  ltb, ◌==◌, if◌then◌else◌,
}
use barcelona.Base.Text.{Bytes, codes, equal, is_digit, is_space, is_alpha}
use barcelona.Base.Int.{ℤ, pos, negsuc, ltb_ℤ}
use barcelona.Base.Number.{drop_while, stoi}
use barcelona.Routing.Keys.{Table, set_key}
use barcelona.Routing.Builder.{Redirect, Location}

pub record ServerConfig : Type 0 where
  pub listen : ℕ
  pub server_name : Bytes
  pub root : Bytes
  pub client_max_body_size : ℕ
  pub error_pages : Table ℤ Bytes
  pub locations : List Location

pub record Config : Type 0 where
  pub servers : List ServerConfig

-- std::errc::invalid_argument and ErrorCode::Config_InvalidBodySize
pub data ConfigError : Type 0 where
  invalid_argument invalid_body_size : ConfigError

-- A result, an error that is returned, or an exception that is not caught.
pub data Parsed (A : Type 0) : Type 0 where
  parsed : A → Parsed A
  refused : ConfigError → Parsed A
  thrown : Parsed A

infixl 5 ◌>>=◌ ◌>>◌
unfoldable pub ◌>>=◌ : {A B : Type 0} → Parsed A → (A → Parsed B) → Parsed B
parsed a >>= f = f a
refused e >>= f = refused e
thrown >>= f = thrown

abbrev pub ◌>>◌ : {B : Type 0} → Parsed (Unit {0}) → Parsed B → Parsed B
m >> k = m >>= λ _. k

abbrev pub guard : Bool → ConfigError → Parsed (Unit {0})
guard true e = parsed tt
guard false e = refused e

-- What an accessor of the JSON library throws.
abbrev pub got : {A : Type 0} → Option A → Parsed A
got none = thrown
got (some a) = parsed a

-- nlohmann::json, as far as the loader uses it; `none` is an exception.
pub record Json (J : Type 0) : Type 0 where
  pub contains : J → Bytes → Bool
  pub at : J → Bytes → J
  pub is_array : J → Bool
  pub is_number : J → Bool
  pub is_string : J → Bool
  pub is_object : J → Bool
  pub elements : J → List J
  pub items : J → Option (List (Bytes × J))
  pub get_int64 : J → Option ℤ
  pub get_int : J → Option ℤ
  pub get_string : J → Option Bytes
  pub get_bool : J → Option Bool
  pub value : J → Bytes → Bytes → Option Bytes

-- long double, as far as the loader uses it: std::stold, the product with a multiplier, `< 0`,
-- `>` the greatest size_t, and std::round with the cast to size_t.
pub record LongDouble (D : Type 0) : Type 0 where
  pub stold : Bytes → Option D
  pub times : D → ℕ → D
  pub is_negative : D → Bool
  pub is_above : D → Bool
  pub round : D → ℕ

unfoldable pub push_digit : ℕ → Option (Bytes × Bytes) → Option (Bytes × Bytes)
push_digit c none = none
push_digit c (some (n, rest)) = some (c ∷ n, rest)

-- The numeric part and the rest, with whether a dot was seen; `none` is a second dot.
unfoldable pub scan_number : Bool → Bytes → Option (Bytes × Bytes)
unfolding is_digit push_digit
scan_number dot [] = some ([], [])
scan_number dot (c ∷ s) =
    let after_digit = push_digit c (scan_number dot s) in
    let after_dot = push_digit c (scan_number true s) in
    if is_digit c
    then after_digit
    else if c == b'.'
    then (if dot then none else after_dot)
    else some ([], c ∷ s)

unfoldable pub to_upper : ℕ → ℕ
to_upper c = if leb b'a' c && leb c b'z' then c - 32 else c

unfoldable pub push_letter : ℕ → Option Bytes → Option Bytes
unfolding to_upper
push_letter c none = none
push_letter c (some u) = some (to_upper c ∷ u)

-- The letters of the unit in upper case; `none` is an unexpected character.
unfoldable pub unit_name : Bytes → Option Bytes
unfolding is_alpha is_space push_letter
unit_name [] = some []
unit_name (c ∷ s) =
    let rest = unit_name s in
    if is_alpha c then push_letter c rest else if is_space c then rest else none

-- The table of multipliers; 0 is an unknown unit.
unfoldable pub multiplier : Bytes → ℕ
unfolding equal
multiplier u =
    if equal u [] || equal u (codes "B")
    then 1
    else if equal u (codes "K") || equal u (codes "KB")
    then 1024
    else if equal u (codes "M") || equal u (codes "MB")
    then 1024 * 1024
    else if equal u (codes "G") || equal u (codes "GB")
    then 1024 * 1024 * 1024
    else 0

unfoldable pub or_invalid : {A : Type 0} → Option A → Parsed A
or_invalid none = refused invalid_body_size
or_invalid (some a) = parsed a

abbrev pub is_empty : Bytes → Bool
is_empty s = equal s []

-- `m[code] = page`
unfoldable pub set_page : ℤ → Bytes → Table ℤ Bytes → Table ℤ Bytes
unfolding set_key
set_page = set_key (λ a b. not (ltb_ℤ a b) && not (ltb_ℤ b a)) ltb_ℤ

module _ {D : Type 0} (real : LongDouble D) where
  -- `result > max` and the cast.
  unfoldable pub in_range : D → Parsed ℕ
  in_range d =
      if real.is_negative d || real.is_above d
      then refused invalid_body_size
      else parsed (real.round d)

  -- `parse_body_size`
  unfoldable pub parse_body_size : Bytes → Parsed ℕ
  unfolding scan_number unit_name multiplier or_invalid in_range
  parse_body_size text = do
    let s = drop_while is_space text
    guard (not (is_empty s)) invalid_body_size
    scanned ← or_invalid (scan_number false s)
    guard (not (is_empty scanned.0)) invalid_body_size
    unit ← or_invalid (unit_name (drop_while is_space scanned.1))
    number ← or_invalid (real.stold scanned.0)
    guard (not (multiplier unit == 0)) invalid_body_size
    in_range (real.times number (multiplier unit))
