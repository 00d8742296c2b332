-- ===== src/Config/Bounds.antt =====
-- The servers of a configuration that the loader accepts, and its numbers.
use mathlib.Core.Path.{subst}
use barcelona.Base.{
  ℕ, ◌%◌, ◌≡◌, refl, ap, ◌∙◌, ◌^◌, arith, ◌≤◌, ◌<◌, Bool, true, false, ◌&&◌, Option, none, some,
  List, [], ◌∷◌, leb, leb→le, Bool-cases, inl, inr,
}
use barcelona.Base.Text.{Bytes, codes}
use barcelona.Base.Int.{ℤ, pos, negsuc}
use barcelona.Routing.Builder.{Location}
use barcelona.Config.{
  ServerConfig, Config, Parsed, parsed, refused, thrown, ◌>>=◌, Json, LongDouble, parse_body_size,
  in_range, got,
}
use barcelona.Config.Loader.{
  optional, each, port_of, parse_location_size, parse_location, parse_listen, parse_locations,
  parse_server, parse_config, required_string, string_at,
}
use barcelona.Config.Each.{Pairs, no_pair, pair, Parses, parse_config_iff}

-- What parses has the property; nothing is said of errors.
abbrev pub Ends : {A : Type 0} → (A → Type 0) → Parsed A → Type 0
Ends P (parsed a) = P a
Ends P (refused e) = Unit
Ends P thrown = Unit

unfoldable pub All : {A : Type 0} → (A → Type 0) → List A → Type 0
All P [] = Unit
All P (x ∷ xs) = P x × All P xs

Ends-bind :
    {A B : Type 0} (Q : A → Type 0) (P : B → Type 0) (m : Parsed A) (f : A → Parsed B)
    → Ends Q m
    → ((a : A) → Q a → Ends P (f a))
    → Ends P (m >>= f)
unfolding ◌>>=◌
Ends-bind Q P (parsed a) f q h = h a q
Ends-bind Q P (refused e) f q h = tt
Ends-bind Q P thrown f q h = tt

Ends-then :
    {A B : Type 0} (P : B → Type 0) (m : Parsed A) (f : A → Parsed B)
    → ((a : A) → Ends P (f a))
    → Ends P (m >>= f)
unfolding ◌>>=◌
Ends-then P (parsed a) f h = h a
Ends-then P (refused e) f h = tt
Ends-then P thrown f h = tt

Ends-map :
    {A : Type 0} {P Q : A → Type 0} → ((a : A) → P a → Q a) → (m : Parsed A) → Ends P m → Ends Q m
Ends-map f (parsed a) h = f a h
Ends-map f (refused e) h = tt
Ends-map f thrown h = tt

Ends-each :
    {J A : Type 0} (P : A → Type 0) (parse : J → Parsed A)
    → ((j : J) → Ends P (parse j))
    → (js : List J) → Ends (All P) (each parse js)
unfolding each All
Ends-each P parse h [] = tt
Ends-each P parse h (j ∷ js) =
    Ends-bind P (All P) (parse j) _ (h j) (λ a p.
      Ends-bind (All P) (All P) (each parse js) _ (Ends-each P parse h js) (λ rest q. (p, q)))

-- The cast of a number that is not negative and not above the greatest size_t is below 2^64.
pub record IsLongDouble {D : Type 0} (real : LongDouble D) : Type 0 where
  pub round-lt :
      (d : D) → real.is_negative d ≡ false → real.is_above d ≡ false → real.round d < 2 ^ 64

module _ {D : Type 0} (real : LongDouble D) (laws : IsLongDouble real) where
  in_range-lt : (d : D) → Ends (λ n. n < 2 ^ 64) (in_range real d)
  unfolding in_range
  in_range-lt d = elim (Bool-cases (real.is_negative d)) [
    | inl e ↦ rw e tt
    | inr e ↦ elim (Bool-cases (real.is_above d)) [
      | inl f ↦ rw (e, f) tt
      | inr f ↦ rw (e, f) (laws.round-lt d e f)
    ]
  ]

  parse_body_size-lt : (text : Bytes) → Ends (λ n. n < 2 ^ 64) (parse_body_size real text)
  unfolding parse_body_size
  parse_body_size-lt text = Ends-then _ _ _ (λ a. Ends-then _ _ _ (λ b.
      Ends-then _ _ _
        (λ c. Ends-then _ _ _ (λ d. Ends-then _ _ _ (λ e. Ends-then _ _ _ (λ f. in_range-lt _))))))

  abbrev pub IsBelow : Option ℕ → Type 0
  IsBelow none = Unit
  IsBelow (some n) = n < 2 ^ 64

  optional-IsBelow :
      (b : Bool) (m : Parsed ℕ) → Ends (λ n. n < 2 ^ 64) m → Ends IsBelow (optional b m)
  unfolding optional
  optional-IsBelow false m h = tt
  optional-IsBelow true m h = Ends-bind (λ n. n < 2 ^ 64) IsBelow m _ h (λ n q. q)

-- The port is the number that it is made of.
port_of-eq : (z : ℤ) → Ends (λ n. (z ≡ pos n) × (n ≤ 65535)) (port_of z)
unfolding port_of
port_of-eq (pos n) = elim (Bool-cases (leb n 65535)) [
  | inl e ↦ let small : n ≤ 65535 = leb→le n 65535 e in rw e (ap pos (same n small), below n small)
  | inr e ↦ rw e tt
]
  where
    same : (n : ℕ) → n ≤ 65535 → n ≡ n % 2 ^ 16
    same n h = omega arith

    below : (n : ℕ) → n ≤ 65535 → n % 2 ^ 16 ≤ 65535
    below n h = omega arith
port_of-eq (negsuc n) = tt

Ends-got : {A : Type 0} (o : Option A) → Ends (λ a. o ≡ some a) (got o)
Ends-got none = tt
Ends-got (some a) = refl

module _ {J : Type 0} (json : Json J) {D : Type 0} (real : LongDouble D)
    (laws : IsLongDouble real) where
  abbrev pub HasBound : Location → Type 0
  HasBound l = IsBelow real laws l.client_max_body_size

  parse_location-HasBound : (j : J) → Ends HasBound (parse_location json real j)
  unfolding parse_location parse_location_size
  parse_location-HasBound j = Ends-then _ _ _ (λ path. Ends-then _ _ _ (λ alias.
      Ends-then _ _ _ (λ methods. Ends-then _ _ _ (λ index. Ends-then _ _ _ (λ autoindex.
        Ends-bind (IsBelow real laws) _ _ _
          (optional-IsBelow real laws _ _
            (Ends-then _ _ _ (λ text. parse_body_size-lt real laws text)))
          (λ size q. Ends-then _ _ _ (λ cgi. Ends-then _ _ _ (λ redirect. q))))))))

  parse_locations-HasBound : (j : J) → Ends (All HasBound) (parse_locations json real j)
  unfolding parse_locations All
  parse_locations-HasBound j =
      elim (Bool-cases
        (json.contains j (codes "locations") && json.is_array (json.at j (codes "locations")))) [
          | inl e ↦ rw e (Ends-each HasBound (parse_location json real) parse_location-HasBound _)
          | inr e ↦ rw e tt
        ]

  -- A server as its object in the document has it: its port, name and root are the values of the
  -- document, and its numbers are in their ranges.
  abbrev pub IsServerOf : J → ServerConfig → Type 0
  IsServerOf j s =
      ((json.get_int64 (json.at j (codes "listen")) ≡ some (pos s.listen)) × (s.listen ≤ 65535))
      × ((json.value j (codes "server_name") (codes "default") ≡ some s.server_name)
          × ((json.get_string (json.at j (codes "root")) ≡ some s.root)
              × ((s.client_max_body_size < 2 ^ 64) × All HasBound s.locations)))

  parse_listen-eq :
      (j : J)
      → Ends
          (λ n. (json.get_int64 (json.at j (codes "listen")) ≡ some (pos n)) × (n ≤ 65535))
          (parse_listen json real j)
  unfolding parse_listen
  parse_listen-eq j = Ends-then _ _ _ (λ a.
      Ends-bind (λ z. json.get_int64 (json.at j (codes "listen")) ≡ some z) _ _ _ (Ends-got _)
        (λ z e. of_port z e (port_of-eq z)))
    where
      of_port :
          (z : ℤ)
          → json.get_int64 (json.at j (codes "listen")) ≡ some z
          → Ends (λ n. (z ≡ pos n) × (n ≤ 65535)) (port_of z)
          → Ends
              (λ n. (json.get_int64 (json.at j (codes "listen")) ≡ some (pos n)) × (n ≤ 65535))
              (port_of z)
      of_port z e h = Ends-map (λ n (f, l). (e ∙ ap some f, l)) (port_of z) h

  required_string-eq :
      (j : J) (key : Bytes)
      → Ends (λ s. json.get_string (json.at j key) ≡ some s) (required_string json real j key)
  unfolding required_string string_at
  required_string-eq j key = Ends-then _ _ _ (λ a. Ends-got _)

  parse_server-IsServerOf : (j : J) → Ends (IsServerOf j) (parse_server json real j)
  unfolding parse_server
  parse_server-IsServerOf j =
      Ends-bind (λ n. (json.get_int64 (json.at j (codes "listen")) ≡ some (pos n)) × (n ≤ 65535)) _
        _ _ (parse_listen-eq j)
        (λ listen p.
          Ends-bind (λ n. json.value j (codes "server_name") (codes "default") ≡ some n) _ _ _
            (Ends-got _)
            (λ name q.
              Ends-bind (λ r. json.get_string (json.at j (codes "root")) ≡ some r) _ _ _
                (required_string-eq j (codes "root"))
                (λ root r. Ends-then _ _ _ (λ text.
                  Ends-bind (λ n. n < 2 ^ 64) _ _ _ (parse_body_size-lt real laws text)
                    (λ size b. Ends-then _ _ _ (λ pages.
                      Ends-bind (All HasBound) _ _ _ (parse_locations-HasBound j)
                        (λ locations l. (p, (q, (r, (b, l)))))))))))

  AreServers :
      {js : List J} {servers : List ServerConfig}
      → Pairs (Parses (parse_server json real)) js servers
      → Pairs IsServerOf js servers
  AreServers no_pair = no_pair
  AreServers (pair {a} {b} e more) =
      pair (subst (Ends (IsServerOf a)) e (parse_server-IsServerOf a)) (AreServers more)

  -- A configuration that the loader accepts has a server for each element of the document's array of
  -- servers, in the same order: its port, as a uint16_t, is the number of the document and at most
  -- 65535, its name and its root are those of the document, and its body size and those of its
  -- locations are below 2^64, where the cast of a long double that is not negative and not above the
  -- greatest size_t is.
  pub parse_config-servers :
      (j : J) (c : Config)
      → parse_config json real j ≡ parsed c
      → Pairs IsServerOf (json.elements (json.at j (codes "servers"))) c.servers
  parse_config-servers j c e = AreServers ((parse_config_iff json real j c).0 e).1
