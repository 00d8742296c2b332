-- ===== src/Config/Each.antt =====
-- The servers of a configuration.
use mathlib.Core.Path.{subst}
use barcelona.Base.{◌≡◌, ◌↔◌, refl, ap, Bool, true, false, ◌&&◌, List, [], ◌∷◌}
use barcelona.Base.Text.{codes}
use barcelona.Config.{
  ServerConfig, Config, invalid_argument, Parsed, parsed, refused, thrown, ◌>>=◌, guard, Json,
  LongDouble,
}
use barcelona.Config.Loader.{each, parse_server, parse_config}

-- The two lists are xs long, and what stands at the same place is related.
pub data Pairs {A B : Type 0} (R : A → B → Type 0) : List A → List B → Type 0 where
  no_pair : Pairs R [] []
  pair :
      {a : A} {b : B} {xs : List A} {bs : List B}
      → R a b
      → Pairs R xs bs
      → Pairs R (a ∷ xs) (b ∷ bs)

abbrev pub Parses : {J A : Type 0} → (J → Parsed A) → J → A → Type 0
Parses parse j a = parse j ≡ parsed a

-- Inversion of a bind.
>>=-eq-parsed :
    {A B : Type 0} (m : Parsed A) (f : A → Parsed B) (b : B)
    → (m >>= f) ≡ parsed b
    → (a : A) × (m ≡ parsed a) × (f a ≡ parsed b)
unfolding ◌>>=◌
>>=-eq-parsed (parsed a) f b h = (a, refl, h)
>>=-eq-parsed (refused e) f b h = cc
>>=-eq-parsed thrown f b h = cc

each-Pairs :
    {J A : Type 0} (parse : J → Parsed A) (js : List J) (xs : List A)
    → each parse js ≡ parsed xs
    → Pairs (Parses parse) js xs
unfolding each
each-Pairs parse [] xs h = let e : [] ≡ xs = cc in subst (Pairs (Parses parse) []) e no_pair
each-Pairs parse (j ∷ js) xs h =
    let (a, e, f) = >>=-eq-parsed (parse j) _ xs h in
    let (bs, g, k) = >>=-eq-parsed (each parse js) _ xs f in
    let q : a ∷ bs ≡ xs = cc in
    subst (Pairs (Parses parse) (j ∷ js)) q (pair e (each-Pairs parse js bs g))

Pairs-each :
    {J A : Type 0} (parse : J → Parsed A) {js : List J} {xs : List A}
    → Pairs (Parses parse) js xs
    → each parse js ≡ parsed xs
unfolding each ◌>>=◌
Pairs-each parse no_pair = refl
Pairs-each parse (pair e p) = rw (e, Pairs-each parse p) refl

-- The servers of a configuration that parsed.
in_config : Parsed Config → List ServerConfig
in_config (parsed d) = d.servers
in_config _ = []

guard-true : (b : Bool) {u : Unit {0}} → guard b invalid_argument ≡ parsed u → b ≡ true
guard-true true e = refl
guard-true false e = cc

module _ {J : Type 0} (json : Json J) {D : Type 0} (real : LongDouble D) where
  abbrev pub has_servers : J → Bool
  has_servers j = json.contains j (codes "servers") && json.is_array (json.at j (codes "servers"))

  -- The loader accepts a document as a configuration exactly where it has an array of servers, each
  -- of whose elements parses, as the server that the configuration has at the same place.
  pub parse_config_iff :
      (j : J) (c : Config)
      → (parse_config json real j ≡ parsed c) ↔ (
          (has_servers j ≡ true)
          × Pairs
              (Parses (parse_server json real))
              (json.elements (json.at j (codes "servers")))
              c.servers)
  unfolding parse_config ◌>>=◌ in_config
  parse_config_iff j c = (forth, back)
    where
      forth :
          parse_config json real j ≡ parsed c
          → (has_servers j ≡ true)
            × Pairs
                (Parses (parse_server json real))
                (json.elements (json.at j (codes "servers")))
                c.servers
      forth h =
          let (u, g, f) = >>=-eq-parsed (guard (has_servers j) invalid_argument) _ c h in
          let (servers, k, q) = >>=-eq-parsed (each (parse_server json real) _) _ c f in
          let r : servers ≡ c.servers = ap in_config q in
          (
            guard-true (has_servers j) g,
            subst
                (Pairs (Parses (parse_server json real))
                  (json.elements (json.at j (codes "servers"))))
                r (each-Pairs (parse_server json real) _ servers k),
          )

      back :
          (has_servers j ≡ true)
            × Pairs
                (Parses (parse_server json real))
                (json.elements (json.at j (codes "servers")))
                c.servers
          → parse_config json real j ≡ parsed c
      back (e, p) = rw (e, Pairs-each (parse_server json real) p) refl
