-- ===== src/Routing/Keys.antt =====
-- std::map from keys to handlers, as far as the routers use it: an association list in the order
-- of the keys.
use barcelona.Base.{
  arith, ◌≡◌, ◌↔◌, refl, Bool, true, Option, none, some, List, [], ◌∷◌, if◌then◌else◌,
}

abbrev pub Table : Type 0 → Type 0 → Type 0
Table K V = List (K × V)

-- `m.find(key)`
unfoldable pub find_key : {K V : Type 0} → (K → K → Bool) → K → Table K V → Option V
find_key same k [] = none
find_key same k ((j, v) ∷ m) = let rest = find_key same k m in if same j k then some v else rest

-- `m[key] = value`, with the order of the keys.
unfoldable pub set_key :
    {K V : Type 0} → (K → K → Bool) → (K → K → Bool) → K → V → Table K V → Table K V
set_key same before k v [] = (k, v) ∷ []
set_key same before k v ((j, w) ∷ m) =
    let rest = set_key same before k v m in
    if same j k then (k, v) ∷ m else if before k j then (k, v) ∷ (j, w) ∷ m else (j, w) ∷ rest

-- After `m[key] = value`, find gives the value under this key and what it gave before under every
-- other, where `same` is equality.
pub find_key-set_key :
    {K V : Type 0} (same before : K → K → Bool)
    → ((j k : K) → (same j k ≡ true) ↔ (j ≡ k))
    → (k j : K) (v : V) (m : Table K V)
    → find_key same j (set_key same before k v m) ≡ (if same k j then some v else find_key same j m)
unfolding find_key set_key
find_key-set_key same before laws k j v [] = refl
find_key-set_key same before laws k j v ((i, w) ∷ m) = ground (
  arith,
  laws k j,
  laws i k,
  laws i j,
  laws k k,
  laws j j,
  find_key-set_key same before laws k j v m,
)
