-- ===== src/Routing/Longest.antt =====
-- The location that answers a request.
use barcelona.Base.{
  ◌≤◌, ◌≡◌, ◌⊎◌, Bool, true, Option, none, some, List, [], ◌∷◌, if◌then◌else◌, length,
}
use barcelona.Base.Text.{Bytes, starts_with}
use barcelona.Http.{Request}
use barcelona.Http.Status.{StatusCode}
use barcelona.Routing.{RequestHandler}
use barcelona.Routing.Builder.{Location, Services, location_handler, location_router}

abbrev pub In : Location → List Location → Type 0
In l [] = ⊥
In l (m ∷ ms) = (l ≡ m) ⊎ In l ms

-- Longer paths first.
abbrev pub Sorted : List Location → Type 0
Sorted [] = Unit
Sorted (l ∷ ls) = ((m : Location) → In m ls → length m.path ≤ length l.path) × Sorted ls

-- What the builder relies on in std::ranges::sort with its comparison.
pub record Sorts (ls sorted : List Location) : Type 0 where
  pub is_sorted : Sorted sorted
  pub keeps : (l : Location) → In l ls → In l sorted
  pub adds_none : (l : Location) → In l sorted → In l ls

module _ (sv : Services) (enum_name : StatusCode → Bytes) (root : Bytes) where
  abbrev handler : Location → RequestHandler
  handler = location_handler sv enum_name root

  abbrev router : Location → RequestHandler
  router = location_router sv enum_name root

  abbrev only_entry : Location → Bool → Bytes × Option RequestHandler
  only_entry l b = if b then (l.path, some (handler l)) else ([], none)

  module _ (request : Request) (loc : Location) where
    -- Every location that matches with a path at least as long is this one.
    abbrev pub Only : List Location → Type 0
    Only ls =
        (m : Location)
        → In m ls
        → starts_with request.uri m.path ≡ true
        → length loc.path ≤ length m.path
        → m ≡ loc
