-- ===== src/Base/Dict.antt =====
-- std::map<std::string, std::string> as an association list in the order of its keys.
use mathlib.Core.Path.{◌≡◌, refl}
use mathlib.Core.Bool.{Bool, true, false, ◌&&◌, ◌||◌}
use mathlib.Core.Option.{Option, none, some}
use mathlib.Core.List.{List, [], ◌∷◌}
use native.Mathlib.Omega.{arith}
use barcelona.Base.Tests.{ltb, ◌==◌, if◌then◌else◌}
use barcelona.Base.Text.{Bytes, equal, equal_iff}

-- The order of std::string.
unfoldable pub less : Bytes → Bytes → Bool
less [] [] = false
less [] (y ∷ b) = true
less (x ∷ a) [] = false
less (x ∷ a) (y ∷ b) = ltb x y || (x == y && less a b)

abbrev pub Dict : Type 0
Dict = List (Bytes × Bytes)

-- `m.find(k)`, with `none` for end()
unfoldable pub lookup : Bytes → Dict → Option Bytes
lookup k [] = none
lookup k ((j, v) ∷ m) = if equal j k then some v else lookup k m

-- `m[k] = v`
unfoldable pub insert : Bytes → Bytes → Dict → Dict
unfolding less
insert k v [] = (k, v) ∷ []
insert k v ((j, w) ∷ m) =
    if equal j k
    then (k, v) ∷ m
    else if less k j
    then (k, v) ∷ (j, w) ∷ m
    else (j, w) ∷ insert k v m

-- `m.contains(k)`
abbrev pub contains : Bytes → Dict → Bool
contains k m = elim (lookup k m) [ none ↦ false | some _ ↦ true ]

pub lookup-insert :
    (k j v : Bytes) (m : Dict)
    → lookup j (insert k v m) ≡ (if equal k j then some v else lookup j m)
unfolding lookup insert
lookup-insert k j v [] = refl
lookup-insert k j v ((key, value) ∷ rest) =
    ground (arith, equal_iff k j, equal_iff key k, equal_iff key j, lookup-insert k j v rest)

pub equal_refl : (k : Bytes) → equal k k ≡ true
equal_refl k = (equal_iff k k).1 refl

pub lookup-insert_self : (k v : Bytes) (m : Dict) → lookup k (insert k v m) ≡ some v
lookup-insert_self k v m = ground (arith, lookup-insert k k v m, equal_refl k)
