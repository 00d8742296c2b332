-- ===== src/Base/Assoc.antt =====
-- std::unordered_map with numbers as keys, as far as the code uses it: an association list.
use Prim.Native.Nat.{ℕ}
use mathlib.Core.Path.{◌≡◌, refl}
use mathlib.Core.Logic.{◌≢◌}
use mathlib.Core.Option.{Option, none, some}
use mathlib.Core.List.{List, [], ◌∷◌}
use native.Mathlib.Omega.{arith}
use barcelona.Base.Tests.{◌==◌, if◌then◌else◌}

abbrev pub Assoc : Type 0 → Type 0
Assoc A = List (ℕ × A)

-- `m.find(k)`
unfoldable pub get : {A : Type 0} → ℕ → Assoc A → Option A
get k [] = none
get k ((j, v) ∷ m) = let rest = get k m in if j == k then some v else rest

-- `m[k] = v`
unfoldable pub put : {A : Type 0} → ℕ → A → Assoc A → Assoc A
put k v [] = (k, v) ∷ []
put k v ((j, w) ∷ m) = let rest = put k v m in if j == k then (k, v) ∷ m else (j, w) ∷ rest

-- `m.erase(k)`
unfoldable pub erase : {A : Type 0} → ℕ → Assoc A → Assoc A
erase k [] = []
erase k ((j, w) ∷ m) = let rest = erase k m in if j == k then rest else (j, w) ∷ rest

pub get-put_self : {A : Type 0} (k : ℕ) (v : A) (m : Assoc A) → get k (put k v m) ≡ some v
unfolding get put
get-put_self k v [] = ground arith
get-put_self k v ((j, w) ∷ m) = ground (arith, get-put_self k v m)

pub get-put_other :
    {A : Type 0} (j k : ℕ) (v : A) (m : Assoc A) → j ≢ k → get j (put k v m) ≡ get j m
unfolding get put
get-put_other j k v [] h = ground arith
get-put_other j k v ((i, w) ∷ m) h = ground (arith, get-put_other j k v m h)

pub get-erase_self : {A : Type 0} (k : ℕ) (m : Assoc A) → get k (erase k m) ≡ none
unfolding get erase
get-erase_self k [] = refl
get-erase_self k ((j, w) ∷ m) = ground (arith, get-erase_self k m)

pub get-erase_other : {A : Type 0} (j k : ℕ) (m : Assoc A) → j ≢ k → get j (erase k m) ≡ get j m
unfolding get erase
get-erase_other j k [] h = refl
get-erase_other j k ((i, w) ∷ m) h = ground (arith, get-erase_other j k m h)
