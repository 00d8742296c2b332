-- ===== src/Base/Expected.antt =====
-- std::expected<A, E>.
use mathlib.Core.Path.{◌≡◌, refl}
use mathlib.Core.Logic.{◌⊎◌, inl, inr}

pub data Expected (A : Type 0) (E : Type 0) : Type 0 where
  ok : A → Expected A E
  err : E → Expected A E

pub Expected-cases :
    {A E : Type 0} (x : Expected A E) → ((a : A) × (x ≡ ok a)) ⊎ ((e : E) × (x ≡ err e))
Expected-cases (ok a) = inl (a, refl)
Expected-cases (err e) = inr (e, refl)
