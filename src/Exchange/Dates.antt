-- ===== src/Exchange/Dates.antt =====
-- The order of byte strings, and maps whose keys ascend.
use mathlib.Core.Path.{subst}
use barcelona.Base.{◌≡◌, refl, ◌∙◌, true, false, [], ◌∷◌, Bool-cases, inl, inr, arith}
use barcelona.Base.Text.{Bytes, equal, equal_iff}
use barcelona.Base.Dict.{less}
use barcelona.Routing.Keys.{Table, set_key}
use barcelona.Exchange.{set_rate}

pub less_irrefl : (s : Bytes) → less s s ≡ false
unfolding less
less_irrefl [] = refl
less_irrefl (c ∷ s) = ground (arith, less_irrefl s)

pub less_trans : (s t u : Bytes) → less s t ≡ true → less t u ≡ true → less s u ≡ true
unfolding less
less_trans [] [] u h k = cc
less_trans [] (d ∷ t) [] h k = cc
less_trans [] (d ∷ t) (e ∷ u) h k = refl
less_trans (c ∷ s) [] u h k = cc
less_trans (c ∷ s) (d ∷ t) [] h k = cc
less_trans (c ∷ s) (d ∷ t) (e ∷ u) h k = ground (arith, less_trans s t u)

pub less_total : (s t : Bytes) → less s t ≡ false → equal s t ≡ false → less t s ≡ true
unfolding less equal
less_total [] [] h k = cc
less_total [] (d ∷ t) h k = cc
less_total (c ∷ s) [] h k = refl
less_total (c ∷ s) (d ∷ t) h k = ground (arith, less_total s t)

equal_comm : (s t : Bytes) → equal s t ≡ equal t s
unfolding equal
equal_comm [] [] = refl
equal_comm [] (d ∷ t) = refl
equal_comm (c ∷ s) [] = refl
equal_comm (c ∷ s) (d ∷ t) = ground (arith, equal_comm s t)

-- Every key is behind `k`.
abbrev pub IsBehind : {F : Type 0} → Bytes → Table Bytes F → Type 0
IsBehind k [] = Unit
IsBehind k ((j, v) ∷ m) = (less k j ≡ true) × IsBehind k m

abbrev pub IsAscending : {F : Type 0} → Table Bytes F → Type 0
IsAscending [] = Unit
IsAscending ((k, v) ∷ m) = IsBehind k m × IsAscending m

pub IsBehind-less :
    {F : Type 0} (j k : Bytes) (m : Table Bytes F) → less j k ≡ true → IsBehind k m → IsBehind j m
IsBehind-less j k [] h b = tt
IsBehind-less j k ((i, v) ∷ m) h (b, bs) = (less_trans j k i h b, IsBehind-less j k m h bs)

IsBehind-set_rate :
    {F : Type 0} (j k : Bytes) (v : F) (m : Table Bytes F)
    → less j k ≡ true
    → IsBehind j m
    → IsBehind j (set_rate k v m)
unfolding set_rate set_key
IsBehind-set_rate j k v [] h b = (h, tt)
IsBehind-set_rate j k v ((i, w) ∷ m) h (b, bs) = elim (Bool-cases (equal i k)) [
  | inl e ↦ rw e (h, bs)
  | inr e ↦ elim (Bool-cases (less k i)) [
    | inl f ↦ rw (e, f) (h, (b, bs))
    | inr f ↦ rw (e, f) (b, IsBehind-set_rate j k v m h bs)
  ]
]

pub set_rate-IsAscending :
    {F : Type 0} (k : Bytes) (v : F) (m : Table Bytes F)
    → IsAscending m
    → IsAscending (set_rate k v m)
unfolding set_rate set_key
set_rate-IsAscending k v [] s = (tt, tt)
set_rate-IsAscending k v ((i, w) ∷ m) (b, s) = elim (Bool-cases (equal i k)) [
  | inl e ↦ let q : i ≡ k = (equal_iff i k).0 e in rw e (subst (λ x. IsBehind x m) q b, s)
  | inr e ↦ elim (Bool-cases (less k i)) [
    | inl f ↦ rw (e, f) ((f, IsBehind-less k i m f b), (b, s))
    | inr f ↦
        rw (e, f)
          (
            IsBehind-set_rate i k v m (less_total k i f (equal_comm k i ∙ e)) b,
            set_rate-IsAscending k v m s,
          )
  ]
]
