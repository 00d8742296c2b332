-- ===== src/Exchange/Latest.antt =====
-- The rate of a date.
use mathlib.Core.Path.{subst}
use barcelona.RequestParser.Headers.{getlines}
use barcelona.Base.{
  drop, ◌≡◌, refl, sym, ap, ◌∙◌, true, false, ◌⊎◌, Option, none, some, List, [], ◌∷◌, if◌then◌else◌,
  Bool-cases, inl, inr,
}
use barcelona.Base.Text.{Bytes, equal, equal_iff}
use barcelona.Base.Dict.{less}
use barcelona.Routing.Keys.{Table}
use barcelona.Exchange.{
  Float, is_valid_date, lower_bound, last_rate, rate_from, of_rate, get_rate, add_price, add_prices,
  split_price, parse_db,
}
use barcelona.Exchange.Dates.{
  less_irrefl, less_trans, less_total, IsBehind, IsAscending, set_rate-IsAscending,
}

abbrev pub In : {F : Type 0} → Bytes → F → Table Bytes F → Type 0
In k v [] = ⊥
In k v ((j, w) ∷ m) = ((k ≡ j) × (v ≡ w)) ⊎ In k v m

-- The last entry that is not behind the date; there may be none.
unfoldable pub Latest : {F : Type 0} → Bytes → Table Bytes F → Option F → Type 0
Latest {F} date m none = (k : Bytes) (v : F) → In k v m → less date k ≡ true
Latest {F} date m (some v) =
    (k : Bytes) × In k v m
    × (less date k ≡ false)
    × ((j : Bytes) (w : F) → In j w m → less k j ≡ true → less date j ≡ true)

add_prices-IsAscending :
    {F : Type 0} (float : Float F) (lines : List Bytes) (m : Table Bytes F)
    → IsAscending m
    → IsAscending (add_prices float lines m)
unfolding add_prices add_price
add_prices-IsAscending float [] m s = s
add_prices-IsAscending float (line ∷ lines) m s =
    add_prices-IsAscending float lines _ (added (split_price line))
  where
    added : (o : Option (Bytes × Bytes)) → IsAscending (add_price float o m)
    added none = s
    added (some (date, price)) = set_rate-IsAscending date (float.strtof price).0 m s

In-IsBehind :
    {F : Type 0} (k j : Bytes) (w : F) (m : Table Bytes F)
    → In j w m
    → IsBehind k m
    → less k j ≡ true
In-IsBehind k j w [] x b = elim x [ ]
In-IsBehind k j w ((i, v) ∷ m) (inl (e, f)) (b, bs) = rw e b
In-IsBehind k j w ((i, v) ∷ m) (inr h) (b, bs) = In-IsBehind k j w m h bs

or_rate : {F : Type 0} → Option F → F → Option F
or_rate none v = some v
or_rate (some w) v = some w

last_rate-some :
    {F : Type 0} (k : Bytes) (v : F) (m : Table Bytes F)
    → (u : F) × (last_rate ((k, v) ∷ m) ≡ some u)
unfolding last_rate
last_rate-some k v [] = (v, refl)
last_rate-some k v ((j, w) ∷ m) = last_rate-some j w m

last_rate-cons :
    {F : Type 0} (k : Bytes) (v : F) (m : Table Bytes F)
    → last_rate ((k, v) ∷ m) ≡ or_rate (last_rate m) v
unfolding last_rate or_rate
last_rate-cons k v [] = refl
last_rate-cons k v ((j, w) ∷ m) =
    let (u, e) = last_rate-some j w m in e ∙ ap (λ o. or_rate o v) (sym e)

rate_from-cons :
    {F : Type 0} (date k : Bytes) (v : F) (before from : Table Bytes F)
    → rate_from date ((k, v) ∷ before, from) ≡ or_rate (rate_from date (before, from)) v
unfolding rate_from or_rate
rate_from-cons date k v before [] = last_rate-cons k v before
rate_from-cons date k v before ((j, w) ∷ from) = elim (Bool-cases (equal j date)) [
  | inl e ↦ rw e refl
  | inr e ↦ rw e (last_rate-cons k v before)
]

less_asym : (s t : Bytes) → less s t ≡ true → less t s ≡ false
less_asym s t h = elim (Bool-cases (less t s)) [
  | inr e ↦ e
  | inl e ↦ let a = less_trans s t s h e in let b = less_irrefl s in cc
]

-- An entry in front of the date, before entries that are behind it.
Latest-cons :
    {F : Type 0} (date k : Bytes) (v : F) (m : Table Bytes F) (o : Option F)
    → less k date ≡ true
    → IsBehind k m
    → Latest date m o
    → Latest date ((k, v) ∷ m) (or_rate o v)
unfolding Latest or_rate
Latest-cons {F} date k v m none h b l = (k, inl (refl, refl), less_asym k date h, later)
  where
    later : (j : Bytes) (w : F) → In j w ((k, v) ∷ m) → less k j ≡ true → less date j ≡ true
    later j w (inl (e, f)) q =
        let a = subst (λ x. less k x ≡ true) e q in let c = less_irrefl k in cc
    later j w (inr i) q = l j w i
Latest-cons {F} date k v m (some u) h b (i, q, r, s) = (i, inr q, r, later)
  where
    later : (j : Bytes) (w : F) → In j w ((k, v) ∷ m) → less i j ≡ true → less date j ≡ true
    later j w (inl (e, f)) g =
        let a = subst (λ x. less i x ≡ true) e g in
        let c = less_trans k i k (In-IsBehind k i u m q b) a in let d = less_irrefl k in cc
    later j w (inr x) g = s j w x g

-- The first entry that is not before the date.
Latest-first :
    {F : Type 0} (date k : Bytes) (v : F) (m : Table Bytes F)
    → less k date ≡ false
    → IsBehind k m
    → Latest date ((k, v) ∷ m) (if equal k date then some v else none)
unfolding Latest
Latest-first {F} date k v m h b = elim (Bool-cases (equal k date)) [
  | inl e ↦
      let q : k ≡ date = (equal_iff k date).0 e in
      rw e (
        k,
        inl (refl, refl),
        subst (λ x. less x k ≡ false) q (less_irrefl k),
        (λ j w i g. subst (λ x. less x j ≡ true) q g),
      )
  | inr e ↦ let f : less date k ≡ true = less_total k date h e in rw e (λ j w i. others f j w i)
]
  where
    others : less date k ≡ true → (j : Bytes) (w : F) → In j w ((k, v) ∷ m) → less date j ≡ true
    others f j w (inl (e, g)) = subst (λ x. less date x ≡ true) (sym e) f
    others f j w (inr i) = less_trans date k j f (In-IsBehind k j w m i b)

rate_from-Latest :
    {F : Type 0} (date : Bytes) (m : Table Bytes F)
    → IsAscending m
    → Latest date m (rate_from date (lower_bound date m))
unfolding lower_bound rate_from last_rate Latest
rate_from-Latest date [] s = λ k v i. elim i [ ]
rate_from-Latest date ((k, v) ∷ m) (b, s) = elim (Bool-cases (less k date)) [
  | inl e ↦ rw e (
      subst (Latest date ((k, v) ∷ m))
        (sym (rate_from-cons date k v (lower_bound date m).0 (lower_bound date m).1))
        (Latest-cons date k v m _ e b (rate_from-Latest date m s)))
  | inr e ↦ rw e (Latest-first date k v m e b)
]

-- Of a valid date, getRate on the rates of a file gives the rate of the last date that is not behind it,
-- or its exception, where every date of the file is behind it.
pub get_rate-Latest :
    {F : Type 0} (float : Float F) (text date : Bytes)
    → is_valid_date date ≡ true
    → (o : Option F) × (get_rate (parse_db float text) date ≡ of_rate o)
      × Latest date (parse_db float text) o
unfolding get_rate parse_db
get_rate-Latest float text date e =
    let m = parse_db float text in
    (
      rate_from date (lower_bound date m),
      rw e refl,
      rate_from-Latest date m (add_prices-IsAscending float (drop 1 (getlines text)) [] tt),
    )
