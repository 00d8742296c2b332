-- ===== src/Routing/Choice.antt =====
-- Which handler a router chooses.
use mathlib.Core.Path.{subst}
use barcelona.Base.{
  ◌≤◌, ◌<◌, ◌≡◌, ◌≢◌, refl, sym, ap, ◌⊎◌, inl, inr, Bool, true, false, ◌&&◌, Option, none, some,
  List, [], ◌∷◌, ltb, arith, if◌then◌else◌, length, Bool-cases,
}
use barcelona.Base.Text.{Bytes, starts_with}
use barcelona.Base.Expected.{Expected, ok, err}
use barcelona.Http.{Request, Response}
use barcelona.Http.Status.{StatusCode, not_found}
use barcelona.Io.{Error}
use barcelona.Response.{create_stock_response}
use barcelona.Base.Int.{ℤ, pos, negsuc}
use barcelona.Routing.{
  RequestHandler, is_found, is_answer, route, longest_prefix, longest_prefix_match,
}
use barcelona.Routing.Keys.{Table}

-- A response whose status is not 404.
abbrev pub IsAnswer : Expected Response Error → Type 0
IsAnswer (ok r) = r.status_code ≢ pos 404
IsAnswer (err e) = ⊥

-- The first handler that gives an answer, or the stock 404 where none does.
pub data Chosen (stock : Response) (request : Request)
    : List RequestHandler → Expected Response Error → Type 0 where
  nobody : Chosen stock request [] (ok stock)
  this :
      (h : RequestHandler) (pipeline : List RequestHandler)
      → IsAnswer (h request)
      → Chosen stock request (h ∷ pipeline) (h request)
  later :
      (h : RequestHandler) (pipeline : List RequestHandler) (x : Expected Response Error)
      → ¬ IsAnswer (h request)
      → Chosen stock request pipeline x
      → Chosen stock request (h ∷ pipeline) x

code_answers : (z : ℤ) → is_found z ≡ true → z ≢ pos 404
unfolding is_found
code_answers (pos n) e x = ground arith
code_answers (negsuc n) e x = cc

code_misses : (z : ℤ) → is_found z ≡ false → z ≡ pos 404
unfolding is_found
code_misses (pos n) e = ap pos (ground arith)
code_misses (negsuc n) e = cc

is_answer-IsAnswer : (x : Expected Response Error) → is_answer x ≡ true → IsAnswer x
unfolding is_answer
is_answer-IsAnswer (ok r) e = code_answers r.status_code e
is_answer-IsAnswer (err x) e = cc

not-is_answer : (x : Expected Response Error) → is_answer x ≡ false → ¬ IsAnswer x
unfolding is_answer
not-is_answer (ok r) e a = a (code_misses r.status_code e)
not-is_answer (err x) e a = a

module _ (enum_name : StatusCode → Bytes) where
  route-Chosen :
      (pipeline : List RequestHandler) (request : Request)
      → Chosen
          (create_stock_response enum_name not_found)
          request
          pipeline
          (route enum_name pipeline request)
  unfolding route
  route-Chosen [] request = nobody
  route-Chosen (h ∷ pipeline) request = elim (Bool-cases (is_answer (h request))) [
    | inl e ↦ rw (e, route) (this h pipeline (is_answer-IsAnswer (h request) e))
    | inr e ↦
        rw (e, route)
          (later h pipeline _ (not-is_answer (h request) e) (route-Chosen pipeline request))
  ]

  IsAnswer-ok : (x : Expected Response Error) → IsAnswer x → (r : Response) × (x ≡ ok r)
  IsAnswer-ok (ok r) e = (r, refl)
  IsAnswer-ok (err x) e = absurd e

  -- RequestRouter asks its handlers in their order and returns the first answer that is no error
  -- and no 404, and the stock 404 where there is none; so it never returns an error.
  pub route_lem :
      (pipeline : List RequestHandler) (request : Request)
      → Chosen
          (create_stock_response enum_name not_found)
          request
          pipeline
          (route enum_name pipeline request)
        × ((r : Response) × (route enum_name pipeline request ≡ ok r))
  route_lem pipeline request = let c = route-Chosen pipeline request in (c, chosen_ok c)
    where
      chosen_ok :
          {stock : Response} {request : Request} {pipeline : List RequestHandler}
          {x : Expected Response Error}
          → Chosen stock request pipeline x
          → (r : Response) × (x ≡ ok r)
      chosen_ok {stock = stock} nobody = (stock, refl)
      chosen_ok (this h pipeline e) = IsAnswer-ok _ e
      chosen_ok (later h pipeline x e c) = chosen_ok c

-- One of the entries.
abbrev pub Entry : Bytes → RequestHandler → Table Bytes RequestHandler → Type 0
Entry prefix h [] = ⊥
Entry prefix h ((j, g) ∷ handlers) = ((prefix ≡ j) × (h ≡ g)) ⊎ Entry prefix h handlers

module _ (uri : Bytes) where
  abbrev is_better : Bytes × Option RequestHandler → Bytes → Bool
  is_better best prefix = starts_with uri prefix && ltb (length best.0) (length prefix)

  better :
      (best : Bytes × Option RequestHandler) (prefix : Bytes)
      → is_better best prefix ≡ true
      → (starts_with uri prefix ≡ true) × (length best.0 < length prefix)
  better best prefix e = (ground arith, ground arith)

  no_better :
      (best : Bytes × Option RequestHandler) (prefix : Bytes)
      → is_better best prefix ≡ false
      → (starts_with uri prefix ≡ false) ⊎ (length prefix ≤ length best.0)
  no_better best prefix e = elim (Bool-cases (starts_with uri prefix)) [
    | inl f ↦ inr (ground arith)
    | inr f ↦ inl f
  ]

  longest_prefix-grows :
      (best : Bytes × Option RequestHandler) (handlers : Table Bytes RequestHandler)
      → length best.0 ≤ length (longest_prefix uri best handlers).0
  unfolding longest_prefix
  longest_prefix-grows best [] = omega arith
  longest_prefix-grows best ((prefix, h) ∷ handlers) = elim (Bool-cases (is_better best prefix)) [
    | inl e ↦
        rw (e, longest_prefix)
          (omega (arith, better best prefix e, longest_prefix-grows (prefix, some h) handlers))
    | inr e ↦ rw (e, longest_prefix) (longest_prefix-grows best handlers)
  ]

  -- The result is the best before the loop, or an entry whose prefix starts the URI.
  abbrev pub IsOf :
      Bytes × Option RequestHandler
      → Table Bytes RequestHandler
      → Bytes × Option RequestHandler
      → Type 0
  IsOf best handlers x =
      (x ≡ best)
      ⊎ ((prefix : Bytes) × (h : RequestHandler) × Entry prefix h handlers
          × (starts_with uri prefix ≡ true)
          × (x ≡ (prefix, some h)))

  longest_prefix-IsOf :
      (best : Bytes × Option RequestHandler) (handlers : Table Bytes RequestHandler)
      → IsOf best handlers (longest_prefix uri best handlers)
  unfolding longest_prefix
  longest_prefix-IsOf best [] = inl refl
  longest_prefix-IsOf best ((prefix, h) ∷ handlers) = elim (Bool-cases (is_better best prefix)) [
    | inl e ↦
        rw (e, longest_prefix)
          (elim (longest_prefix-IsOf (prefix, some h) handlers) [
            | inl f ↦ inr (prefix, h, inl (refl, refl), (better best prefix e).0, f)
            | inr (q, g, m, s, f) ↦ inr (q, g, inr m, s, f)
          ])
    | inr e ↦
        rw (e, longest_prefix)
          (elim (longest_prefix-IsOf best handlers) [
            | inl f ↦ inl f
            | inr (q, g, m, s, f) ↦ inr (q, g, inr m, s, f)
          ])
  ]

  longest_prefix-bound :
      (best : Bytes × Option RequestHandler) (handlers : Table Bytes RequestHandler) (q : Bytes)
      (g : RequestHandler)
      → Entry q g handlers
      → (starts_with uri q ≡ false) ⊎ (length q ≤ length (longest_prefix uri best handlers).0)
  unfolding longest_prefix
  longest_prefix-bound best [] q g m = absurd m
  longest_prefix-bound best ((prefix, h) ∷ handlers) q g (inr m) =
      longest_prefix-bound (if is_better best prefix then (prefix, some h) else best) handlers q g m
  longest_prefix-bound best ((prefix, h) ∷ handlers) q g (inl (e, f)) =
      elim (Bool-cases (is_better best prefix)) [
        | inl b ↦ rw (e, b, longest_prefix) (inr (longest_prefix-grows (prefix, some h) handlers))
        | inr b ↦ elim (no_better best prefix b) [
          | inl n ↦ inl (rw e n)
          | inr n ↦
              rw (e, b, longest_prefix) (inr (omega (arith, n, longest_prefix-grows best handlers)))
        ]
      ]

  -- The match with the longest prefix: where a handler is found, it is that of an entry whose
  -- prefix starts the URI, and no longer prefix among the entries does; where none is found, only
  -- the empty prefix can start the URI.
  abbrev pub Found : Table Bytes RequestHandler → Option RequestHandler → Type 0
  Found handlers none =
      (q : Bytes) (g : RequestHandler)
      → Entry q g handlers
      → (starts_with uri q ≡ false) ⊎ (length q ≤ 0)
  Found handlers (some h) =
      (prefix : Bytes) × Entry prefix h handlers
      × (starts_with uri prefix ≡ true)
      × ((q : Bytes) (g : RequestHandler)
          → Entry q g handlers
          → (starts_with uri q ≡ false) ⊎ (length q ≤ length prefix))

  abbrev Bounded : Table Bytes RequestHandler → Bytes × Option RequestHandler → Type 0
  Bounded handlers x =
      (q : Bytes) (g : RequestHandler)
      → Entry q g handlers
      → (starts_with uri q ≡ false) ⊎ (length q ≤ length x.0)

  -- LongestPrefixMatch finds a handler of an entry whose prefix starts the URI while no longer
  -- prefix of an entry does, or none where no prefix but the empty one starts the URI.
  pub longest_prefix_match-Found :
      (handlers : Table Bytes RequestHandler) → Found handlers (longest_prefix_match handlers uri)
  unfolding longest_prefix_match
  longest_prefix_match-Found handlers = elim (longest_prefix-IsOf ([], none) handlers) [
    | inl e ↦
        subst (λ x. Bounded handlers x → Found handlers x.1) (sym e) (λ b. b)
          (longest_prefix-bound ([], none) handlers)
    | inr (prefix, h, m, s, e) ↦
        subst (λ x. Bounded handlers x → Found handlers x.1) (sym e) (λ b. (prefix, m, s, b))
          (longest_prefix-bound ([], none) handlers)
  ]
