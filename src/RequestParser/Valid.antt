-- ===== src/RequestParser/Valid.antt =====
-- The invariant of the parser: the body keeps to its limit, and a declared length has been checked
-- before it is read again.
use mathlib.Core.Path.{subst}
use barcelona.Base.{
  ℕ, ◌≤◌, ◌≡◌, ◌≢◌, refl, sym, ◌∙◌, ap, Option, none, some, ◌⊎◌, inl, inr, List, [], ◌∷◌, arith,
  ltb, length, Bool-cases, Option-cases,
}
use barcelona.Base.Text.{Bytes, codes}
use barcelona.Base.Dict.{lookup}
use barcelona.Base.Number.{stoull}
use barcelona.Http.{Method}
use barcelona.RequestParser.{
  Step, ParseResult, success, incomplete, Parser, Fault, uncaught_exception, Outcome, ok, err,
  fault, ◌>>=◌, new_parser,
}
use barcelona.RequestParser.RequestLine.{read_request_line, parse_request_line}
use barcelona.RequestParser.Headers.{
  read_field, chomp, with_headers, getlines, wants_keep_alive, read_lines, read_headers,
  check_transfer, check_length,
}

abbrev pub number_in : Option Bytes → Option ℕ
number_in none = none
number_in (some v) = stoull 10 v

-- The Content-Length of the request, if there is one and it is a number.
abbrev pub declared : Parser → Option ℕ
declared p = number_in (lookup (codes "Content-Length") p.request.headers)

-- No header is there before the header block is read. Where the body of known length is read, its
-- length is a number within the limit.
abbrev pub LengthChecked : Step → Parser → Type 0
LengthChecked Step.body p = (n : ℕ) × (declared p ≡ some n) × (n ≤ p.max_body_size)
LengthChecked Step.request_line p = p.request.headers ≡ []
LengthChecked Step.headers p = p.request.headers ≡ []
LengthChecked _ p = Unit

pub record IsValid (p : Parser) : Type 0 where
  pub within : length p.request.body ≤ p.max_body_size
  pub checked : LengthChecked p.step p

-- What `parse` may leave behind: a valid parser, or a status code, or the undefined `back()`.
abbrev pub Safe : {A : Type 0} → Outcome A → Type 0
Safe (ok a p) = IsValid p
Safe (err c p) = Unit
Safe (fault e) = e ≢ uncaught_exception

pub new_parser-IsValid : (max : ℕ) → IsValid (new_parser max)
new_parser-IsValid max = record { within = omega arith; checked = refl }

-- A step that leaves limit and body alone.
abbrev pub BodyKept : Parser → Outcome ParseResult → Type 0
BodyKept p (ok r q) = (q.max_body_size ≡ p.max_body_size) × (q.request.body ≡ p.request.body)
BodyKept p (err c q) = Unit
BodyKept p (fault e) = e ≢ uncaught_exception

abbrev pub RequestKept : Parser → Outcome ParseResult → Type 0
RequestKept p (ok r q) =
    (q.max_body_size ≡ p.max_body_size)
    × (q.request.body ≡ p.request.body)
    × (q.request.headers ≡ p.request.headers)
RequestKept p (err c q) = Unit
RequestKept p (fault e) = e ≢ uncaught_exception

pub parse_request_line-RequestKept :
    (cast : Bytes → Option Method) (p : Parser) → RequestKept p (parse_request_line cast p)
unfolding parse_request_line read_request_line
parse_request_line-RequestKept cast p = ground arith

read_lines-BodyKept : (ls : List Bytes) (p : Parser) → BodyKept p (read_lines ls p)
unfolding read_lines
read_lines-BodyKept [] p = (refl, refl)
read_lines-BodyKept ([] ∷ ls) p = λ e. cc
read_lines-BodyKept ((c ∷ l) ∷ ls) p =
    elim (Option-cases (read_field (chomp (c ∷ l)) p.request.headers)) [
      | inl e ↦ rw (e, read_lines) tt
      | inr (m, e) ↦ rw (e, read_lines) (read_lines-BodyKept ls (with_headers p m))
    ]

-- The length that the headers declare is a number within the limit.
abbrev pub LengthIn : Parser → Type 0
LengthIn p =
    (lookup (codes "Content-Length") p.request.headers ≡ none)
    ⊎ ((n : ℕ) × (declared p ≡ some n) × (n ≤ p.max_body_size))

abbrev pub HeadersRead : Parser → Outcome ParseResult → Type 0
HeadersRead p (ok success q) =
    (q.max_body_size ≡ p.max_body_size) × (q.request.body ≡ p.request.body) × LengthIn q
HeadersRead p (ok incomplete q) = ⊥
HeadersRead p (err c q) = Unit
HeadersRead p (fault e) = e ≢ uncaught_exception

check_transfer-same : (p q : Parser) (r : ParseResult) → check_transfer p ≡ ok r q → q ≡ p
unfolding check_transfer
check_transfer-same p q r e = ground arith

check_transfer-ne-fault : (p : Parser) (x : Fault) → check_transfer p ≢ fault x
unfolding check_transfer
check_transfer-ne-fault p x e = ground arith

check_length-LengthIn : (p : Parser) → HeadersRead p (check_length p)
unfolding check_length
check_length-LengthIn p = elim (Option-cases (lookup (codes "Content-Length") p.request.headers)) [
  | inl e ↦ rw (e, check_length) (refl, refl, inl e)
  | inr (v, e) ↦ elim (Option-cases (stoull 10 v)) [
    | inl f ↦ rw (e, f, check_length) tt
    | inr (n, f) ↦ elim (Bool-cases (ltb p.max_body_size n)) [
      | inl g ↦ rw (e, f, g, check_length) tt
      | inr g ↦ rw (e, f, g, check_length) (refl, refl, inr (n, ap number_in e ∙ f, ground arith))
    ]
  ]
]

abbrev set_keep_alive : Parser → Parser
set_keep_alive p = record p { client_wants_keep_alive = wants_keep_alive p.request }

keep_alive-HeadersRead :
    (p : Parser) (o : Outcome ParseResult)
    → HeadersRead p o
    → HeadersRead p (o >>= λ _ q. ok success (set_keep_alive q))
keep_alive-HeadersRead p (ok success q) h = h
keep_alive-HeadersRead p (ok incomplete q) h = absurd h
keep_alive-HeadersRead p (err c q) h = h
keep_alive-HeadersRead p (fault x) h = h

check_transfer-HeadersRead :
    (p : Parser) (o : Outcome ParseResult)
    → check_transfer p ≡ o
    → HeadersRead p (o >>= λ _ p2. check_length p2 >>= λ _ p3. ok success (set_keep_alive p3))
check_transfer-HeadersRead p (ok r q) e =
    subst (λ z. HeadersRead p (check_length z >>= λ _ p3. ok success (set_keep_alive p3)))
      (sym (check_transfer-same p q r e))
      (keep_alive-HeadersRead p (check_length p) (check_length-LengthIn p))
check_transfer-HeadersRead p (err c q) e = tt
check_transfer-HeadersRead p (fault x) e = absurd (check_transfer-ne-fault p x e)

HeadersRead-trans :
    (p q : Parser) (o : Outcome ParseResult)
    → q.max_body_size ≡ p.max_body_size
    → q.request.body ≡ p.request.body
    → HeadersRead q o
    → HeadersRead p o
HeadersRead-trans p q (ok success z) e f h = (h.0 ∙ e, h.1 ∙ f, h.2)
HeadersRead-trans p q (ok incomplete z) e f h = h
HeadersRead-trans p q (err c z) e f h = h
HeadersRead-trans p q (fault x) e f h = h

read_lines-HeadersRead :
    (p : Parser) (o : Outcome ParseResult)
    → BodyKept p o
    → HeadersRead p (
        o >>= λ _ p1.
        check_transfer p1 >>= λ _ p2. check_length p2 >>= λ _ p3. ok success (set_keep_alive p3))
read_lines-HeadersRead p (ok r q) k =
    HeadersRead-trans p q _ k.0 k.1 (check_transfer-HeadersRead q (check_transfer q) refl)
read_lines-HeadersRead p (err c q) k = tt
read_lines-HeadersRead p (fault x) k = k

pub read_headers-HeadersRead : (part : Bytes) (p : Parser) → HeadersRead p (read_headers part p)
unfolding read_headers
read_headers-HeadersRead part p =
    read_lines-HeadersRead p (read_lines (getlines part) p) (read_lines-BodyKept (getlines part) p)
