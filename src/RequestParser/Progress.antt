-- ===== src/RequestParser/Progress.antt =====
-- A step before the chunked body that succeeds takes bytes from the buffer, or completes.
use barcelona.Base.{
  ◌+◌, ◌<◌, ◌≡◌, refl, Bool, true, ◌||◌, Option, inl, inr, List, [], ◌∷◌, arith, ltb, lt→ltb,
  length, Bool-cases, Option-cases, length-drop,
}
use barcelona.Base.Text.{Bytes, find, starts_with}
use barcelona.Base.Text.Find.{find-bound, starts_with-length}
use barcelona.Http.{Method}
use barcelona.RequestParser.{
  Step, ParseResult, success, incomplete, Parser, Outcome, ok, err, fault, ◌>>=◌, crlf, double_crlf,
}
use barcelona.RequestParser.RequestLine.{read_request_line, parse_request_line}
use barcelona.RequestParser.Headers.{
  read_field, chomp, with_headers, getlines, read_lines, read_headers, check_transfer, check_length,
  parse_headers, parse_body,
}
use barcelona.RequestParser.Loop.{is_completed, on_success, advance}
use barcelona.RequestParser.Total.{goes_on}
use mathlib.Core.Path.{subst}

or_true : (a : Bool) → (a || true) ≡ true
or_true a = ground arith

-- The step does not wait, and its buffer is the given one.
abbrev Keeps : Bytes → Outcome ParseResult → Type 0
Keeps b (ok success q) = q.buffer ≡ b
Keeps b (ok incomplete q) = ⊥
Keeps b (err c q) = Unit
Keeps b (fault e) = Unit

read_request_line-Keeps :
    (cast : Bytes → Option Method) (line : Bytes) (p : Parser)
    → Keeps p.buffer (read_request_line cast line p)
unfolding read_request_line
read_request_line-Keeps cast line p = ground arith

read_lines-Keeps : (ls : List Bytes) (p : Parser) → Keeps p.buffer (read_lines ls p)
unfolding read_lines
read_lines-Keeps [] p = refl
read_lines-Keeps ([] ∷ ls) p = tt
read_lines-Keeps ((c ∷ l) ∷ ls) p =
    elim (Option-cases (read_field (chomp (c ∷ l)) p.request.headers)) [
      | inl e ↦ rw (e, read_lines) tt
      | inr (m, e) ↦ rw (e, read_lines) (read_lines-Keeps ls (with_headers p m))
    ]

check_transfer-Keeps : (p : Parser) → Keeps p.buffer (check_transfer p)
unfolding check_transfer
check_transfer-Keeps p = ground arith

check_length-Keeps : (p : Parser) → Keeps p.buffer (check_length p)
unfolding check_length
check_length-Keeps p = ground arith

>>=-Keeps :
    (b : Bytes) (m : Outcome ParseResult) (f : ParseResult → Parser → Outcome ParseResult)
    → Keeps b m
    → ((a : ParseResult) (p : Parser) → p.buffer ≡ b → Keeps b (f a p))
    → Keeps b (m >>= f)
>>=-Keeps b (ok success p) f k h = h success p k
>>=-Keeps b (ok incomplete p) f k h = absurd k
>>=-Keeps b (err c p) f k h = tt
>>=-Keeps b (fault x) f k h = tt

read_headers-Keeps : (part : Bytes) (p : Parser) → Keeps p.buffer (read_headers part p)
unfolding read_headers
read_headers-Keeps part p =
    >>=-Keeps p.buffer (read_lines (getlines part) p) _ (read_lines-Keeps (getlines part) p)
      λ _ p1 e1.
        >>=-Keeps p.buffer (check_transfer p1) _
          (subst (λ b. Keeps b (check_transfer p1)) e1 (check_transfer-Keeps p1))
          λ _ p2 e2.
            >>=-Keeps p.buffer (check_length p2) _
              (subst (λ b. Keeps b (check_length p2)) e2 (check_length-Keeps p2)) λ _ p3 e3. e3

-- A success leaves fewer bytes, and a wait leaves all as it was.
abbrev pub Takes : Parser → Outcome ParseResult → Type 0
Takes p (ok success q) = length q.buffer < length p.buffer
Takes p (ok incomplete q) = q ≡ p
Takes p (err c q) = Unit
Takes p (fault e) = Unit

Takes-of_Keeps :
    (p : Parser) (b : Bytes) (o : Outcome ParseResult)
    → Keeps b o
    → length b < length p.buffer
    → Takes p o
Takes-of_Keeps p b (ok success q) k h = rw k h
Takes-of_Keeps p b (ok incomplete q) k h = absurd k
Takes-of_Keeps p b (err c q) k h = tt
Takes-of_Keeps p b (fault e) k h = tt

pub parse_request_line-Takes :
    (cast : Bytes → Option Method) (p : Parser) → Takes p (parse_request_line cast p)
unfolding parse_request_line
parse_request_line-Takes cast p = elim (Option-cases (find p.buffer crlf)) [
  | inl e ↦ rw (e, parse_request_line) refl
  | inr (n, e) ↦
      rw (e, parse_request_line)
        (Takes-of_Keeps _ _ (read_request_line cast _ _) (read_request_line-Keeps cast _ _)
          (omega (arith, find-bound p.buffer crlf n e, length-drop (n + 2) p.buffer)))
]

pub parse_headers-Takes : (p : Parser) → Takes p (parse_headers p)
unfolding parse_headers
parse_headers-Takes p = elim (Bool-cases (starts_with p.buffer crlf)) [
  | inl e ↦
      rw (e, parse_headers)
        (omega (arith, starts_with-length p.buffer crlf e, length-drop 2 p.buffer))
  | inr e ↦ elim (Option-cases (find p.buffer double_crlf)) [
    | inl f ↦ rw (e, f, parse_headers) refl
    | inr (n, f) ↦
        rw (e, f, parse_headers)
          (Takes-of_Keeps _ _ (read_headers _ _) (read_headers-Keeps _ _)
            (omega (arith, find-bound p.buffer double_crlf n f, length-drop (n + 4) p.buffer)))
  ]
]

on_success-goes_on :
    (next : Parser → Step) (p : Parser) (o : Outcome ParseResult)
    → Takes p o
    → (q : Parser) → on_success next o ≡ ok success q
    → goes_on p q ≡ true
unfolding on_success
on_success-goes_on next p (ok success q') t q e =
    let same : record q' { step = next q' } ≡ q = cc in
    subst (λ z. goes_on p z ≡ true) same (rw (lt→ltb _ _ t))
on_success-goes_on next p (ok incomplete q') t q e = cc
on_success-goes_on next p (err c q') t q e = cc
on_success-goes_on next p (fault x) t q e = cc

on_success-completed :
    (p : Parser) (o : Outcome ParseResult) (q : Parser)
    → on_success (λ _. Step.completed) o ≡ ok success q
    → is_completed q.step ≡ true
unfolding on_success
on_success-completed p (ok success q') q e =
    let same : record q' { step = Step.completed } ≡ q = cc in
    subst (λ z. is_completed z.step ≡ true) same refl
on_success-completed p (ok incomplete q') q e = cc
on_success-completed p (err c q') q e = cc
on_success-completed p (fault x) q e = cc

-- The steps before a chunked body.
abbrev pub IsEarly : Step → Type 0
IsEarly Step.request_line = Unit
IsEarly Step.headers = Unit
IsEarly Step.body = Unit
IsEarly _ = ⊥

-- No round before the chunked body succeeds and stops the loop.
pub advance-goes_on :
    (cast : Bytes → Option Method) (s : Step) (p q : Parser)
    → IsEarly s
    → advance cast s p ≡ ok success q
    → goes_on p q ≡ true
unfolding advance
advance-goes_on cast Step.request_line p q h e =
    on_success-goes_on _ p (parse_request_line cast p) (parse_request_line-Takes cast p) q e
advance-goes_on cast Step.headers p q h e =
    on_success-goes_on _ p (parse_headers p) (parse_headers-Takes p) q e
advance-goes_on cast Step.body p q h e =
    rw (on_success-completed p (parse_body p) q e)
      (or_true (ltb (length q.buffer) (length p.buffer)))
advance-goes_on cast _ p q h e = absurd h

parse_body-waits : (p q : Parser) → parse_body p ≡ ok incomplete q → q ≡ p
unfolding parse_body
parse_body-waits p q e = ground arith

on_success-waits :
    (next : Parser → Step) (o : Outcome ParseResult) (q : Parser)
    → on_success next o ≡ ok incomplete q
    → o ≡ ok incomplete q
unfolding on_success
on_success-waits next (ok success p) q e = cc
on_success-waits next (ok incomplete p) q e = e
on_success-waits next (err c p) q e = cc
on_success-waits next (fault x) q e = cc

Takes-waits : (p q : Parser) (o : Outcome ParseResult) → Takes p o → o ≡ ok incomplete q → q ≡ p
Takes-waits p q o t e = subst (Takes p) e t

-- A step that waits for input changes nothing.
pub advance-waits :
    (cast : Bytes → Option Method) (s : Step) (p q : Parser)
    → IsEarly s
    → advance cast s p ≡ ok incomplete q
    → q ≡ p
unfolding advance
advance-waits cast Step.request_line p q h e =
    Takes-waits p q _ (parse_request_line-Takes cast p) (on_success-waits _ _ q e)
advance-waits cast Step.headers p q h e =
    Takes-waits p q _ (parse_headers-Takes p) (on_success-waits _ _ q e)
advance-waits cast Step.body p q h e = parse_body-waits p q (on_success-waits _ _ q e)
advance-waits cast _ p q h e = absurd h
