-- ===== src/RequestParser/Segments.antt =====
-- The steps before a chunked body act alike when more input stands behind the buffer.
use barcelona.Base.{
  ◌+◌, ◌≤◌, ◌≡◌, refl, ap, false, Option, ◌⊎◌, inl, inr, List, [], ◌∷◌, ◌++◌, arith, ltb, length,
  Bool-cases, Option-cases, length-append, take-append_le, drop-append_le,
}
use barcelona.Base.Text.{Bytes, find, starts_with, codes}
use barcelona.Base.Text.Find.{find-append, find-bound, starts_with-append, starts_with-length}
use barcelona.Base.Dict.{lookup}
use barcelona.Base.Number.{stoull}
use barcelona.Http.{Method}
use barcelona.RequestParser.{
  Step, ParseResult, success, incomplete, Parser, Outcome, ok, err, fault, ◌>>=◌, crlf, double_crlf,
}
use barcelona.RequestParser.RequestLine.{read_request_line, parse_request_line}
use barcelona.RequestParser.Headers.{
  read_field, chomp, with_headers, getlines, read_lines, read_headers, check_transfer, check_length,
  parse_headers, parse_body,
}
use barcelona.RequestParser.Loop.{on_success, after_headers, advance}
use barcelona.RequestParser.Total.{goes_on}
use barcelona.RequestParser.Progress.{IsEarly}

-- More input behind what the buffer holds.
abbrev pub extend : Bytes → Parser → Parser
extend b p = record p { buffer = p.buffer ++ b }

abbrev pub extended : {A : Type 0} → Bytes → Outcome A → Outcome A
extended b (ok a p) = ok a (extend b p)
extended b (err c p) = err c (extend b p)
extended b (fault e) = fault e

read_request_line-extended :
    (cast : Bytes → Option Method) (b line : Bytes) (p : Parser)
    → read_request_line cast line (extend b p) ≡ extended b (read_request_line cast line p)
unfolding read_request_line
read_request_line-extended cast b line p = ground arith

read_lines-extended :
    (b : Bytes) (ls : List Bytes) (p : Parser)
    → read_lines ls (extend b p) ≡ extended b (read_lines ls p)
unfolding read_lines
read_lines-extended b [] p = refl
read_lines-extended b ([] ∷ ls) p = refl
read_lines-extended b ((c ∷ l) ∷ ls) p =
    elim (Option-cases (read_field (chomp (c ∷ l)) p.request.headers)) [
      | inl e ↦ rw (e, read_lines)
      | inr (m, e) ↦ rw (e, read_lines) (read_lines-extended b ls (with_headers p m))
    ]

check_transfer-extended :
    (b : Bytes) (p : Parser) → check_transfer (extend b p) ≡ extended b (check_transfer p)
unfolding check_transfer
check_transfer-extended b p = ground arith

check_length-extended :
    (b : Bytes) (p : Parser) → check_length (extend b p) ≡ extended b (check_length p)
unfolding check_length
check_length-extended b p = ground arith

>>=-extended :
    {A B : Type 0} (b : Bytes) (m m' : Outcome A) (f : A → Parser → Outcome B)
    → m' ≡ extended b m
    → ((a : A) (p : Parser) → f a (extend b p) ≡ extended b (f a p))
    → (m' >>= f) ≡ extended b (m >>= f)
>>=-extended b (ok a p) m' f e h = rw e (h a p)
>>=-extended b (err c p) m' f e h = rw e
>>=-extended b (fault x) m' f e h = rw e

read_headers-extended :
    (b part : Bytes) (p : Parser)
    → read_headers part (extend b p) ≡ extended b (read_headers part p)
unfolding read_headers
read_headers-extended b part p =
    >>=-extended b (read_lines (getlines part) p) _ _ (read_lines-extended b (getlines part) p)
      λ _ p1.
        >>=-extended b (check_transfer p1) _ _ (check_transfer-extended b p1)
          λ _ p2. >>=-extended b (check_length p2) _ _ (check_length-extended b p2) λ _ p3. refl

-- A step that does not wait for input does the same when more stands behind the buffer.
parse_request_line-extended :
    (cast : Bytes → Option Method) (b : Bytes) (p : Parser)
    → (parse_request_line cast p ≡ ok incomplete p)
      ⊎ (parse_request_line cast (extend b p) ≡ extended b (parse_request_line cast p))
unfolding parse_request_line
parse_request_line-extended cast b p = elim (Option-cases (find p.buffer crlf)) [
  | inl e ↦ inl (rw (e, parse_request_line))
  | inr (n, e) ↦ inr (
      rw (e, find-append p.buffer b crlf n e, parse_request_line)
        (rw
          (
            take-append_le n p.buffer b (omega (arith, find-bound p.buffer crlf n e)),
            drop-append_le (n + 2) p.buffer b (find-bound p.buffer crlf n e),
          )
          (read_request_line-extended cast b _ _)))
]

parse_headers-extended :
    (b : Bytes) (p : Parser)
    → (parse_headers p ≡ ok incomplete p)
      ⊎ (parse_headers (extend b p) ≡ extended b (parse_headers p))
unfolding parse_headers
parse_headers-extended b p = elim (Bool-cases (starts_with p.buffer crlf)) [
  | inl e ↦
      let room : 2 ≤ length p.buffer = starts_with-length p.buffer crlf e in
      inr (
        rw (
          starts_with-append p.buffer b crlf room,
          e,
          drop-append_le 2 p.buffer b room,
          parse_headers,
        ))
  | inr e ↦ elim (Option-cases (find p.buffer double_crlf)) [
    | inl f ↦ inl (rw (e, f, parse_headers))
    | inr (n, f) ↦
        let room : n + 4 ≤ length p.buffer = find-bound p.buffer double_crlf n f in
        inr (
          rw
            (
              starts_with-append p.buffer b crlf (omega arith),
              e,
              find-append p.buffer b double_crlf n f,
              f,
              parse_headers,
            )
            (rw (take-append_le n p.buffer b (omega arith), drop-append_le (n + 4) p.buffer b room)
              (read_headers-extended b _ _)))
  ]
]

parse_body-extended :
    (b : Bytes) (p : Parser)
    → (parse_body p ≡ ok incomplete p) ⊎ (parse_body (extend b p) ≡ extended b (parse_body p))
unfolding parse_body
parse_body-extended b p = elim (Option-cases (lookup (codes "Content-Length") p.request.headers)) [
  | inl e ↦ inr (rw (e, parse_body))
  | inr (v, e) ↦ elim (Option-cases (stoull 10 v)) [
    | inl f ↦ inr (rw (e, f, parse_body))
    | inr (n, f) ↦ elim (Bool-cases (ltb (length p.buffer) n)) [
      | inl g ↦ inl (rw (e, f, g, parse_body))
      | inr g ↦
          let room : n ≤ length p.buffer = ground arith in
          let g' : ltb (length (p.buffer ++ b)) n ≡ false =
            ground (arith, length-append p.buffer b) in
          inr (
            rw (
              e,
              f,
              g,
              g',
              take-append_le n p.buffer b room,
              drop-append_le n p.buffer b room,
              parse_body,
            ))
    ]
  ]
]

on_success-extended :
    (next : Parser → Step) (b : Bytes) (o o' : Outcome ParseResult)
    → ((p : Parser) → next (extend b p) ≡ next p)
    → o' ≡ extended b o
    → on_success next o' ≡ extended b (on_success next o)
unfolding on_success
on_success-extended next b (ok success p) o' h e =
    rw e (ap (λ s. ok success (record p { step = s; buffer = p.buffer ++ b })) (h p))
on_success-extended next b (ok incomplete p) o' h e = rw e
on_success-extended next b (err c p) o' h e = rw e
on_success-extended next b (fault x) o' h e = rw e

-- A step waits with the state unchanged, or does not mind more input.
pub advance-extended :
    (cast : Bytes → Option Method) (b : Bytes) (s : Step) (p : Parser)
    → IsEarly s
    → (advance cast s p ≡ ok incomplete p)
      ⊎ (advance cast s (extend b p) ≡ extended b (advance cast s p))
unfolding advance
advance-extended cast b Step.request_line p h = elim (parse_request_line-extended cast b p) [
  | inl e ↦ inl (rw e)
  | inr e ↦ inr (on_success-extended _ b (parse_request_line cast p) _ (λ _. refl) e)
]
advance-extended cast b Step.headers p h = elim (parse_headers-extended b p) [
  | inl e ↦ inl (rw e)
  | inr e ↦ inr (on_success-extended after_headers b (parse_headers p) _ (λ _. refl) e)
]
advance-extended cast b Step.body p h = elim (parse_body-extended b p) [
  | inl e ↦ inl (rw e)
  | inr e ↦ inr (on_success-extended _ b (parse_body p) _ (λ _. refl) e)
]
advance-extended cast b _ p h = absurd h

pub goes_on-extended : (b : Bytes) (p q : Parser) → goes_on (extend b p) (extend b q) ≡ goes_on p q
goes_on-extended b p q = ground (arith, length-append p.buffer b, length-append q.buffer b)
