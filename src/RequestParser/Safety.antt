-- ===== src/RequestParser/Safety.antt =====
-- Every call of `parse` keeps the invariant, and no exception leaves it.
mod Kept
use mathlib.Core.Path.{subst}
use barcelona.Base.{
  not_both, same_some, ℕ, zero, suc, ◌≤◌, ◌≡◌, ◌≢◌, refl, sym, ◌∙◌, ap, Bool, true, false, Option,
  none, some, ◌⊎◌, inl, inr, [], ◌++◌, arith, ltb, length, Bool-cases, Option-cases, length-take,
  ◌==◌,
}
use barcelona.Base.Text.{Bytes, find, starts_with, codes, equal}
use barcelona.Base.Dict.{lookup, contains}
use barcelona.Base.Number.{stoull}
use barcelona.Http.{Method}
use barcelona.RequestParser.{
  Step, State, ParseResult, success, incomplete, Parser, Fault, uncaught_exception, Outcome, ok,
  err, fault, crlf, double_crlf,
}
use barcelona.RequestParser.RequestLine.{parse_request_line}
use barcelona.RequestParser.Headers.{parse_headers, parse_body}
use barcelona.RequestParser.Chunked.{
  finish_chunks, start_chunk, read_size, end_chunk, part_chunk, read_data, parse_chunked_body,
}
use barcelona.RequestParser.Loop.{on_success, after_headers, advance, run, parse}
use barcelona.RequestParser.Progress.{advance-waits}
use barcelona.RequestParser.Total.{
  rounds, done, refused, faulted, moved, stuck, run_done, run_refused, run_faulted, run_moved,
  run_stuck, parse_total,
}
use barcelona.RequestParser.Valid.{
  declared, number_in, LengthChecked, IsValid, Safe, RequestKept, LengthIn, HeadersRead,
  parse_request_line-RequestKept, read_headers-HeadersRead,
}
use Kept.{parse_headers-HeadersRead, ChunkKept, parse_chunked_body-ChunkKept}

on_success-Safe :
    (next : Parser → Step) (o : Outcome ParseResult)
    → ((q : Parser) → o ≡ ok incomplete q → IsValid q)
    → ((q : Parser) → o ≡ ok success q → IsValid (record q { step = next q }))
    → ((e : Fault) → o ≡ fault e → e ≢ uncaught_exception)
    → Safe (on_success next o)
unfolding on_success
on_success-Safe next (ok success q) i s f = s q refl
on_success-Safe next (ok incomplete q) i s f = i q refl
on_success-Safe next (err c q) i s f = tt
on_success-Safe next (fault e) i s f = f e refl

abbrev has : Option Bytes → Bool
has none = false
has (some _) = true

-- The check speaks of the request and the limit alone.
LengthChecked-same :
    (s : Step) (p q : Parser)
    → q.request ≡ p.request
    → q.max_body_size ≡ p.max_body_size
    → LengthChecked s p
    → LengthChecked s q
LengthChecked-same Step.request_line p q e f l = rw e l
LengthChecked-same Step.headers p q e f l = rw e l
LengthChecked-same Step.body p q e f (n, d, le) = (n, rw e d, rw f le)
LengthChecked-same Step.chunked_body p q e f l = tt
LengthChecked-same Step.chunked_trailer p q e f l = tt
LengthChecked-same Step.completed p q e f l = tt

none-ne-some : {A : Type 0} {a : A} → ◌≡◌ {A = Option A} none (some a) → ⊥
none-ne-some e = cc

after_headers-LengthChecked : (q : Parser) → LengthIn q → LengthChecked (after_headers q) q
unfolding after_headers
after_headers-LengthChecked q h =
    elim (Bool-cases (contains (codes "Transfer-Encoding") q.request.headers)) [
      | inl e ↦ rw (e, after_headers) tt
      | inr e ↦ elim (Bool-cases (contains (codes "Content-Length") q.request.headers)) [
        | inl f ↦
            rw (e, f, after_headers)
              (elim h [ inl g ↦ absurd (not_both _ f (ap has g)) | inr g ↦ g ])
        | inr f ↦ rw (e, f, after_headers) tt
      ]
    ]

-- A body of the declared length.
parse_body-Safe :
    (p : Parser) (n : ℕ)
    → IsValid p
    → declared p ≡ some n
    → n ≤ p.max_body_size
    → Safe (on_success (λ _. Step.completed) (parse_body p))
unfolding parse_body on_success
parse_body-Safe p n v d le =
    elim (Option-cases (lookup (codes "Content-Length") p.request.headers)) [
      | inl e ↦ absurd (none-ne-some (sym (ap number_in e) ∙ d))
      | inr (w, e) ↦
          let f : stoull 10 w ≡ some n = sym (ap number_in e) ∙ d in
          elim (Bool-cases (ltb (length p.buffer) n)) [
            | inl g ↦ rw (e, f, g, parse_body, on_success) v
            | inr g ↦
                rw (e, f, g, parse_body, on_success)
                  (record { within = omega (arith, length-take n p.buffer); checked = tt })
          ]
    ]

headers-Safe :
    (p : Parser) (o : Outcome ParseResult)
    → IsValid p
    → (o ≡ ok incomplete p) ⊎ HeadersRead p o
    → Safe (on_success after_headers o)
unfolding on_success
headers-Safe p o v (inl e) = rw e v
headers-Safe p (ok success q) v (inr h) = record {
  within = rw (h.0, h.1) v.within;
  checked =
      LengthChecked-same (after_headers q) q (record q { step = after_headers q }) refl refl
        (after_headers-LengthChecked q h.2);
}
headers-Safe p (ok incomplete q) v (inr h) = absurd h
headers-Safe p (err c q) v (inr h) = tt
headers-Safe p (fault x) v (inr h) = h

advance-Safe :
    (cast : Bytes → Option Method) (s : Step) (p : Parser)
    → p.step ≡ s
    → IsValid p
    → LengthChecked s p
    → Safe (advance cast s p)
unfolding advance
advance-Safe cast Step.request_line p h v l =
    let k = parse_request_line-RequestKept cast p in
    on_success-Safe _ (parse_request_line cast p)
      (λ q e.
        subst IsValid (sym (advance-waits cast Step.request_line p q tt (ap (on_success _) e))) v)
      (λ q e.
        let k' = subst (RequestKept p) e k in
        record { within = rw (k'.0, k'.1) v.within; checked = k'.2 ∙ l })
      (λ x e. subst (RequestKept p) e k)
advance-Safe cast Step.headers p h v l =
    headers-Safe p (parse_headers p) v (parse_headers-HeadersRead p l)
advance-Safe cast Step.body p h v l = parse_body-Safe p l.0 v l.1 l.2
advance-Safe cast Step.chunked_body p h v l =
    let k = parse_chunked_body-ChunkKept p v.within in
    on_success-Safe _ (parse_chunked_body p)
      (λ q e.
        let k' = subst (ChunkKept p) e k in record { within = k'.1; checked = rw (k'.2 ∙ h) tt })
      (λ q e. let k' = subst (ChunkKept p) e k in record { within = k'.1; checked = tt })
      (λ x e. absurd (subst (ChunkKept p) e k))
advance-Safe cast Step.chunked_trailer p h v l = v
advance-Safe cast Step.completed p h v l = v

module _ (cast : Bytes → Option Method) where
  round-Safe :
      (p : Parser) (o : Outcome ParseResult) → IsValid p → advance cast p.step p ≡ o → Safe o
  round-Safe p o v e = subst Safe e (advance-Safe cast p.step p refl v v.checked)

  run-Safe : (f : ℕ) (p : Parser) (o : Outcome State) → IsValid p → run cast f p ≡ some o → Safe o
  unfolding run
  run-Safe zero p o v e = cc
  run-Safe (suc f) p o v e = elim (rounds cast p) [
    | done d ↦ subst Safe (same_some (sym (run_done cast f p d) ∙ e)) v
    | refused c q d x ↦ subst Safe (same_some (sym (run_refused cast f p c q d x) ∙ e)) tt
    | faulted c d x ↦
        subst Safe (same_some (sym (run_faulted cast f p c d x) ∙ e)) (round-Safe p (fault c) v x)
    | moved r q d x m ↦
        run-Safe f q o (round-Safe p (ok r q) v x) (sym (run_moved cast f p r q d x m) ∙ e)
    | stuck r q d x s ↦
        subst Safe (same_some (sym (run_stuck cast f p r q d x s) ∙ e)) (round-Safe p (ok r q) v x)
  ]

  -- From a valid parser, `parse` returns on every input; the parser that it leaves with a result is
  -- valid again, so that its body is within the limit, and it never ends by the exception of a
  -- Content-Length that is no number.
  pub parse-Safe :
      (p : Parser) (input : Bytes)
      → IsValid p
      → (o : Outcome State) × (parse cast p input ≡ some o) × Safe o
  unfolding parse
  parse-Safe p input v =
      let (o, e) = parse_total cast p input in
      (
        o,
        e,
        run-Safe _ (record p { buffer = p.buffer ++ input }) o
            (record {
              within = v.within;
              checked =
                  LengthChecked-same p.step p (record p { buffer = p.buffer ++ input }) refl refl
                    v.checked;
            })
            e,
      )
