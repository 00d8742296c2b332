-- ===== src/RequestParser/Splitting/Steps.antt =====
-- What one step of the parser leaves as it was.
use mathlib.Core.Path.{subst}
use barcelona.Base.{
  ℕ, ◌≡◌, refl, ◌∙◌, true, Option, none, some, ◌⊎◌, inl, inr, arith, Bool-cases, Option-cases, ◌==◌,
  [],
}
use barcelona.Base.Text.{Bytes, equal, find}
use barcelona.Http.{Method}
use barcelona.RequestParser.{
  Step, ParseResult, success, incomplete, Parser, Outcome, ok, err, fault, crlf,
}
use barcelona.RequestParser.Chunked.{
  finish_chunks, start_chunk, read_size, end_chunk, part_chunk, read_data, parse_chunked_body,
}
use barcelona.RequestParser.Loop.{is_completed, on_success, advance}
use barcelona.RequestParser.Progress.{IsEarly}

pub data Phase (s : Step) : Type 0 where
  early : IsEarly s → Phase s
  over : is_completed s ≡ true → Phase s
  chunks : s ≡ Step.chunked_body → Phase s
  trailer : s ≡ Step.chunked_trailer → Phase s

pub phases : (s : Step) → Phase s
phases Step.request_line = early tt
phases Step.headers = early tt
phases Step.body = early tt
phases Step.chunked_body = chunks refl
phases Step.chunked_trailer = trailer refl
phases Step.completed = over refl

pub same_state :
    {p q : Parser} {r s : ParseResult} → ◌≡◌ {A = Outcome ParseResult} (ok r p) (ok s q) → p ≡ q
same_state e = cc

abbrev SameStep : Parser → Outcome ParseResult → Type 0
SameStep p (ok r q) = q.step ≡ p.step
SameStep p (err c q) = Unit
SameStep p (fault e) = Unit

finish_chunks-SameStep : (p : Parser) → SameStep p (finish_chunks p)
unfolding finish_chunks
finish_chunks-SameStep p = ground arith

start_chunk-SameStep : (size : Option ℕ) (p : Parser) → SameStep p (start_chunk size p)
unfolding start_chunk
start_chunk-SameStep none p = tt
start_chunk-SameStep (some n) p =
    ground (arith, finish_chunks-SameStep (record p { chunk_size_remaining = n }))

read_size-SameStep : (p : Parser) → SameStep p (read_size p)
unfolding read_size
read_size-SameStep p = elim (Bool-cases (equal p.buffer [])) [
  | inl e ↦ rw (e, read_size) refl
  | inr e ↦ elim (Option-cases (find p.buffer crlf)) [
    | inl f ↦ rw (e, f, read_size) refl
    | inr (n, f) ↦ rw (e, f, read_size) (start_chunk-SameStep _ _)
  ]
]

read_data-SameStep : (p : Parser) → SameStep p (read_data p)
unfolding read_data end_chunk part_chunk
read_data-SameStep p = ground arith

parse_chunked_body-SameStep : (p : Parser) → SameStep p (parse_chunked_body p)
unfolding parse_chunked_body
parse_chunked_body-SameStep p = elim (Bool-cases (p.chunk_size_remaining == 0)) [
  | inl e ↦ rw (e, parse_chunked_body) (read_size-SameStep _)
  | inr e ↦ rw (e, parse_chunked_body) (read_data-SameStep p)
]

on_success-SameStep :
    (p q : Parser) (r : ParseResult) (o : Outcome ParseResult)
    → SameStep p o
    → on_success (λ _. Step.completed) o ≡ ok r q
    → (q.step ≡ p.step) ⊎ (is_completed q.step ≡ true)
unfolding on_success
on_success-SameStep p q r (ok success x) h e =
    let same : record x { step = Step.completed } ≡ q = cc in
    inr (subst (λ z. is_completed z.step ≡ true) same refl)
on_success-SameStep p q r (ok incomplete x) h e =
    let same : x ≡ q = cc in inl (subst (λ z. z.step ≡ p.step) same h)
on_success-SameStep p q r (err c x) h e = cc
on_success-SameStep p q r (fault x) h e = cc

pub advance-chunks :
    (cast : Bytes → Option Method) (r : ParseResult) (s : Step) (p q : Parser)
    → s ≡ Step.chunked_body
    → p.step ≡ s
    → advance cast s p ≡ ok r q
    → (q.step ≡ Step.chunked_body) ⊎ (is_completed q.step ≡ true)
unfolding advance
advance-chunks cast r Step.chunked_body p q h k e =
    elim (on_success-SameStep p q r (parse_chunked_body p) (parse_chunked_body-SameStep p) e) [
      | inl same ↦ inl (same ∙ k)
      | inr fin ↦ inr fin
    ]
advance-chunks cast r _ p q h k e = cc
