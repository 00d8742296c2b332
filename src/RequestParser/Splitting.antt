-- ===== src/RequestParser/Splitting.antt =====
-- Outside the chunked body it does not matter how the input is cut into calls of `parse`.
mod Steps
use mathlib.Core.Path.{subst}
use native.Mathlib.Nat.{le_refl}
use barcelona.Base.{
  not_both, ℕ, zero, suc, ◌+◌, ◌≤◌, ◌≡◌, ◌≢◌, refl, ap, sym, ◌∙◌, Bool, true, false, ◌||◌, Option,
  none, some, ◌⊎◌, inl, inr, ◌++◌, arith, append_assoc, length, Bool-cases, Option-cases, ◌==◌, [],
}
use barcelona.Base.Text.{Bytes, equal, find}
use barcelona.Http.{Method}
use barcelona.RequestParser.{
  Step, State, finished, parsing, ParseResult, success, incomplete, Parser, Outcome, ok, err, fault,
  crlf,
}
use barcelona.RequestParser.Chunked.{
  finish_chunks, start_chunk, read_size, end_chunk, part_chunk, read_data, parse_chunked_body,
}
use barcelona.RequestParser.Loop.{is_completed, on_success, advance, run, parse}
use barcelona.RequestParser.Total.{
  goes_on, rounds, done, refused, faulted, moved, stuck, run_done, run_refused, run_faulted,
  run_moved, run_stuck, run_fuel, goes_on_fuel,
}
use barcelona.RequestParser.Progress.{IsEarly, advance-goes_on, advance-waits}
use barcelona.RequestParser.Segments.{extend, extended, advance-extended, goes_on-extended}
use Steps.{early, over, chunks, trailer, phases, same_state, advance-chunks}

-- Ends of the loop that are no wait for input.
abbrev Ends : Outcome State → Type 0
Ends (ok finished p) = Unit
Ends (ok parsing p) = ⊥
Ends (err c p) = Unit
Ends (fault e) = Unit

not_waiting :
    (o : Outcome State) (q : Parser)
    → ◌≡◌ {A = Option (Outcome State)} (some o) (some (ok parsing q))
    → Ends o
    → ⊥
not_waiting (ok finished p) q e h = cc
not_waiting (ok parsing p) q e h = h
not_waiting (err c p) q e h = cc
not_waiting (fault x) q e h = cc

same_parser :
    {p q : Parser}
    → ◌≡◌ {A = Option (Outcome State)} (some (ok parsing p)) (some (ok parsing q))
    → p ≡ q
same_parser e = cc

or_true : (a b : Bool) → b ≡ true → (a || b) ≡ false → ⊥
or_true a b h e = ground arith

module _ (cast : Bytes → Option Method) where
  over-parsing :
      (f : ℕ) (p q : Parser) → is_completed p.step ≡ true → run cast f p ≡ some (ok parsing q) → ⊥
  unfolding run
  over-parsing zero p q h e = cc
  over-parsing (suc f) p q h e = not_waiting (ok finished p) q (sym (run_done cast f p h) ∙ e) tt

  -- A parser in the chunked body stays there as long as it wants more.
  chunks_stay :
      (f : ℕ) (p q : Parser)
      → p.step ≡ Step.chunked_body
      → run cast f p ≡ some (ok parsing q)
      → q.step ≡ Step.chunked_body
  unfolding run
  chunks_stay zero p q h e = cc
  chunks_stay (suc f) p q h e = elim (rounds cast p) [
    | done d ↦ absurd (over-parsing (suc f) p q d e)
    | refused c q1 d x ↦
        absurd (not_waiting (err c q1) q (sym (run_refused cast f p c q1 d x) ∙ e) tt)
    | faulted c d x ↦ absurd (not_waiting (fault c) q (sym (run_faulted cast f p c d x) ∙ e) tt)
    | moved r q1 d x m ↦ elim (advance-chunks cast r p.step p q1 h refl x) [
      | inl c ↦ chunks_stay f q1 q c (sym (run_moved cast f p r q1 d x m) ∙ e)
      | inr fin ↦ absurd (over-parsing f q1 q fin (sym (run_moved cast f p r q1 d x m) ∙ e))
    ]
    | stuck r q1 d x s ↦ elim (advance-chunks cast r p.step p q1 h refl x) [
      | inl c ↦
          subst (λ z. z.step ≡ Step.chunked_body)
            (same_parser (sym (run_stuck cast f p r q1 d x s) ∙ e)) c
      | inr fin ↦ absurd (or_true _ _ fin s)
    ]
  ]

  advance-trailer :
      (r : ParseResult) (s : Step) (p q : Parser)
      → s ≡ Step.chunked_trailer
      → advance cast s p ≡ ok r q
      → p ≡ q
  unfolding advance
  advance-trailer r Step.chunked_trailer p q h e = cc
  advance-trailer r _ p q h e = cc

  self-stuck : (p q : Parser) → p ≡ q → is_completed p.step ≡ false → goes_on p q ≡ true → ⊥
  self-stuck p q e d m =
      let m' : goes_on p p ≡ true = subst (λ z. goes_on p z ≡ true) (sym e) m in
      absurd (ground arith)

  module _ (b : Bytes) where
    -- The claim of the induction below: `q` may take over from `p` once `b` is there.
    abbrev Joins : Parser → Parser → Type 0
    Joins p q =
        (g g' : ℕ)
        → length (p.buffer ++ b) + 2 ≤ g
        → length (q.buffer ++ b) + 2 ≤ g'
        → run cast g (extend b p) ≡ run cast g' (extend b q)

    Joins-self : (p q : Parser) → p ≡ q → Joins p q
    Joins-self p q e g g' k k' =
        subst
          (λ z.
            length (z.buffer ++ b) + 2 ≤ g' → run cast g (extend b p) ≡ run cast g' (extend b z))
          e (λ h. run_fuel cast g g' (extend b p) k h) k'

    -- A round that succeeds is made with `b` behind the buffer too.
    Joins-moved :
        (p p' q : Parser) (r : ParseResult)
        → is_completed p.step ≡ false
        → advance cast p.step (extend b p) ≡ ok r (extend b p')
        → goes_on p p' ≡ true
        → ¬ (is_completed p'.step ≡ true)
        → Joins p' q
        → Joins p q
    Joins-moved p p' q r d x m n j zero g' k k' = absurd (omega arith)
    Joins-moved p p' q r d x m n j (suc g) g' k k' =
        let m' : goes_on (extend b p) (extend b p') ≡ true = goes_on-extended b p p' ∙ m in
        run_moved cast g (extend b p) r (extend b p') d x m'
        ∙ elim (goes_on_fuel cast g (extend b p) (extend b p') k m') [
          | inl less ↦ j g g' less k'
          | inr fin ↦ absurd (n fin)
        ]

    moved_extended :
        (f : ℕ) (p p' q : Parser) (r : ParseResult)
        → q.step ≢ Step.chunked_body
        → run cast f p ≡ some (ok parsing q)
        → is_completed p.step ≡ false
        → advance cast p.step p ≡ ok r p'
        → goes_on p p' ≡ true
        → advance cast p.step (extend b p) ≡ ok r (extend b p')
    moved_extended f p p' q r n e d x m = elim (phases p.step) [
      | early i ↦ elim (advance-extended cast b p.step p i) [
        | inl w ↦ absurd (self-stuck p p' (same_state (sym w ∙ x)) d m)
        | inr y ↦ y ∙ ap (extended b) x
      ]
      | over o ↦ absurd (not_both _ o d)
      | chunks c ↦ absurd (n (chunks_stay f p q c e))
      | trailer t ↦ absurd (self-stuck p p' (advance-trailer r p.step p p' t x) d m)
    ]

    stuck_same :
        (f : ℕ) (p p' q : Parser) (r : ParseResult)
        → q.step ≢ Step.chunked_body
        → run cast f p ≡ some (ok parsing q)
        → is_completed p.step ≡ false
        → advance cast p.step p ≡ ok r p'
        → goes_on p p' ≡ false
        → p ≡ p'
    stuck_same f p p' q success n e d x s = elim (phases p.step) [
      | early i ↦ absurd (not_both _ (advance-goes_on cast p.step p p' i x) s)
      | over o ↦ absurd (not_both _ o d)
      | chunks c ↦ absurd (n (chunks_stay f p q c e))
      | trailer t ↦ advance-trailer success p.step p p' t x
    ]
    stuck_same f p p' q incomplete n e d x s = elim (phases p.step) [
      | early i ↦ sym (advance-waits cast p.step p p' i x)
      | over o ↦ absurd (not_both _ o d)
      | chunks c ↦ absurd (n (chunks_stay f p q c e))
      | trailer t ↦ advance-trailer incomplete p.step p p' t x
    ]

    run-Joins :
        (f : ℕ) (p q : Parser)
        → q.step ≢ Step.chunked_body
        → run cast f p ≡ some (ok parsing q)
        → Joins p q
    unfolding run
    run-Joins zero p q n e = cc
    run-Joins (suc f) p q n e = elim (rounds cast p) [
      | done d ↦ absurd (over-parsing (suc f) p q d e)
      | refused c q1 d x ↦
          absurd (not_waiting (err c q1) q (sym (run_refused cast f p c q1 d x) ∙ e) tt)
      | faulted c d x ↦ absurd (not_waiting (fault c) q (sym (run_faulted cast f p c d x) ∙ e) tt)
      | moved r p' d x m ↦
          let later : run cast f p' ≡ some (ok parsing q) =
            sym (run_moved cast f p r p' d x m) ∙ e in
          Joins-moved p p' q r d (moved_extended (suc f) p p' q r n e d x m) m
            (λ fin. over-parsing f p' q fin later) (run-Joins f p' q n later)
      | stuck r p' d x s ↦ Joins-self p q (
          stuck_same (suc f) p p' q r n e d x s
          ∙ same_parser (sym (run_stuck cast f p r p' d x s) ∙ e))
    ]

  -- Where `parse` wants more input before a chunked body, it does not matter whether the next
  -- piece comes in a call of its own or together with the first: state and result are the same.
  pub parse-append :
      (p q : Parser) (a b : Bytes)
      → q.step ≢ Step.chunked_body
      → parse cast p a ≡ some (ok parsing q)
      → parse cast p (a ++ b) ≡ parse cast q b
  unfolding parse
  parse-append p q a b n e =
      rw (← append_assoc p.buffer a b)
        (run-Joins b _ (record p { buffer = p.buffer ++ a }) q n e _ _ (le_refl _) (le_refl _))
