-- ===== src/RequestParser/Total.antt =====
-- The loop of `parse` ends, and its fuel does not matter once there is enough.
use barcelona.Base.{
  ℕ, zero, suc, ◌+◌, ◌≤◌, ◌≡◌, refl, sym, ◌∙◌, Bool, true, false, ◌||◌, Option, some, ◌⊎◌, inl, inr,
  ◌++◌, arith, ltb, ltb→lt, length, Bool-cases,
}
use barcelona.Base.Text.{Bytes}
use barcelona.Http.{Method}
use barcelona.Http.Status.{StatusCode}
use barcelona.RequestParser.{
  State, finished, parsing, ParseResult, Parser, Fault, Outcome, ok, err, fault,
}
use barcelona.RequestParser.Loop.{is_completed, advance, run, parse}

abbrev pub goes_on : Parser → Parser → Bool
goes_on p q = ltb (length q.buffer) (length p.buffer) || is_completed q.step

-- How one round of the loop ends.
pub data Round (enum_cast : Bytes → Option Method) (p : Parser) : Type 0 where
  done : is_completed p.step ≡ true → Round enum_cast p
  refused :
      (c : StatusCode) (q : Parser)
      → is_completed p.step ≡ false
      → advance enum_cast p.step p ≡ err c q
      → Round enum_cast p
  faulted :
      (e : Fault)
      → is_completed p.step ≡ false
      → advance enum_cast p.step p ≡ fault e
      → Round enum_cast p
  moved :
      (r : ParseResult) (q : Parser)
      → is_completed p.step ≡ false
      → advance enum_cast p.step p ≡ ok r q
      → goes_on p q ≡ true
      → Round enum_cast p
  stuck :
      (r : ParseResult) (q : Parser)
      → is_completed p.step ≡ false
      → advance enum_cast p.step p ≡ ok r q
      → goes_on p q ≡ false
      → Round enum_cast p

or_false : (a b : Bool) → (a || b) ≡ false → b ≡ false
or_false a b h = ground arith

module _ (enum_cast : Bytes → Option Method) where
  Round-of :
      (p : Parser) (o : Outcome ParseResult)
      → is_completed p.step ≡ false
      → advance enum_cast p.step p ≡ o
      → Round enum_cast p
  Round-of p (ok r q) h e = elim (Bool-cases (goes_on p q)) [
    | inl g ↦ moved r q h e g
    | inr g ↦ stuck r q h e g
  ]
  Round-of p (err c q) h e = refused c q h e
  Round-of p (fault x) h e = faulted x h e

  pub rounds : (p : Parser) → Round enum_cast p
  rounds p = elim (Bool-cases (is_completed p.step)) [
    | inl h ↦ done h
    | inr h ↦ Round-of p (advance enum_cast p.step p) h refl
  ]

  module _ (f : ℕ) (p : Parser) where
    pub run_done : is_completed p.step ≡ true → run enum_cast (suc f) p ≡ some (ok finished p)
    unfolding run
    run_done h = rw (h, run)

    pub run_refused :
        (c : StatusCode) (q : Parser)
        → is_completed p.step ≡ false
        → advance enum_cast p.step p ≡ err c q
        → run enum_cast (suc f) p ≡ some (err c q)
    unfolding run
    run_refused c q h e = rw (h, e, run)

    pub run_faulted :
        (x : Fault)
        → is_completed p.step ≡ false
        → advance enum_cast p.step p ≡ fault x
        → run enum_cast (suc f) p ≡ some (fault x)
    unfolding run
    run_faulted x h e = rw (h, e, run)

    pub run_moved :
        (r : ParseResult) (q : Parser)
        → is_completed p.step ≡ false
        → advance enum_cast p.step p ≡ ok r q
        → goes_on p q ≡ true
        → run enum_cast (suc f) p ≡ run enum_cast f q
    unfolding run
    run_moved r q h e g = rw (h, e, g, run)

    pub run_stuck :
        (r : ParseResult) (q : Parser)
        → is_completed p.step ≡ false
        → advance enum_cast p.step p ≡ ok r q
        → goes_on p q ≡ false
        → run enum_cast (suc f) p ≡ some (ok parsing q)
    unfolding run
    run_stuck r q h e g =
        rw
          (h, e, g, or_false (ltb (length q.buffer) (length p.buffer)) (is_completed q.step) g, run)

  -- A round that goes on leaves less to do.
  pub goes_on_fuel :
      (f : ℕ) (p q : Parser)
      → length p.buffer + 2 ≤ suc f
      → goes_on p q ≡ true
      → (length q.buffer + 2 ≤ f) ⊎ (is_completed q.step ≡ true)
  goes_on_fuel f p q h e = elim (Bool-cases (ltb (length q.buffer) (length p.buffer))) [
    | inl s ↦ inl (omega (arith, ltb→lt _ _ s))
    | inr s ↦ inr (ground arith)
  ]

  pub run_done_fuel :
      (f : ℕ) (p : Parser)
      → 1 ≤ f
      → is_completed p.step ≡ true
      → run enum_cast f p ≡ some (ok finished p)
  run_done_fuel zero p h e = absurd (omega arith)
  run_done_fuel (suc f) p h e = run_done f p e

  -- With enough fuel two runs agree.
  pub run_fuel :
      (f g : ℕ) (p : Parser)
      → length p.buffer + 2 ≤ f
      → length p.buffer + 2 ≤ g
      → run enum_cast f p ≡ run enum_cast g p
  run_fuel zero g p h k = absurd (omega arith)
  run_fuel (suc f) zero p h k = absurd (omega arith)
  run_fuel (suc f) (suc g) p h k = elim (rounds p) [
    | done d ↦ run_done f p d ∙ sym (run_done g p d)
    | refused c q d e ↦ run_refused f p c q d e ∙ sym (run_refused g p c q d e)
    | faulted x d e ↦ run_faulted f p x d e ∙ sym (run_faulted g p x d e)
    | stuck r q d e s ↦ run_stuck f p r q d e s ∙ sym (run_stuck g p r q d e s)
    | moved r q d e m ↦
        run_moved f p r q d e m
        ∙ elim (goes_on_fuel f p q h m) [
          | inr fin ↦
              run_done_fuel f q (omega arith) fin ∙ sym (run_done_fuel g q (omega arith) fin)
          | inl less ↦ elim (goes_on_fuel g p q k m) [
            | inr fin ↦
                run_done_fuel f q (omega arith) fin ∙ sym (run_done_fuel g q (omega arith) fin)
            | inl less' ↦ run_fuel f g q less less'
          ]
        ]
        ∙ sym (run_moved g p r q d e m)
  ]

  -- With enough fuel the loop ends.
  pub run_total :
      (f : ℕ) (p : Parser)
      → length p.buffer + 2 ≤ f
      → (r : Outcome State) × (run enum_cast f p ≡ some r)
  run_total zero p h = absurd (omega arith)
  run_total (suc f) p h = elim (rounds p) [
    | done d ↦ (ok finished p, run_done f p d)
    | refused c q d e ↦ (err c q, run_refused f p c q d e)
    | faulted x d e ↦ (fault x, run_faulted f p x d e)
    | stuck r q d e s ↦ (ok parsing q, run_stuck f p r q d e s)
    | moved r q d e m ↦ elim (goes_on_fuel f p q h m) [
      | inr fin ↦ (ok finished q, run_moved f p r q d e m ∙ run_done_fuel f q (omega arith) fin)
      | inl less ↦ let (o, eq) = run_total f q less in (o, run_moved f p r q d e m ∙ eq)
    ]
  ]

  -- `parse` returns, with a state, a status code or a fault, on every input in every state.
  pub parse_total :
      (p : Parser) (input : Bytes) → (r : Outcome State) × (parse enum_cast p input ≡ some r)
  unfolding parse
  parse_total p input =
      run_total (length (p.buffer ++ input) + 2) (record p { buffer = p.buffer ++ input })
        (omega arith)
