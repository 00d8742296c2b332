-- ===== src/ResponseWriter/Delivery.antt =====
-- A response with its body in memory is delivered byte by byte, over any series of partial writes.
use mathlib.Core.Path.{subst}
use barcelona.Base.{
  not_both, ℕ, zero, suc, ◌+◌, ◌≤◌, ◌≡◌, refl, sym, ap, ◌∙◌, true, [], ◌∷◌, ◌++◌, length, drop,
  take, arith, append_assoc, append-nil, inl, inr, Bool-cases, length-drop,
}
use barcelona.Base.Text.{Bytes}
use barcelona.Base.Expected.{Expected, ok, err}
use barcelona.Http.{bytes}
use barcelona.Io.{WriteStatus, WriteResult, Error, Sinker, Reliable, Writes}
use barcelona.ResponseWriter.Kept.{write_to-Kept}
use barcelona.ResponseWriter.{
  State, sending_headers, sending_body, finished, Writer, Written, counted, is_finished,
  send_headers, send_body, body_round, headers_round, write_to_in, write_to,
}

-- How far the writer has come, by its state.
abbrev pub Progress : State → Writer → Bytes → Type 0
Progress sending_headers w body =
    (w.header_bytes_sent ≤ length w.serialized_headers) × (w.body_bytes_sent ≡ 0)
Progress sending_body w body =
    (w.header_bytes_sent ≡ length w.serialized_headers) × (w.body_bytes_sent ≤ length body)
Progress finished w body =
    (w.header_bytes_sent ≡ length w.serialized_headers) × (w.body_bytes_sent ≡ length body)

-- What a writer in state `st` has sent since it was bound, with `before` sent already.
pub record Delivers (st : State) (body before sent : Bytes) (w : Writer) : Type 0 where
  pub in_memory : w.response.body ≡ bytes body
  pub progress : Progress st w body
  pub output :
      sent
      ≡ before ++ (take w.header_bytes_sent w.serialized_headers ++ take w.body_bytes_sent body)

take-nil : (n : ℕ) → take {A = ℕ} n [] ≡ []
take-nil zero = refl
take-nil (suc n) = refl

take-more : (m n : ℕ) (s : Bytes) → take m s ++ take n (drop m s) ≡ take (m + n) s
take-more zero n s = ap (λ (k : ℕ). take k s) (omega arith)
take-more (suc m) n [] = take-nil n ∙ sym (take-nil (suc m + n))
take-more (suc m) n (x ∷ s) =
    ap (◌∷◌ x) (take-more m n s)
    ∙ ap (λ (k : ℕ). take k (x ∷ s)) (let e : suc (m + n) ≡ suc m + n = omega arith in e)

take-length : (s : Bytes) → take (length s) s ≡ s
take-length [] = refl
take-length (x ∷ s) = ap (◌∷◌ x) (take-length s)

-- The output behind one more piece of the headers, while no byte of the body is out.
headers_output :
    (before headers body : Bytes) (h b n : ℕ)
    → b ≡ 0
    → (before ++ (take h headers ++ take b body)) ++ take n (drop h headers)
      ≡ before ++ (take (h + n) headers ++ take b body)
headers_output before headers body h b n z =
    rw z (simp (append_assoc, append-nil) (ap (◌++◌ before) (take-more h n headers)))

body_output :
    (before headers body : Bytes) (b n : ℕ)
    → (before ++ (headers ++ take b body)) ++ take n (drop b body)
      ≡ before ++ (headers ++ take (b + n) body)
body_output before headers body b n =
    simp append_assoc (ap (λ x. before ++ (headers ++ x)) (take-more b n body))

finished_status : (r : WriteResult) → is_finished (ok r) ≡ true → r.status ≡ WriteStatus.finished
finished_status r e = ground arith

module _ {S : Type 0} (sent : S → Bytes) (body before : Bytes) where
  headers_written :
      (w : Writer) (s : S) (r : S × Expected WriteResult Error)
      → Delivers sending_headers body before (sent s) w
      → Writes sent s (drop w.header_bytes_sent w.serialized_headers) r
      → Delivers sending_headers body before
          (sent r.0)
          (record w { header_bytes_sent = w.header_bytes_sent + counted r.1 })
        × (is_finished r.1 ≡ true → w.header_bytes_sent + counted r.1 ≡ length w.serialized_headers)
  headers_written w s (s', ok r) d wr =
      let left = length-drop w.header_bytes_sent w.serialized_headers in
      (
        record {
          in_memory = d.in_memory;
          progress = (omega (arith, wr.0, left, d.progress.0), d.progress.1);
          output =
              wr.1
              ∙ ap (λ x. x ++ take r.bytes_sent (drop w.header_bytes_sent w.serialized_headers))
                  d.output
              ∙ headers_output before w.serialized_headers body w.header_bytes_sent
                  w.body_bytes_sent r.bytes_sent d.progress.1;
        },
        λ f. omega (arith, wr.2 (finished_status r f), left, d.progress.0),
      )
  headers_written w s (s', err e) d wr =
      let none_sent : w.header_bytes_sent + 0 ≡ w.header_bytes_sent = omega arith in
      (
        record {
          in_memory = d.in_memory;
          progress = (omega (arith, d.progress.0), d.progress.1);
          output = rw none_sent (wr ∙ d.output);
        },
        λ f. cc,
      )

  body_written :
      (w : Writer) (s : S) (r : S × Expected WriteResult Error)
      → Delivers sending_body body before (sent s) w
      → Writes sent s (drop w.body_bytes_sent body) r
      → Delivers sending_body body before
          (sent r.0)
          (record w { body_bytes_sent = w.body_bytes_sent + counted r.1 })
        × (is_finished r.1 ≡ true → w.body_bytes_sent + counted r.1 ≡ length body)
  body_written w s (s', ok r) d wr =
      let left = length-drop w.body_bytes_sent body in
      (
        record {
          in_memory = d.in_memory;
          progress = (d.progress.0, omega (arith, wr.0, left, d.progress.1));
          output =
              wr.1
              ∙ ap (λ x. x ++ take r.bytes_sent (drop w.body_bytes_sent body)) d.output
              ∙ body_output before (take w.header_bytes_sent w.serialized_headers) body
                  w.body_bytes_sent r.bytes_sent;
        },
        λ f. omega (arith, wr.2 (finished_status r f), left, d.progress.1),
      )
  body_written w s (s', err e) d wr =
      let none_sent : w.body_bytes_sent + 0 ≡ w.body_bytes_sent = omega arith in
      (
        record {
          in_memory = d.in_memory;
          progress = (d.progress.0, omega (arith, d.progress.1));
          output = rw none_sent (wr ∙ d.output);
        },
        λ f. cc,
      )

  in_state :
      {st st' : State} {w : Writer} {out : Bytes}
      → st' ≡ st
      → Delivers st body before out w
      → Delivers st' body before out w
  in_state {w = w} {out = out} e d = subst (λ z. Delivers z body before out w) (sym e) d

  -- What a call of `writeTo` leaves.
  abbrev Leaves : Written S → Type 0
  Leaves x =
      Delivers x.writer.state body before (sent x.sink) x.writer
      × (is_finished x.result ≡ true → x.writer.state ≡ finished)

  module _ (k : Sinker S) (reliable : Reliable k sent) where
    body_round-Leaves :
        (w : Writer) (s : S)
        → w.state ≡ sending_body
        → Delivers sending_body body before (sent s) w
        → Leaves (body_round k w s)
    unfolding body_round send_body
    body_round-Leaves w s st d =
        let r = k.write s (drop w.body_bytes_sent body) in
        let (d', f) = body_written w s r d (reliable.writes s (drop w.body_bytes_sent body)) in
        rw (d.in_memory, send_body)
          (elim (Bool-cases (is_finished r.1)) [
            | inl e ↦ rw e (
              record { in_memory = refl; progress = (d'.progress.0, f e); output = d'.output },
              λ _. refl,
            )
            | inr e ↦ rw e (
              in_state st (record { in_memory = refl; progress = d'.progress; output = d'.output }),
              λ g. absurd (not_both _ g e),
            )
          ])

    headers_round-Leaves :
        (w : Writer) (s : S)
        → w.state ≡ sending_headers
        → Delivers sending_headers body before (sent s) w
        → Leaves (headers_round k w s)
    unfolding headers_round send_headers
    headers_round-Leaves w s st d =
        let input = drop w.header_bytes_sent w.serialized_headers in
        let r = k.write s input in
        let (d', f) = headers_written w s r d (reliable.writes s input) in
        elim (Bool-cases (is_finished r.1)) [
          | inl e ↦
              rw (e, headers_round)
                (body_round-Leaves _ _ refl (record {
                  in_memory = d'.in_memory;
                  progress = (f e, omega (arith, d'.progress.1));
                  output = d'.output;
                }))
          | inr e ↦ rw (e, headers_round) (in_state st d', λ g. absurd (not_both _ g e))
        ]

    write_to_in-Leaves :
        (st : State) (w : Writer) (s : S)
        → w.state ≡ st
        → Delivers st body before (sent s) w
        → Leaves (write_to_in k st w s)
    unfolding write_to_in
    write_to_in-Leaves sending_headers w s e d = headers_round-Leaves w s e d
    write_to_in-Leaves sending_body w s e d = body_round-Leaves w s e d
    write_to_in-Leaves finished w s e d = (in_state e d, λ _. e)

    Delivers-all :
        (st : State) (w : Writer) (out : Bytes)
        → st ≡ finished
        → Delivers st body before out w
        → out ≡ before ++ (w.serialized_headers ++ body)
    Delivers-all finished w out e d =
        d.output
        ∙ rw (d.progress.0, d.progress.1) (rw (take-length w.serialized_headers, take-length body))
    Delivers-all _ w out e d = cc

    -- A call of `writeTo` on a reliable sink keeps the account of what has been sent, whatever part
    -- of it the sink takes: the first bytes of the headers, and the first bytes of the body once
    -- all headers are out, as the two counters say.
    pub write_to-Delivers :
        (w : Writer) (s : S)
        → Delivers w.state body before (sent s) w
        → let x = write_to k w s in Delivers x.writer.state body before (sent x.sink) x.writer
    unfolding write_to
    write_to-Delivers w s d = (write_to_in-Leaves w.state w s refl d).0

    -- Where a call of `writeTo` on a reliable sink returns Finished, exactly the serialised headers
    -- and then the body have been sent since the response was bound.
    pub write_to-finished :
        (w : Writer) (s : S)
        → Delivers w.state body before (sent s) w
        → is_finished (write_to k w s).result ≡ true
        → sent (write_to k w s).sink ≡ before ++ (w.serialized_headers ++ body)
    unfolding write_to
    write_to-finished w s d g =
        let (d', f) = write_to_in-Leaves w.state w s refl d in
        Delivers-all _ _ _ (f g) d' ∙ ap (λ h. before ++ (h ++ body)) (write_to-Kept k w s).2
