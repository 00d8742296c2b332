-- ===== src/ResponseWriter/Whole.antt =====
-- A whole response, from bind_to on, over any number of calls.
use barcelona.Base.{ℕ, zero, suc, ◌≡◌, refl, sym, ap, ◌∙◌, true, ◌++◌, arith, append-nil}
use barcelona.Base.Text.{Bytes}
use barcelona.Base.Int.{ℤ}
use barcelona.Http.{bytes, Response}
use barcelona.Io.{Sinker, Reliable}
use barcelona.ResponseWriter.{
  Writer, sending_headers, reset, bind_to, serialize_headers, is_finished, write_to,
}
use barcelona.ResponseWriter.Kept.{write_to-Kept}
use barcelona.ResponseWriter.Delivery.{Delivers, write_to-Delivers, write_to-finished}
use barcelona.ResponseWriter.Files.{calls}

module _ {S : Type 0} (k : Sinker S) where
  calls-headers :
      (n : ℕ) (w : Writer) (s : S) → (calls k n w s).0.serialized_headers ≡ w.serialized_headers
  unfolding calls
  calls-headers zero w s = refl
  calls-headers (suc n) w s =
      calls-headers n (write_to k w s).writer (write_to k w s).sink ∙ (write_to-Kept k w s).2

  module _ (sent : S → Bytes) (body before : Bytes) (reliable : Reliable k sent) where
    calls-Delivers :
        (n : ℕ) (w : Writer) (s : S)
        → Delivers w.state body before (sent s) w
        → let c = calls k n w s in Delivers c.0.state body before (sent c.1) c.0
    unfolding calls
    calls-Delivers zero w s d = d
    calls-Delivers (suc n) w s d =
        calls-Delivers n (write_to k w s).writer (write_to k w s).sink
          (write_to-Delivers sent body before k reliable w s d)

    bound-Delivers :
        (format_int : ℤ → Bytes) (r : Response) (s : S)
        → r.body ≡ bytes body
        → sent s ≡ before
        → Delivers sending_headers body before (sent s) (bind_to format_int r reset)
    unfolding bind_to
    bound-Delivers format_int r s b e = record {
      in_memory = b;
      progress = (omega arith, refl);
      output = e ∙ sym (append-nil before);
    }

    -- A response with its body in memory is bound to a writer that has been reset, over a reliable
    -- sink. After any number of calls of `writeTo`, whatever parts of the response the sink took,
    -- where a further call returns Finished, exactly the headers of this response and then its body
    -- have been sent.
    pub whole_response :
        (n : ℕ) (format_int : ℤ → Bytes) (r : Response) (s : S)
        → r.body ≡ bytes body
        → sent s ≡ before
        → let c = calls k n (bind_to format_int r reset) s in
          is_finished (write_to k c.0 c.1).result ≡ true
          → sent (write_to k c.0 c.1).sink ≡ before ++ (serialize_headers format_int r ++ body)
    unfolding bind_to
    whole_response n format_int r s b e f =
        let w = bind_to format_int r reset in
        let c = calls k n w s in
        write_to-finished sent body before k reliable c.0 c.1
          (calls-Delivers n w s (bound-Delivers format_int r s b e)) f
        ∙ ap (λ h. before ++ (h ++ body)) (calls-headers n w s)
