-- ===== src/ProtocolHandler/Sending.antt =====
-- While a write is not done, the handler goes on wanting to write.
use barcelona.Base.{ℕ, ◌≡◌, refl}
use barcelona.Base.Expected.{ok}
use barcelona.Io.{WriteStatus, Sinker}
use barcelona.ResponseWriter.{Written, write_to}
use barcelona.ProtocolHandler.{
  State, sending_response, want_write, Handler, get_status, on_write_ready, on_write_ready_in,
  after_write,
}

module _ {S : Type 0} (k : Sinker S) where
  after_write-sends :
      (x : Written S) (h : Handler) (n : ℕ)
      → h.state ≡ sending_response
      → x.result ≡ ok (record { status = WriteStatus.continues; bytes_sent = n })
      → get_status (after_write h x).handler.state ≡ want_write
  unfolding get_status
  after_write-sends x h n w e = rw (after_write, e, w) refl

  on_write_ready_in-sends :
      (st : State) (h : Handler) (s : S) (n : ℕ)
      → h.state ≡ st
      → (on_write_ready_in st k h s).result
        ≡ ok (record { status = WriteStatus.continues; bytes_sent = n })
      → get_status (on_write_ready_in st k h s).handler.state ≡ want_write
  unfolding on_write_ready_in
  on_write_ready_in-sends sending_response h s n w e =
      after_write-sends (write_to k h.writer s) h n w e
  on_write_ready_in-sends _ h s n w e = cc

  pub on_write_ready-sends :
      (h : Handler) (s : S) (n : ℕ)
      → (on_write_ready k h s).result
        ≡ ok (record { status = WriteStatus.continues; bytes_sent = n })
      → get_status (on_write_ready k h s).handler.state ≡ want_write
  unfolding on_write_ready
  on_write_ready-sends h s n e = on_write_ready_in-sends h.state h s n refl e
