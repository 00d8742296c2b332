-- ===== src/Connection/TcpSource.antt =====
-- lib/tcp/src/TcpSource.cc over read(2): a failure with an errno, or the bytes that were read.
use barcelona.Base.{ℕ, Bool, [], ◌∷◌, if◌then◌else◌}
use barcelona.Base.Text.{Bytes}
use barcelona.Io.{fd_not_set, system}
use barcelona.Connection.{ReadResult, got_data, eof, would_block, read_error}

pub data Received : Type 0 where
  failed : ℕ → Received
  received : Bytes → Received

unfoldable pub of_received : (ℕ → Bool) → Received → ReadResult
of_received is_would_block (failed e) =
    if is_would_block e then would_block else read_error (system e)
of_received is_would_block (received []) = eof
of_received is_would_block (received (c ∷ s)) = got_data (c ∷ s)

-- `TcpSource::read`; `fd_set` says that `fd_` is not -1.
unfoldable pub tcp_read : (ℕ → Bool) → Bool → Received → ReadResult
unfolding of_received
tcp_read is_would_block fd_set r =
    if fd_set then of_received is_would_block r else read_error fd_not_set
