-- ===== src/Io/TcpSinker.antt =====
-- lib/tcp/src/TcpSinker.cc over the system calls write(2) and sendfile(2), which are parameters.
use barcelona.Base.{
  ℕ, ◌+◌, ◌*◌, ◌≤◌, ◌<◌, ◌≡◌, refl, Bool, true, false, ◌++◌, ltb, ◌==◌, if◌then◌else◌, length, take,
  arith, append-nil, sym, Bool-cases, inl, inr,
}
use barcelona.Base.Text.{Bytes}
use barcelona.Base.Expected.{Expected, ok, err}
use barcelona.Io.{
  WriteStatus, finished, continues, WriteResult, Error, fd_not_set, system, Sending, Sinker, Writes,
  Reliable,
}

-- The result of a system call: -1 with an errno, or a number of bytes.
pub data Returned : Type 0 where
  failed : ℕ → Returned
  count : ℕ → Returned

pub record FileReturned (K : Type 0) : Type 0 where
  pub kernel : K
  pub offset : ℕ
  pub result : Returned

pub record Kernel (K : Type 0) : Type 0 where
  pub write : K → Bytes → K × Returned
  pub sendfile : K → ℕ → ℕ → ℕ → FileReturned K
  pub would_block : ℕ → Bool

-- write(2): at most what was given is sent, and a failure sends nothing.
abbrev pub Transfers : {K : Type 0} → (K → Bytes) → K → Bytes → K × Returned → Type 0
Transfers sent k input (k', count n) = (n ≤ length input) × (sent k' ≡ sent k ++ take n input)
Transfers sent k input (k', failed e) = sent k' ≡ sent k

abbrev write_result : WriteStatus → ℕ → Expected WriteResult Error
write_result s n = ok (record { status = s; bytes_sent = n })

module _ {K : Type 0} (sys : Kernel K) where
  of_failure : ℕ → Expected WriteResult Error
  of_failure e = if sys.would_block e then write_result continues 0 else err (system e)

  of_count : ℕ → ℕ → Expected WriteResult Error
  of_count n len = if ltb n len then write_result continues n else write_result finished n

  of_written : ℕ → K × Returned → K × Expected WriteResult Error
  unfolding of_failure of_count
  of_written len (k, failed e) = (k, of_failure e)
  of_written len (k, count n) = (k, of_count n len)

  -- `TcpSinker::write`; `fd_set` says that `fd_` is not -1.
  unfoldable pub tcp_write : Bool → K → Bytes → K × Expected WriteResult Error
  unfolding of_written
  tcp_write fd_set k input =
      if fd_set
      then if length input == 0
        then (k, write_result finished 0)
        else of_written (length input) (sys.write k input)
      else (k, err fd_not_set)

  -- `offset += bytes_sent`, behind a call that took the address of `offset`.
  of_sent : ℕ → FileReturned K → Returned → Sending K
  unfolding of_failure of_count
  of_sent len f (failed e) = record { sink = f.kernel; offset = f.offset; result = of_failure e }
  of_sent len f (count n) = record {
    sink = f.kernel;
    offset = f.offset + n;
    result = of_count n len;
  }

  -- `TcpSinker::sendfile`
  unfoldable pub tcp_sendfile : Bool → K → ℕ → ℕ → ℕ → Sending K
  unfolding of_sent
  tcp_sendfile fd_set k in_fd offset len =
      if fd_set
      then if len == 0
        then record { sink = k; offset = offset; result = write_result finished 0 }
        else (let f = sys.sendfile k in_fd offset len in of_sent len f f.result)
      else record { sink = k; offset = offset; result = err fd_not_set }

  unfoldable pub tcp_sinker : Bool → Sinker K
  tcp_sinker fd_set = record { write = tcp_write fd_set; sendfile = tcp_sendfile fd_set }

  module _ (sent : K → Bytes) where
    of_written-Writes :
        (k : K) (input : Bytes) (r : K × Returned)
        → Transfers sent k input r
        → Writes sent k input (of_written (length input) r)
    unfolding of_written
    of_written-Writes k input (k', failed e) t = ground (arith, append-nil (sent k))
    of_written-Writes k input (k', count n) t = ground arith

    -- Over a kernel whose write(2) sends a prefix of what it is given, and nothing when it fails,
    -- TcpSinker is a sink that clients may rely on: what it counts is what was sent, and `Finished`
    -- says that all was sent.
    pub tcp_sinker-Reliable :
        (fd_set : Bool)
        → ((k : K) (input : Bytes) → Transfers sent k input (sys.write k input))
        → Reliable (tcp_sinker fd_set) sent
    unfolding tcp_sinker tcp_write
    tcp_sinker-Reliable fd_set t = record { writes = writes fd_set }
      where
        writes : (b : Bool) (k : K) (input : Bytes) → Writes sent k input (tcp_write b k input)
        writes false k input = refl
        writes true k input = elim (Bool-cases (length input == 0)) [
          | inl e ↦ rw (e, tcp_write) (omega arith, sym (append-nil (sent k)), λ _. ground arith)
          | inr e ↦ rw (e, tcp_write) (of_written-Writes k input _ (t k input))
        ]

  -- sendfile(2) leaves the offset behind the last byte that it read. TcpSinker adds the count once
  -- more: after any success of `n` bytes the offset is `2 * n` further.
  pub tcp_sendfile_offset :
      (k : K) (in_fd offset len n : ℕ)
      → 0 < len
      → (sys.sendfile k in_fd offset len).result ≡ count n
      → (sys.sendfile k in_fd offset len).offset ≡ offset + n
      → (tcp_sendfile true k in_fd offset len).offset ≡ offset + 2 * n
  unfolding tcp_sendfile
  tcp_sendfile_offset k in_fd offset len n h r o =
      let some_bytes : (len == 0) ≡ false = ground arith in
      rw (some_bytes, r, tcp_sendfile, of_sent) (omega arith)
