-- ===== src/Io.antt =====
-- The I/O interfaces: results of lib/common/include/Status.hpp, ISinker of lib/io/include, and the
-- system calls that lib/tcp makes. Paths are below project/Webserv.
pub mod TcpSinker
mod Tests
use barcelona.Base.{ℕ, ◌+◌, ◌≤◌, ◌≡◌, ◌↔◌, ◌++◌, List, take, length}
use barcelona.Base.Text.{Bytes}
use barcelona.Base.Expected.{Expected, ok, err}

pub data WriteStatus : Type 0 where
  finished continues : WriteStatus

pub record WriteResult : Type 0 where
  pub status : WriteStatus
  pub bytes_sent : ℕ

-- ErrorCode::Unknown, ErrorCode::Fd_NotSet, or an errno.
pub data Error : Type 0 where
  unknown fd_not_set : Error
  system : ℕ → Error

-- What ISinker::sendfile returns, with the new value of its `offset` argument.
pub record Sending (S : Type 0) : Type 0 where
  pub sink : S
  pub offset : ℕ
  pub result : Expected WriteResult Error

-- ISinker over a state `S`.
pub record Sinker (S : Type 0) : Type 0 where
  pub write : S → Bytes → S × Expected WriteResult Error
  pub sendfile : S → ℕ → ℕ → ℕ → Sending S

-- What a client of `write` relies on, for what the peer has been sent. A failure sends nothing.
abbrev pub Writes : {S : Type 0} → (S → Bytes) → S → Bytes → S × Expected WriteResult Error → Type 0
Writes sent s input (s', ok r) =
    (r.bytes_sent ≤ length input)
    × (sent s' ≡ sent s ++ take r.bytes_sent input)
    × (r.status ≡ finished → r.bytes_sent ≡ length input)
Writes sent s input (s', err e) = sent s' ≡ sent s

pub record Reliable {S : Type 0} (k : Sinker S) (sent : S → Bytes) : Type 0 where
  pub writes : (s : S) (input : Bytes) → Writes sent s input (k.write s input)
