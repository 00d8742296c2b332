-- ===== src/Samples.antt =====
-- Concrete data for the tests: a cast of method names, system calls that write one byte at a time,
-- and a dispatcher that answers every request with "hi".
use barcelona.Base.{
  ◌+◌, refl, sym, true, Option, none, some, [], ◌∷◌, ◌++◌, if◌then◌else◌, arith, append-nil, ◌==◌,
}
use barcelona.Base.Text.{Bytes, codes, equal}
use barcelona.Base.Int.{pos}
use barcelona.Base.Expected.{ok}
use barcelona.Http.{Method, get, post, bytes, default_response}
use barcelona.Io.{Sinker}
use barcelona.Io.TcpSinker.{Kernel, Returned, count, Transfers, tcp_sinker}
use barcelona.ProtocolHandler.{Dispatcher, Formats}

abbrev pub cast : Bytes → Option Method
cast s =
    if equal s (codes "GET") then some get else if equal s (codes "POST") then some post else none

abbrev pub slow_write : Bytes → Bytes → Bytes × Returned
slow_write k [] = (k, count 0)
slow_write k (c ∷ s) = (k ++ (c ∷ []), count 1)

-- What the peer has been sent is the state.
abbrev pub slow : Kernel Bytes
slow = record {
  write = slow_write;
  sendfile = λ k in_fd offset len. record { kernel = k; offset = offset + 3; result = count 3 };
  would_block = λ e. e == 11;
}

pub slow_write-Transfers :
    (k input : Bytes) → Transfers (λ (x : Bytes). x) k input (slow_write k input)
slow_write-Transfers k [] = (omega arith, sym (append-nil k))
slow_write-Transfers k (c ∷ s) = (omega arith, refl)

abbrev pub slow_sinker : Sinker Bytes
slow_sinker = tcp_sinker slow true

abbrev pub greeter : Dispatcher
greeter = record {
  handle_request = λ r. ok (record default_response { body = bytes (codes "hi") });
  handle_error = λ c. record default_response { status_code = pos 400 };
}

abbrev pub formats : Formats
formats = record { enum_cast = cast; enum_name = λ c. codes "OK"; format_int = λ n. codes "200" }
