-- ===== src/ResponseWriter/Tests.antt =====
-- Runs of the writer.
use barcelona.Base.{◌≡◌, refl, true, false, [], ◌++◌, ◌+◌, arith, ltb, if◌then◌else◌}
use barcelona.Base.Text.{Bytes, codes}
use barcelona.Http.{default_response, Response, bytes, file, FileBody}
use barcelona.Io.TcpSinker.{Kernel, count, tcp_sinker, tcp_sinker-Reliable, tcp_write}
use barcelona.ResponseWriter.{
  Writer, sending_body, reset, is_finished, write_to, send_body, bind_to, serialize_headers,
  send_headers,
}
use barcelona.ResponseWriter.Whole.{whole_response}
use barcelona.Base.Int.{ℤ}
use barcelona.ResponseWriter.Files.{IsSendfile, calls, file_never_finishes}
use barcelona.Samples.{slow, slow_sinker, slow_write-Transfers}

-- Bound to the body "hi", with one byte of headers, and nothing sent.
abbrev hi : Response
hi = record default_response { body = bytes (codes "hi") }

abbrev format : ℤ → Bytes
format n = codes "200"

-- One byte a call, and the first byte of the body in the call that ends the headers.
after_twenty :
    let c = calls slow_sinker 19 (bind_to format hi reset) (codes "old") in
    is_finished (write_to slow_sinker c.0 c.1).result ≡ true
unfolding calls bind_to serialize_headers write_to send_headers send_body tcp_sinker tcp_write
after_twenty = refl

whole_response_example :
    let c = calls slow_sinker 19 (bind_to format hi reset) (codes "old") in
    (write_to slow_sinker c.0 c.1).sink ≡ codes "old" ++ (serialize_headers format hi ++ codes "hi")
whole_response_example =
    whole_response slow_sinker (λ k. k) (codes "hi") (codes "old")
      (tcp_sinker-Reliable slow (λ k. k) true slow_write-Transfers) 19 format hi (codes "old") refl
      refl after_twenty

-- A kernel that sends one byte of a file of ten at a time.
abbrev one_by_one : Kernel Bytes
one_by_one = record {
  write = λ k input. (k, count 0);
  sendfile = λ k fd offset len. record {
    kernel = k;
    offset = if ltb offset 10 then offset + 1 else offset;
    result = if ltb offset 10 then count 1 else count 0;
  };
  would_block = λ e. true;
}

one_by_one-IsSendfile : IsSendfile one_by_one (λ fd. 10)
one_by_one-IsSendfile = record {
  forward = λ k fd offset len. ground arith;
  in_file = λ k fd offset len n e some_bytes. ground arith;
}

abbrev begun : FileBody
begun = record { fd = 4; size = 10; offset = 1 }

abbrev in_file : Writer
in_file = record reset {
  state = sending_body;
  response = record default_response { body = file begun };
}

file_never_finishes_example :
    let (w, k) = calls (tcp_sinker one_by_one true) 20 in_file [] in
    is_finished (write_to (tcp_sinker one_by_one true) w k).result ≡ false
file_never_finishes_example =
    file_never_finishes one_by_one (λ fd. 10) one_by_one-IsSendfile true 20 begun in_file []
      (record { state = refl; body = refl; size = refl; begun = omega arith; filled = omega arith })
