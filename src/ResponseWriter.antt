-- ===== src/ResponseWriter.antt =====
-- lib/http/protocol: ResponseWriter (src/ResponseWriter.cc, include/http/core/ResponseWriter.hpp)
-- and lib/http/utils/include/http/utils/Serializer.hpp. fmt's form of an int is a parameter.
pub mod Delivery
pub mod Kept
pub mod Whole
pub mod Files
mod Tests
use barcelona.Base.{
  ℕ, ◌+◌, Bool, true, false, Option, none, some, List, [], ◌∷◌, ◌++◌, if◌then◌else◌, length, drop,
}
use barcelona.Base.Text.{Bytes, codes, equal}
use barcelona.Base.Dict.{Dict, lookup}
use barcelona.Base.Int.{ℤ}
use barcelona.Base.Expected.{Expected, ok, err}
use barcelona.Http.{FileBody, ResponseBody, bytes, file, Response, default_response}
use barcelona.Io.{WriteStatus, WriteResult, Error, Sending, Sinker}

abbrev crlf : Bytes
crlf = 13 ∷ 10 ∷ []

-- One line for each header, in the order of the map.
unfoldable pub header_lines : Dict → Bytes
header_lines [] = []
header_lines ((k, v) ∷ m) = k ++ (codes ": " ++ (v ++ (crlf ++ header_lines m)))

unfoldable pub serialize_headers : (ℤ → Bytes) → Response → Bytes
unfolding header_lines
serialize_headers format_int r =
    r.version
    ++ (codes " "
        ++ (format_int r.status_code
            ++ (codes " " ++ (r.reason_phrase ++ (crlf ++ (header_lines r.headers ++ crlf))))))

pub data State : Type 0 where
  sending_headers sending_body finished : State

pub record Writer : Type 0 where
  pub response : Response
  pub state : State
  pub serialized_headers : Bytes
  pub header_bytes_sent : ℕ
  pub body_bytes_sent : ℕ
  pub keep_alive : Bool

-- `ResponseWriter()`, which is also what `reset()` leaves.
abbrev pub reset : Writer
reset = record {
  response = default_response;
  state = sending_headers;
  serialized_headers = [];
  header_bytes_sent = 0;
  body_bytes_sent = 0;
  keep_alive = false;
}

unfoldable pub bind_to : (ℤ → Bytes) → Response → Writer → Writer
bind_to format_int r w = record w {
  response = r;
  serialized_headers = serialize_headers format_int r;
}

abbrev pub set_keep_alive : Bool → Writer → Writer
set_keep_alive b w = record w { keep_alive = b }

unfoldable pub is_keep_alive : Writer → Bool
is_keep_alive w = elim (lookup (codes "Connection") w.response.headers) [
  | none ↦ false
  | some v ↦ equal v (codes "keep-alive")
]

-- What a call that writes leaves: the writer, the sink and the result.
pub record Written (S : Type 0) : Type 0 where
  pub writer : Writer
  pub sink : S
  pub result : Expected WriteResult Error

-- `if (res) ... += res->bytes_sent`
abbrev pub counted : Expected WriteResult Error → ℕ
counted (ok r) = r.bytes_sent
counted (err e) = 0

abbrev pub is_finished : Expected WriteResult Error → Bool
is_finished (ok r) = elim r.status [ WriteStatus.finished ↦ true | WriteStatus.continues ↦ false ]
is_finished (err e) = false

abbrev with_state : {S : Type 0} → State → Written S → Written S
with_state st x = record x { writer = record (x.writer) { state = st } }

module _ {S : Type 0} (k : Sinker S) where
  unfoldable pub send_headers : Writer → S → Written S
  send_headers w s =
      let (s', res) = k.write s (drop w.header_bytes_sent w.serialized_headers) in
      record {
        writer = record w { header_bytes_sent = w.header_bytes_sent + counted res };
        sink = s';
        result = res;
      }

  send_bytes : Bytes → Writer → S → Written S
  send_bytes body w s =
      let (s', res) = k.write s (drop w.body_bytes_sent body) in
      record {
        writer = record w { body_bytes_sent = w.body_bytes_sent + counted res };
        sink = s';
        result = res;
      }

  -- `sendfile` takes the offset by reference, and the size of the whole file each time.
  send_file : FileBody → Writer → S → Written S
  send_file f w s =
      let sending = k.sendfile s f.fd f.offset f.size in
      record {
        writer = record w {
          response = record (w.response) { body = file (record f { offset = sending.offset }) };
        };
        sink = sending.sink;
        result = sending.result;
      }

  send_body_of : ResponseBody → Writer → S → Written S
  unfolding send_bytes send_file
  send_body_of (bytes body) w s = send_bytes body w s
  send_body_of (file f) w s = send_file f w s

  unfoldable pub send_body : Writer → S → Written S
  unfolding send_body_of
  send_body w s = send_body_of w.response.body w s

  -- The round of the loop in state SendingBody, which always returns.
  body_round : Writer → S → Written S
  unfolding send_body
  body_round w s =
      let x = send_body w s in if is_finished x.result then with_state finished x else x

  -- The round in state SendingHeaders, which goes on only when all headers are out.
  headers_round : Writer → S → Written S
  unfolding send_headers body_round
  headers_round w s =
      let x = send_headers w s in
      if is_finished x.result
      then body_round (record (x.writer) { state = sending_body }) x.sink
      else x

  write_to_in : State → Writer → S → Written S
  unfolding headers_round body_round
  write_to_in sending_headers w s = headers_round w s
  write_to_in sending_body w s = body_round w s
  write_to_in finished w s = record {
    writer = w;
    sink = s;
    result = ok (record { status = WriteStatus.finished; bytes_sent = 0 });
  }

  -- `writeTo`
  unfoldable pub write_to : Writer → S → Written S
  unfolding write_to_in
  write_to w s = write_to_in w.state w s
