-- ===== src/ProtocolHandler.antt =====
-- lib/http/protocol/src/HttpProtocolHandler.cc: from the parser through the dispatcher to the
-- writer. The dispatcher is an interface; `none` is a fault of the parser.
pub mod Lifecycle
pub mod Sending
mod Tests
use barcelona.Base.{
  ℕ, ◌+◌, Bool, true, false, ◌&&◌, Option, none, some, List, [], ◌∷◌, if◌then◌else◌,
}
use barcelona.Base.Text.{Bytes, codes}
use barcelona.Base.Dict.{insert}
use barcelona.Base.Int.{ℤ, pos, ltb_ℤ}
use barcelona.Base.Expected.{Expected}
use barcelona.Http.{Method, Request, Response}
use barcelona.Http.Status.{StatusCode, internal_server_error}
use barcelona.Io.{WriteResult, Error, unknown, Sinker}
use barcelona.RequestParser.{Parser, Outcome}
use barcelona.RequestParser
use barcelona.RequestParser.Loop.{parse}
use barcelona.ResponseWriter.{
  Writer, Written, bind_to, set_keep_alive, is_keep_alive, is_finished, write_to,
}
use barcelona.ResponseWriter
use barcelona.Response.{create_stock_response}

pub data State : Type 0 where
  waiting_for_headers reading_body generating_response sending_response finished : State

-- core::protocol::Status
pub data Status : Type 0 where
  want_read want_write over error : Status

pub record Handler : Type 0 where
  pub state : State
  pub parser : Parser
  pub writer : Writer

-- IRequestDispatcher
pub record Dispatcher : Type 0 where
  pub handle_request : Request → Expected Response Error
  pub handle_error : StatusCode → Response

-- magic_enum and fmt, as far as this code calls them.
pub record Formats : Type 0 where
  pub enum_cast : Bytes → Option Method
  pub enum_name : StatusCode → Bytes
  pub format_int : ℤ → Bytes

unfoldable pub get_status : State → Status
get_status waiting_for_headers = want_read
get_status reading_body = want_read
get_status sending_response = want_write
get_status finished = over
get_status generating_response = error

abbrev pub connection_value : Bool → Bytes
connection_value true = codes "keep-alive"
connection_value false = codes "close"

module _ (d : Dispatcher) (fm : Formats) where
  unfoldable pub process_response : Response → Handler → Handler
  process_response r h =
      let keep_alive = h.parser.client_wants_keep_alive && ltb_ℤ r.status_code (pos 400) in
      let answer = record r {
        headers = insert (codes "Connection") (connection_value keep_alive) r.headers;
      } in
      record h {
        writer = bind_to fm.format_int answer (set_keep_alive keep_alive h.writer);
        state = sending_response;
      }

  -- `generateResponse()`
  generate_response : Handler → Handler
  generate_response h = elim (d.handle_request h.parser.request) [
    | Expected.ok r ↦ process_response r h
    | Expected.err e ↦ process_response (create_stock_response fm.enum_name internal_server_error) h
  ]

  -- `generateResponse(code)`
  generate_error : StatusCode → Handler → Handler
  generate_error code h = process_response (d.handle_error code) h

  with_parser : Parser → Handler → Handler
  with_parser p h = record h { parser = p }

  on_parsed : Handler → Option (Outcome RequestParser.State) → Option Handler
  unfolding generate_response generate_error with_parser
  on_parsed h none = none
  on_parsed h (some (Outcome.ok RequestParser.State.parsing p)) = some (with_parser p h)
  on_parsed h (some (Outcome.ok RequestParser.State.finished p)) =
      some (generate_response (with_parser p h))
  on_parsed h (some (Outcome.err code p)) = some (generate_error code (with_parser p h))
  on_parsed h (some (Outcome.fault e)) = none

  on_data_in : State → Bytes → Handler → Option Handler
  unfolding on_parsed
  on_data_in waiting_for_headers input h = on_parsed h (parse fm.enum_cast h.parser input)
  on_data_in reading_body input h = on_parsed h (parse fm.enum_cast h.parser input)
  on_data_in _ input h = some h

  -- `onData`
  unfoldable pub on_data : Bytes → Handler → Option Handler
  unfolding on_data_in
  on_data input h = on_data_in h.state input h

unfoldable pub on_read_eof : Handler → Handler
on_read_eof h = record h { state = finished }

unfoldable pub reset_for_new_request : Handler → Handler
reset_for_new_request h = record {
  state = waiting_for_headers;
  parser = RequestParser.reset h.parser;
  writer = ResponseWriter.reset;
}

unfoldable pub on_response_finished : Handler → Handler
unfolding reset_for_new_request
on_response_finished h =
    if is_keep_alive h.writer then reset_for_new_request h else record h { state = finished }

pub record Ready (S : Type 0) : Type 0 where
  pub handler : Handler
  pub sink : S
  pub result : Expected WriteResult Error

abbrev after_write : {S : Type 0} → Handler → Written S → Ready S
after_write h x =
    let h' = record h { writer = x.writer } in
    record {
      handler = if is_finished x.result then on_response_finished h' else h';
      sink = x.sink;
      result = x.result;
    }

on_write_ready_in : {S : Type 0} → State → Sinker S → Handler → S → Ready S
on_write_ready_in sending_response k h s = after_write h (write_to k h.writer s)
on_write_ready_in _ k h s = record { handler = h; sink = s; result = Expected.err unknown }

-- `onWriteReady`; the writer is there from the constructor on.
unfoldable pub on_write_ready : {S : Type 0} → Sinker S → Handler → S → Ready S
unfolding on_write_ready_in
on_write_ready k h s = on_write_ready_in h.state k h s
