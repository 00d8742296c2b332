-- ===== src/ProtocolHandler/Lifecycle.antt =====
-- The life of the handler over the calls of a connection.
use mathlib.Core.Path.{subst}
use barcelona.Base.{
  same_some, ℕ, ◌≡◌, ◌≢◌, refl, sym, ap, ◌∙◌, inl, inr, Bool, true, false, ◌&&◌, some, Bool-cases,
  arith,
}
use barcelona.Base.Text.{Bytes, codes, equal}
use barcelona.Base.Dict.{insert, lookup-insert_self}
use barcelona.Base.Int.{ℤ, pos, ltb_ℤ}
use barcelona.Base.Expected.{Expected-cases}
use barcelona.Http.{Response}
use barcelona.Io.{Sinker}
use barcelona.RequestParser.{Parser, Outcome, new_parser}
use barcelona.RequestParser
use barcelona.RequestParser.Valid.{IsValid, new_parser-IsValid, Safe}
use barcelona.RequestParser.Safety.{parse-Safe}
use barcelona.ResponseWriter.{
  Writer, Written, bind_to, set_keep_alive, is_keep_alive, is_finished, write_to, serialize_headers,
}
use barcelona.ResponseWriter.Kept.{write_to-is_keep_alive}
use barcelona.ResponseWriter
use barcelona.ProtocolHandler.{
  State, waiting_for_headers, reading_body, generating_response, sending_response, finished, error,
  Handler, Dispatcher, Formats, get_status, connection_value, process_response, generate_response,
  generate_error, on_parsed, with_parser, on_data_in, on_data, on_read_eof, reset_for_new_request,
  on_response_finished, after_write, on_write_ready_in, on_write_ready,
}

-- What holds of the handler between two calls, by its state.
abbrev pub Phase : State → Handler → Type 0
Phase waiting_for_headers h = IsValid h.parser × (h.writer ≡ ResponseWriter.reset)
Phase reading_body h = ⊥
Phase generating_response h = ⊥
Phase sending_response h = is_keep_alive h.writer ≡ h.writer.keep_alive
Phase finished h = Unit

abbrev pub IsOrderly : Handler → Type 0
IsOrderly h = Phase h.state h

-- `HttpProtocolHandler()` with a new parser and a new writer.
abbrev pub new_handler : ℕ → Handler
new_handler max = record {
  state = waiting_for_headers;
  parser = new_parser max;
  writer = ResponseWriter.reset;
}

connection_keeps : (b : Bool) → equal (connection_value b) (codes "keep-alive") ≡ b
unfolding equal
connection_keeps true = refl
connection_keeps false = refl

-- The answer asks to keep the connection alive exactly if the flag says so.
bound-is_keep_alive :
    (format_int : ℤ → Bytes) (r : Response) (b : Bool) (w : Writer)
    → is_keep_alive (
        bind_to format_int
          (record r { headers = insert (codes "Connection") (connection_value b) r.headers })
          w)
      ≡ b
unfolding is_keep_alive bind_to
bound-is_keep_alive format_int r b w =
    rw (is_keep_alive, lookup-insert_self (codes "Connection") (connection_value b) r.headers)
      (connection_keeps b)

new_handler-IsOrderly : (max : ℕ) → IsOrderly (new_handler max)
new_handler-IsOrderly max = (new_parser-IsValid max, refl)

module _ (d : Dispatcher) (fm : Formats) where
  process_response-IsOrderly : (r : Response) (h : Handler) → IsOrderly (process_response d fm r h)
  unfolding process_response bind_to
  process_response-IsOrderly r h =
      let b = h.parser.client_wants_keep_alive && ltb_ℤ r.status_code (pos 400) in
      bound-is_keep_alive fm.format_int r b (set_keep_alive b h.writer)

  generate_response-IsOrderly : (h : Handler) → IsOrderly (generate_response d fm h)
  unfolding generate_response
  generate_response-IsOrderly h = elim (Expected-cases (d.handle_request h.parser.request)) [
    | inl (r, e) ↦ rw (e, generate_response) (process_response-IsOrderly r h)
    | inr (x, e) ↦ rw (e, generate_response) (process_response-IsOrderly _ h)
  ]

  on_parsed-IsOrderly :
      (o : Outcome RequestParser.State) (h h' : Handler)
      → h.state ≡ waiting_for_headers
      → h.writer ≡ ResponseWriter.reset
      → Safe o
      → on_parsed d fm h (some o) ≡ some h'
      → IsOrderly h'
  unfolding on_parsed with_parser generate_error
  on_parsed-IsOrderly (Outcome.ok RequestParser.State.parsing p) h h' w v s e =
      subst IsOrderly (same_some e) (rw w (s, v))
  on_parsed-IsOrderly (Outcome.ok RequestParser.State.finished p) h h' w v s e =
      subst IsOrderly (same_some e) (generate_response-IsOrderly (record h { parser = p }))
  on_parsed-IsOrderly (Outcome.err c p) h h' w v s e =
      subst IsOrderly (same_some e)
        (process_response-IsOrderly (d.handle_error c) (record h { parser = p }))
  on_parsed-IsOrderly (Outcome.fault x) h h' w v s e = cc

  on_data_in-IsOrderly :
      (st : State) (input : Bytes) (h h' : Handler)
      → h.state ≡ st
      → Phase st h
      → on_data_in d fm st input h ≡ some h'
      → IsOrderly h'
  unfolding on_data_in
  on_data_in-IsOrderly waiting_for_headers input h h' w v e =
      let (o, f, s) = parse-Safe fm.enum_cast h.parser input v.0 in
      on_parsed-IsOrderly o h h' w v.1 s (sym (ap (on_parsed d fm h) f) ∙ e)
  on_data_in-IsOrderly reading_body input h h' w v e = absurd v
  on_data_in-IsOrderly generating_response input h h' w v e = absurd v
  on_data_in-IsOrderly sending_response input h h' w v e = subst IsOrderly (same_some e) (rw w v)
  on_data_in-IsOrderly finished input h h' w v e = subst IsOrderly (same_some e) (rw w v)

reset_for_new_request-IsOrderly : (h : Handler) → IsOrderly (reset_for_new_request h)
unfolding reset_for_new_request RequestParser.reset
reset_for_new_request-IsOrderly h = (record { within = omega arith; checked = refl }, refl)

module _ {S : Type 0} (k : Sinker S) where
  sending-IsOrderly :
      (x : Written S) (h : Handler)
      → h.state ≡ sending_response
      → is_keep_alive x.writer ≡ x.writer.keep_alive
      → IsOrderly (after_write h x).handler
  unfolding on_response_finished
  sending-IsOrderly x h w v = elim (Bool-cases (is_finished x.result)) [
    | inr e ↦ rw (e, after_write, w) v
    | inl e ↦ elim (Bool-cases (is_keep_alive x.writer)) [
      | inl f ↦
          rw (e, after_write, f, on_response_finished)
            (reset_for_new_request-IsOrderly (record h { writer = x.writer }))
      | inr f ↦ rw (e, after_write, f, on_response_finished) tt
    ]
  ]

  on_write_ready_in-IsOrderly :
      (st : State) (h : Handler) (s : S)
      → h.state ≡ st
      → Phase st h
      → IsOrderly (on_write_ready_in st k h s).handler
  unfolding on_write_ready_in
  on_write_ready_in-IsOrderly sending_response h s w v =
      sending-IsOrderly (write_to k h.writer s) h w (write_to-is_keep_alive k h.writer s v)
  on_write_ready_in-IsOrderly _ h s w v = rw w v

-- One call of a connection on its handler, with any sink behind it.
pub data Call (d : Dispatcher) (fm : Formats) (h : Handler) : Handler → Type 1 where
  data_read : {h' : Handler} (input : Bytes) → on_data d fm input h ≡ some h' → Call d fm h h'
  ended : Call d fm h (on_read_eof h)
  write_ready : {S : Type 0} (k : Sinker S) (s : S) → Call d fm h (on_write_ready k h s).handler

pub data Calls (d : Dispatcher) (fm : Formats) (h : Handler) : Handler → Type 1 where
  here : Calls d fm h h
  next : {g e : Handler} → Calls d fm h g → Call d fm g e → Calls d fm h e

module _ (d : Dispatcher) (fm : Formats) where
  Call-IsOrderly : {g h : Handler} → Call d fm g h → IsOrderly g → IsOrderly h
  unfolding on_data on_read_eof on_write_ready
  Call-IsOrderly {g} {h} (data_read input e) v =
      on_data_in-IsOrderly d fm g.state input g h refl v e
  Call-IsOrderly ended v = tt
  Call-IsOrderly {g} (write_ready k s) v = on_write_ready_in-IsOrderly k g.state g s refl v

  Calls-IsOrderly : {g h : Handler} → IsOrderly g → Calls d fm g h → IsOrderly h
  Calls-IsOrderly v here = v
  Calls-IsOrderly v (next r c) = Call-IsOrderly c (Calls-IsOrderly v r)

  -- From a new handler on, whatever bytes arrive, whatever the dispatcher answers and whatever part
  -- of a response the sinks take: a handler that waits for a request has a valid parser and a fresh
  -- writer, a handler that sends has a writer whose answer to isKeepAlive is the flag that it was
  -- given, and no other state but the end is reached.
  pub lifetime-IsOrderly : (max : ℕ) {h : Handler} → Calls d fm (new_handler max) h → IsOrderly h
  lifetime-IsOrderly max r = Calls-IsOrderly (new_handler-IsOrderly max) r

  orderly-ne-error : (st : State) (h : Handler) → Phase st h → get_status st ≢ error
  unfolding get_status
  orderly-ne-error waiting_for_headers h v = λ e. cc
  orderly-ne-error reading_body h v = absurd v
  orderly-ne-error generating_response h v = absurd v
  orderly-ne-error sending_response h v = λ e. cc
  orderly-ne-error finished h v = λ e. cc

  -- The status that makes a connection drop its client, Error, is never reported.
  pub lifetime-ne-error :
      (max : ℕ) {h : Handler} → Calls d fm (new_handler max) h → get_status h.state ≢ error
  lifetime-ne-error max {h} r = orderly-ne-error h.state h (lifetime-IsOrderly max r)
