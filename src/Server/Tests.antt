-- ===== src/Server/Tests.antt =====
-- A connection over the HTTP handler that reads a request.
use barcelona.Base.{refl, true, [], ◌++◌}
use barcelona.Base.Text.{Bytes, codes}
use barcelona.RequestParser.{double_crlf}
use barcelona.Connection.{Connection, got_data, on_readable, interested_events}
use barcelona.Connection.Phases.{Reach, here, next, readable, InStep}
use barcelona.Server.{Peer, http_protocol, new_connection}
use barcelona.Server.Http.{http_connection-InStep}
use barcelona.Samples.{greeter, formats, slow_sinker}

abbrev served : Connection (Peer Bytes)
served =
    (on_readable (http_protocol greeter formats slow_sinker)
      (got_data (codes "GET / HTTP/1.1" ++ double_crlf)) true
      (new_connection greeter formats slow_sinker 8 [])).0

serves :
    Reach
      (http_protocol greeter formats slow_sinker)
      (new_connection greeter formats slow_sinker 8 [])
      served
unfolding interested_events
serves = next here (readable (got_data (codes "GET / HTTP/1.1" ++ double_crlf)) true refl)

http_connection-InStep_example :
    InStep served.state ((http_protocol greeter formats slow_sinker).get_status served.handler)
http_connection-InStep_example = http_connection-InStep greeter formats slow_sinker 8 [] serves
