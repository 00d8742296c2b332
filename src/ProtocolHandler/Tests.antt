-- ===== src/ProtocolHandler/Tests.antt =====
-- The handler on the beginning of a request.
use barcelona.Base.{◌≡◌, refl, [], some}
use barcelona.Base.Text.{codes, starts_with, find}
use barcelona.RequestParser.{new_parser}
use barcelona.RequestParser.Loop.{parse}
use barcelona.RequestParser.RequestLine.{parse_request_line}
use barcelona.ProtocolHandler.{Handler, on_data, on_write_ready}
use barcelona.ProtocolHandler.Lifecycle.{
  Calls, here, next, data_read, write_ready, new_handler, IsOrderly, lifetime-IsOrderly,
}
use barcelona.Samples.{greeter, formats, slow_sinker}

abbrev begun : Handler
begun = record (new_handler 8) { parser = record (new_parser 8) { buffer = codes "GE" } }

reads_begin : on_data greeter formats (codes "GE") (new_handler 8) ≡ some begun
unfolding on_data parse parse_request_line find starts_with
reads_begin = refl

life : Calls greeter formats (new_handler 8) (on_write_ready slow_sinker begun []).handler
life = next (next here (data_read (codes "GE") reads_begin)) (write_ready slow_sinker [])

lifetime-IsOrderly_example : IsOrderly (on_write_ready slow_sinker begun []).handler
lifetime-IsOrderly_example = lifetime-IsOrderly greeter formats 8 life
