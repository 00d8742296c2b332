-- ===== src/RequestParser/Tests.antt =====
-- Runs of the parser.
use barcelona.Base.{◌≡◌, refl, some, ◌++◌}
use barcelona.Base.Text.{Bytes, codes, find, starts_with}
use barcelona.RequestParser.{State, Parser, Outcome, ok, parsing, double_crlf, new_parser}
use barcelona.RequestParser.Loop.{parse}
use barcelona.RequestParser.RequestLine.{parse_request_line}
use barcelona.RequestParser.Total.{parse_total}
use barcelona.RequestParser.Splitting.{parse-append}
use barcelona.RequestParser.Valid.{Safe, new_parser-IsValid}
use barcelona.RequestParser.Safety.{parse-Safe}
use barcelona.Samples.{cast}

abbrev line_start : Bytes
line_start = codes "GET /x HT"

abbrev line_end : Bytes
line_end = codes "TP/1.1" ++ double_crlf

abbrev waiting : Parser
waiting = record (new_parser 8) { buffer = line_start }

in_pieces : parse cast (new_parser 8) line_start ≡ some (ok parsing waiting)
unfolding parse parse_request_line find starts_with
in_pieces = refl

parse-append_example :
    parse cast (new_parser 8) (line_start ++ line_end) ≡ parse cast waiting line_end
parse-append_example =
    parse-append cast (new_parser 8) waiting line_start line_end (λ e. cc) in_pieces

parse_total_example :
    (r : Outcome State) × (parse cast (new_parser 8) (line_start ++ line_end) ≡ some r)
parse_total_example = parse_total cast (new_parser 8) (line_start ++ line_end)

parse-Safe_example :
    (o : Outcome State) × (parse cast (new_parser 8) (line_start ++ line_end) ≡ some o) × Safe o
parse-Safe_example = parse-Safe cast (new_parser 8) (line_start ++ line_end) (new_parser-IsValid 8)
