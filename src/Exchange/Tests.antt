-- ===== src/Exchange/Tests.antt =====
-- A small file of rates, over whole numbers.
use barcelona.Base.{ℕ, ◌*◌, ◌≡◌, refl, true, Option, [], ◌∷◌, ◌++◌, leb}
use barcelona.Base.Text.{Bytes, codes, equal, find, is_digit, is_space}
use barcelona.Base.Dict.{less}
use barcelona.Base.Number.{digits, digit_of, drop_while, in_int}
use barcelona.RequestParser.Headers.{getlines, trim_right, is_blank}
use barcelona.Exchange.{
  Float, skip_digits, is_valid_date, read_date, has_dash, read_int, read_char, is_between, is_from,
  ◌>>=◌, get_rate, lower_bound, of_rate, parse_db, set_rate, split_price, exchange, answers,
  answer_parts, worth, not_positive, bad_line,
}
use barcelona.Exchange.Latest.{Latest, get_rate-Latest}

abbrev whole : Float ℕ
whole = record {
  strtof = λ s. (digits 10 0 s, skip_digits s);
  is_value = λ n. leb n 1000;
  times = λ a b. a * b;
}

abbrev data_csv : Bytes
data_csv =
    codes "date,rate"
    ++ (b'\n' ∷ codes "2011-01-03,3")
    ++ (b'\n' ∷ codes "2012-01-11,7" ++ (b'\n' ∷ codes "2009-01-02,0"))

abbrev input : Bytes
input =
    codes "date | value"
    ++ (b'\n' ∷ codes "2011-01-09 | 2")
    ++ (b'\n' ∷ codes "2012-01-11 | -1" ++ (b'\n' ∷ codes "2001-42-42"))

exchanged :
    exchange whole data_csv input
    ≡ worth (codes "2011-01-09") 2 6 ∷ not_positive ∷ bad_line (codes "2001-42-42") ∷ []
unfolding exchange answers answer_parts parse_db set_rate split_price get_rate lower_bound of_rate
    is_valid_date read_date has_dash read_int read_char is_between is_from ◌>>=◌ skip_digits digits
    digit_of in_int drop_while is_digit is_space is_blank getlines trim_right equal find less
exchanged = refl

valid : is_valid_date (codes "2011-01-09") ≡ true
unfolding is_valid_date read_date has_dash read_int read_char is_between is_from ◌>>=◌ skip_digits
    digits digit_of in_int drop_while is_digit is_space
valid = refl

get_rate-Latest_example :
    (o : Option ℕ) × (get_rate (parse_db whole data_csv) (codes "2011-01-09") ≡ of_rate o)
    × Latest (codes "2011-01-09") (parse_db whole data_csv) o
get_rate-Latest_example = get_rate-Latest whole data_csv (codes "2011-01-09") valid
