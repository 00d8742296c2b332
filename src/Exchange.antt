-- ===== src/Exchange.antt =====
-- project/cpp_module/CPP09/ex00: BitcoinExchange.cpp and main.cpp, from the texts of the two files to the
-- lines of the answer. The arithmetic of float is an interface.
pub mod Dates
pub mod Latest
mod Tests
use barcelona.Base.{
  ℕ, zero, suc, ◌+◌, ◌-◌, Bool, true, false, not, ◌&&◌, ◌||◌, Option, none, some, List, [], ◌∷◌,
  ◌++◌, leb, ◌==◌, if◌then◌else◌, length, take, drop,
}
use barcelona.Base.Text.{Bytes, codes, equal, find, is_digit, is_space}
use barcelona.Base.Dict.{less}
use barcelona.Base.Int.{ℤ, pos, negsuc}
use barcelona.Base.Number.{drop_while, digits, digit_of, in_int}
use barcelona.RequestParser.Headers.{getlines, is_blank, trim_right}
use barcelona.Routing.Keys.{Table, set_key}

-- std::strtof with what it leaves, the check of a value, and the product.
pub record Float (F : Type 0) : Type 0 where
  pub strtof : Bytes → F × Bytes
  pub is_value : F → Bool
  pub times : F → F → F

unfoldable pub skip_digits : Bytes → Bytes
unfolding is_digit
skip_digits [] = []
skip_digits (c ∷ s) = if is_digit c then skip_digits s else c ∷ s

unfoldable pub read_digits : Bool → Bytes → Option (ℤ × Bytes)
unfolding skip_digits is_digit digits digit_of in_int
read_digits negative [] = none
read_digits negative (c ∷ s) =
    if is_digit c
    then elim (in_int negative (some (digits 10 0 (c ∷ s)))) [
      | none ↦ none
      | some z ↦ some (z, skip_digits s)
    ]
    else none

unfoldable pub read_signed : Bytes → Option (ℤ × Bytes)
unfolding read_digits
read_signed [] = none
read_signed (c ∷ s) =
    if c == b'-'
    then read_digits true s
    else if c == b'+'
    then read_digits false s
    else read_digits false (c ∷ s)

-- `ss >> n` for an int; `none` sets failbit.
unfoldable pub read_int : Bytes → Option (ℤ × Bytes)
unfolding read_signed drop_while is_space
read_int s = read_signed (drop_while is_space s)

unfoldable pub first_char : Bytes → Option (ℕ × Bytes)
first_char [] = none
first_char (c ∷ s) = some (c, s)

-- `ss >> c` for a char.
unfoldable pub read_char : Bytes → Option (ℕ × Bytes)
unfolding first_char drop_while is_space
read_char s = first_char (drop_while is_space s)

unfoldable pub ◌>>=◌ : {A B : Type 0} → Option A → (A → Option B) → Option B

infixl 5 ◌>>=◌
none >>= f = none
some a >>= f = f a

-- `low <= z && z <= high`
unfoldable pub is_between : ℕ → ℕ → ℤ → Bool
is_between low high (pos n) = leb low n && leb n high
is_between low high (negsuc n) = false

unfoldable pub is_from : ℕ → ℤ → Bool
is_from low (pos n) = leb low n
is_from low (negsuc n) = false

-- `ss >> y >> dash1 >> m >> dash2 >> d` and the test of what was read.
unfoldable pub read_date : Bytes → Option Bool
unfolding read_int read_char ◌>>=◌ is_between is_from
read_date s = do
  y ← read_int s
  dash1 ← read_char y.1
  m ← read_int dash1.1
  dash2 ← read_char m.1
  d ← read_int dash2.1
  some (
      dash1.0 == b'-'
      && dash2.0 == b'-'
      && is_from 2009 y.0
      && is_between 1 12 m.0
      && is_between 1 31 d.0)

-- `date[i] == '-'`
unfoldable pub has_dash : ℕ → Bytes → Bool
unfolding first_char
has_dash i s = elim (first_char (drop i s)) [ none ↦ false | some (c, rest) ↦ c == b'-' ]

unfoldable pub or_false : Option Bool → Bool
or_false none = false
or_false (some b) = b

-- `isValidDate`
unfoldable pub is_valid_date : Bytes → Bool
unfolding read_date has_dash or_false
is_valid_date date =
    length date == 10 && has_dash 4 date && has_dash 7 date && or_false (read_date date)

-- `m.lower_bound(date)`: the entries before it, and those from it on.
unfoldable pub lower_bound : {F : Type 0} → Bytes → Table Bytes F → Table Bytes F × Table Bytes F
lower_bound date [] = ([], [])
lower_bound date ((k, v) ∷ m) =
    let (before, from) = lower_bound date m in
    if less k date then ((k, v) ∷ before, from) else ([], (k, v) ∷ m)

-- `--it` at the end of these entries.
unfoldable pub last_rate : {F : Type 0} → Table Bytes F → Option F
last_rate [] = none
last_rate ((k, v) ∷ []) = some v
last_rate ((k, v) ∷ e ∷ m) = last_rate (e ∷ m)

unfoldable pub rate_from : {F : Type 0} → Bytes → Table Bytes F × Table Bytes F → Option F
unfolding last_rate
rate_from date (before, []) = last_rate before
rate_from date (before, (k, v) ∷ m) = if equal k date then some v else last_rate before

-- A rate, or one of the two exceptions.
pub data Rate (F : Type 0) : Type 0 where
  rate : F → Rate F
  bad_input not_in_database : Rate F

unfoldable pub of_rate : {F : Type 0} → Option F → Rate F
of_rate none = not_in_database
of_rate (some v) = rate v

-- `getRate`
unfoldable pub get_rate : {F : Type 0} → Table Bytes F → Bytes → Rate F
unfolding lower_bound rate_from of_rate
get_rate m date =
    if is_valid_date date then of_rate (rate_from date (lower_bound date m)) else bad_input

-- The two calls of getline on one line: the date and the price.
unfoldable pub split_price : Bytes → Option (Bytes × Bytes)
split_price line = elim (find line (codes ",")) [
  | none ↦ none
  | some n ↦ elim (drop (n + 1) line) [ [] ↦ none | c ∷ s ↦ some (take n line, c ∷ s) ]
]

-- `_exchangeRates[date] = price`
unfoldable pub set_rate : {F : Type 0} → Bytes → F → Table Bytes F → Table Bytes F
unfolding set_key
set_rate date price m = set_key equal less date price m

-- The message of a line, or the date, the value and the product.
pub data Answer (F : Type 0) : Type 0 where
  bad_line : Bytes → Answer F
  not_positive too_large : Answer F
  refused : Rate F → Answer F
  worth : Bytes → F → F → Answer F

module _ {F : Type 0} (float : Float F) where
  unfoldable pub add_price : Option (Bytes × Bytes) → Table Bytes F → Table Bytes F
  unfolding set_rate
  add_price none m = m
  add_price (some (date, price)) m = set_rate date (float.strtof price).0 m

  unfoldable pub add_prices : List Bytes → Table Bytes F → Table Bytes F
  unfolding split_price add_price
  add_prices [] m = m
  add_prices (line ∷ lines) m = add_prices lines (add_price (split_price line) m)

  -- `parseDb`, on the text of the file; the first line is the header.
  unfoldable pub parse_db : Bytes → Table Bytes F
  unfolding add_prices
  parse_db text = add_prices (drop 1 (getlines text)) []

  -- `isValidValue`
  unfoldable pub is_valid_value : Bytes → Bool
  is_valid_value s = equal (float.strtof s).1 [] && float.is_value (float.strtof s).0

  unfoldable pub priced : Bytes → F → Rate F → Answer F
  priced date value (rate r) = worth date value (float.times r value)
  priced date value r = refused r

  unfoldable pub answer_parts : Table Bytes F → Bytes → Bytes → Answer F
  unfolding is_valid_value priced
  answer_parts m date value =
      if is_valid_value value
      then priced date (float.strtof value).0 (get_rate m date)
      else elim (find value (codes "-")) [ none ↦ too_large | some n ↦ not_positive ]

  -- The body of the loop of `main`.
  unfoldable pub answer : Table Bytes F → Bytes → Answer F
  unfolding answer_parts drop_while
  answer m line = elim (find line (codes "|")) [
    | none ↦ bad_line line
    | some n ↦ answer_parts m (trim_right (take n line)) (drop_while is_blank (drop (n + 1) line))
  ]

  unfoldable pub answers : Table Bytes F → List Bytes → List (Answer F)
  unfolding answer
  answers m [] = []
  answers m (line ∷ lines) = answer m line ∷ answers m lines

  -- `main`, on the texts of data.csv and of the input.
  unfoldable pub exchange : Bytes → Bytes → List (Answer F)
  unfolding answers
  exchange data_csv input = answers (parse_db data_csv) (drop 1 (getlines input))
