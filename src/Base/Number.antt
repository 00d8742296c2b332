-- ===== src/Base/Number.antt =====
-- std::stoi, std::stoul, std::stoull and std::to_string on a 64-bit target.
use barcelona.Base.{
  ℕ, zero, suc, ◌+◌, ◌-◌, ◌*◌, ◌/◌, ◌%◌, ◌^◌, Bool, true, false, ◌&&◌, ◌||◌, Option, none, some, [],
  ◌∷◌, ltb, leb, ◌==◌, if◌then◌else◌,
}
use barcelona.Base.Text.{Bytes, is_space}
use barcelona.Base.Int.{ℤ, pos, negsuc}

abbrev pub word_modulus : ℕ
word_modulus = 2 ^ 64

unfoldable pub drop_while : (ℕ → Bool) → Bytes → Bytes
drop_while test [] = []
drop_while test (c ∷ s) = if test c then drop_while test s else c ∷ s

-- The value of a digit below the base.
unfoldable pub digit_of : ℕ → ℕ → Option ℕ
digit_of base c =
    let v =
      if leb b'0' c && leb c b'9'
      then c - b'0'
      else if leb b'a' c && leb c b'z'
      then c - b'a' + 10
      else if leb b'A' c && leb c b'Z'
      then c - b'A' + 10
      else 36 in
    if ltb v base then some v else none

-- The value of the longest prefix of digits, after the digits read so far.
unfoldable pub digits : ℕ → ℕ → Bytes → ℕ
digits base acc [] = acc
digits base acc (c ∷ s) = elim (digit_of base c) [
  | none ↦ acc
  | some d ↦ digits base (acc * base + d) s
]

-- At least one digit is wanted.
unfoldable pub number : ℕ → Bytes → Option ℕ
unfolding digits
number base [] = none
number base (c ∷ s) = elim (digit_of base c) [ none ↦ none | some d ↦ some (digits base d s) ]

-- An optional `0x` in base 16; without a digit behind it, its zero is the number.
unfoldable pub prefixed : ℕ → Bytes → Option ℕ
unfolding number
prefixed base (z ∷ x ∷ c ∷ s) =
    if base == 16 && z == b'0' && (x == b'x' || x == b'X')
    then elim (number base (c ∷ s)) [ none ↦ some 0 | some n ↦ some n ]
    else number base (z ∷ x ∷ c ∷ s)
prefixed base s = number base s

-- The range check, and the negation of strtoull behind a minus sign.
unfoldable pub in_word : Bool → Option ℕ → Option ℕ
in_word negative none = none
in_word negative (some n) =
    if ltb n word_modulus
    then some (if negative then (word_modulus - n) % word_modulus else n)
    else none

unfoldable pub signed : ℕ → Bytes → Option ℕ
unfolding prefixed in_word
signed base [] = none
signed base (c ∷ s) =
    if c == b'-'
    then in_word true (prefixed base s)
    else if c == b'+'
    then in_word false (prefixed base s)
    else in_word false (prefixed base (c ∷ s))

-- `std::stoull(s, nullptr, base)`, and stoul; `none` is an exception, of either type.
unfoldable pub stoull : ℕ → Bytes → Option ℕ
unfolding signed drop_while is_space digit_of
stoull base s = signed base (drop_while is_space s)

-- The range check of std::stoi.
unfoldable pub in_int : Bool → Option ℕ → Option ℤ
in_int negative none = none
in_int true (some zero) = some (pos 0)
in_int true (some (suc n)) = if ltb n (2 ^ 31) then some (negsuc n) else none
in_int false (some n) = if ltb n (2 ^ 31) then some (pos n) else none

unfoldable pub signed_int : Bytes → Option ℤ
unfolding number in_int
signed_int [] = none
signed_int (c ∷ s) =
    if c == b'-'
    then in_int true (number 10 s)
    else if c == b'+'
    then in_int false (number 10 s)
    else in_int false (number 10 (c ∷ s))

-- `std::stoi(s)`; `none` is an exception, of either type.
unfoldable pub stoi : Bytes → Option ℤ
unfolding signed_int drop_while is_space digit_of
stoi s = signed_int (drop_while is_space s)

-- The decimal digits in front of `rest`.
unfoldable pub decimal : ℕ → ℕ → Bytes → Bytes
decimal zero n rest = rest
decimal (suc f) n rest =
    let more = decimal f (n / 10) ((b'0' + n % 10) ∷ rest) in
    if ltb n 10 then (b'0' + n) ∷ rest else more

-- `std::to_string(n)`
unfoldable pub to_string : ℕ → Bytes
unfolding decimal
to_string n = decimal (suc n) n []
