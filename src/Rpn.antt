-- ===== src/Rpn.antt =====
-- project/cpp_module/CPP09/ex01/RPN.cpp: a calculator of reverse Polish notation over 32-bit ints.
pub mod Postfix
mod Tests
use barcelona.Base.{
  ℕ, zero, suc, ◌-◌, ◌^◌, Bool, true, false, ◌||◌, List, [], ◌∷◌, ◌++◌, ltb, ◌==◌, if◌then◌else◌,
}
use barcelona.Base.Text.{Bytes, is_digit, is_space}
use barcelona.Base.Int.{ℤ, pos, negsuc, ◌+ℤ◌, ◌-ℤ◌, ◌*ℤ◌, tdiv}

-- A value, an exception, or the overflow of an int, which is undefined behaviour.
pub data Result (A : Type 0) : Type 0 where
  value : A → Result A
  thrown undefined : Result A

unfoldable pub ◌>>=◌ : {A B : Type 0} → Result A → (A → Result B) → Result B

infixl 5 ◌>>=◌
value a >>= f = f a
thrown >>= f = thrown
undefined >>= f = undefined

pub data Op : Type 0 where
  plus minus times over : Op

pub data Token : Type 0 where
  digit : ℕ → Token
  op : Op → Token
  bad : Token

unfoldable pub letter : ℕ → Token
unfolding is_digit
letter c =
    if is_digit c
    then digit (c - b'0')
    else if c == b'+'
    then op plus
    else if c == b'-'
    then op minus
    else if c == b'*'
    then op times
    else if c == b'/'
    then op over
    else bad

unfoldable pub token_of : Bytes → Token
unfolding letter
token_of (c ∷ []) = letter c
token_of _ = bad

unfoldable pub flush : Bytes → List Bytes
flush [] = []
flush (c ∷ s) = (c ∷ s) ∷ []

-- The tokens that `iss >> token` reads, behind the part of one that is read.
unfoldable pub tokens : Bytes → Bytes → List Bytes
unfolding flush is_space
tokens part [] = flush part
tokens part (c ∷ s) =
    let skipped = flush part ++ tokens [] s in
    let longer = tokens (part ++ (c ∷ [])) s in if is_space c then skipped else longer

-- A result that no int holds is undefined.
unfoldable pub in_int : ℤ → Result ℤ
in_int (pos n) = if ltb n (2 ^ 31) then value (pos n) else undefined
in_int (negsuc n) = if ltb n (2 ^ 31) then value (negsuc n) else undefined

unfoldable pub divide : ℤ → ℤ → Result ℤ
unfolding in_int
divide a (pos zero) = thrown
divide a (pos (suc n)) = in_int (tdiv a (pos (suc n)))
divide a (negsuc n) = in_int (tdiv a (negsuc n))

unfoldable pub apply : Op → ℤ → ℤ → Result ℤ
unfolding in_int divide
apply plus a b = in_int (a +ℤ b)
apply minus a b = in_int (a -ℤ b)
apply times a b = in_int (a *ℤ b)
apply over a b = divide a b

unfoldable pub operate : Op → List ℤ → Result (List ℤ)
unfolding apply ◌>>=◌
operate o (b ∷ a ∷ stk) = apply o a b >>= λ res. value (res ∷ stk)
operate o _ = thrown

-- The body of the loop, with the top of the stack first.
unfoldable pub push_token : Token → List ℤ → Result (List ℤ)
unfolding operate
push_token (digit n) stk = value (pos n ∷ stk)
push_token (op o) stk = operate o stk
push_token bad stk = thrown

unfoldable pub push_tokens : List Bytes → List ℤ → Result (List ℤ)
unfolding token_of push_token ◌>>=◌
push_tokens [] stk = value stk
push_tokens (t ∷ ts) stk = push_token (token_of t) stk >>= push_tokens ts

unfoldable pub only : List ℤ → Result ℤ
only (n ∷ []) = value n
only _ = thrown

-- `RPN::calculate`
unfoldable pub calculate : Bytes → Result ℤ
unfolding tokens push_tokens only ◌>>=◌
calculate expression = push_tokens (tokens [] expression) [] >>= only
