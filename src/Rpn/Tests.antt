-- ===== src/Rpn/Tests.antt =====
-- Runs of the calculator.
use barcelona.Base.{◌≡◌, refl, arith}
use barcelona.Base.Text.{codes}
use barcelona.Base.Int.{pos, negsuc, tdiv}
use barcelona.Rpn.{
  value, thrown, ◌>>=◌, plus, times, calculate, tokens, push_tokens, push_token, token_of, letter,
  operate, apply, divide, in_int, only,
}
use barcelona.Rpn.Postfix.{Expr, lit, bin}

runs :
    (calculate (codes "8 9 * 9 - 9 - 9 - 4 - 1 +") ≡ value (pos 42))
    × (calculate (codes "1 2 - 7 2 / *") ≡ value (negsuc 2))
    × (calculate (codes "1 0 /") ≡ thrown)
    × (calculate (codes "(1 + 1)") ≡ thrown)
    × (calculate (codes "1 2") ≡ thrown)
unfolding calculate tokens push_tokens push_token token_of letter operate apply divide in_int only
    tdiv ◌>>=◌
runs = (refl, refl, refl, refl, refl)

abbrev three : Expr
three = lit 3 (omega arith)

abbrev twelve : Expr
twelve = bin plus three (bin times three three)
