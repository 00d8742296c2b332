-- ===== src/Rpn/Postfix.antt =====
-- Expressions, what they are worth and how they are written in reverse Polish notation.
use barcelona.Base.{ℕ, ◌+◌, ◌≤◌, List, [], ◌∷◌, ◌++◌}
use barcelona.Base.Text.{Bytes}
use barcelona.Base.Int.{ℤ, pos}
use barcelona.Rpn.{Result, value, ◌>>=◌, Op, plus, minus, times, over, apply}

pub data Expr : Type 0 where
  lit : (d : ℕ) → d ≤ 9 → Expr
  bin : Op → Expr → Expr → Expr

-- The operands from left to right, then the operator.
unfoldable pub eval : Expr → Result ℤ
unfolding apply ◌>>=◌
eval (lit d h) = value (pos d)
eval (bin o l r) = eval l >>= λ a. eval r >>= λ b. apply o a b

unfoldable pub sign : Op → ℕ
sign plus = b'+'
sign minus = b'-'
sign times = b'*'
sign over = b'/'

-- Every sign with a space behind it.
unfoldable pub written : Expr → Bytes
unfolding sign
written (lit d h) = (b'0' + d) ∷ b' ' ∷ []
written (bin o l r) = written l ++ (written r ++ (sign o ∷ b' ' ∷ []))

unfoldable pub signs : Expr → List Bytes
signs (lit d h) = ((b'0' + d) ∷ []) ∷ []
signs (bin o l r) = signs l ++ (signs r ++ ((sign o ∷ []) ∷ []))
