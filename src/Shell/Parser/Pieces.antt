-- ===== src/Shell/Parser/Pieces.antt =====
-- What the parsers of an argument leave of the tokens.
use barcelona.Base.{
  ℕ, zero, suc, ◌≤◌, ◌≡◌, refl, Option, none, some, List, [], ◌∷◌, ◌++◌, arith, length,
}
use mathlib.Core.Path.{subst}
use barcelona.Shell.{TokenType, Token, Segment, Argument}
use barcelona.Shell.Parser.{
  Parsed, parsed, syntax_error, crash, out_of_fuel, ◌>>=◌, new_segment, dquoted_segments,
  parse_double_quoted_segments, close_squote, parse_single_quoted_segment, Role, ends, opens_squote,
  opens_dquote, makes, role, parse_one_argument, starts, place,
}

-- A result that leaves no more than these tokens.
abbrev pub Leaves : {A : Type 0} → ℕ → Parsed (A × List Token) → Type 0
Leaves n (parsed (a, rest)) = length rest ≤ n
Leaves n syntax_error = Unit {0}
Leaves n crash = Unit {0}
Leaves n out_of_fuel = ⊥

Leaves-le : {A : Type 0} (m n : ℕ) (r : Parsed (A × List Token)) → m ≤ n → Leaves m r → Leaves n r
Leaves-le m n (parsed (a, rest)) l h = omega arith
Leaves-le m n syntax_error l h = tt
Leaves-le m n crash l h = tt
Leaves-le m n out_of_fuel l h = h

Leaves-bind :
    {A B : Type 0} (m n : ℕ) (r : Parsed (A × List Token))
    (f : A × List Token → Parsed (B × List Token))
    → Leaves m r
    → ((a : A) (rest : List Token) → length rest ≤ m → Leaves n (f (a, rest)))
    → Leaves n (r >>= f)
Leaves-bind m n (parsed (a, rest)) f h k = k a rest h
Leaves-bind m n syntax_error f h k = tt
Leaves-bind m n crash f h k = tt
Leaves-bind m n out_of_fuel f h k = h

abbrev pub LeavesSome : {A : Type 0} → ℕ → Option (A × List Token) → Type 0
LeavesSome n none = Unit {0}
LeavesSome n (some (a, rest)) = length rest ≤ n

dquoted_segments-Leaves : (ts : List Token) → LeavesSome (length ts) (dquoted_segments ts)
unfolding dquoted_segments
dquoted_segments-Leaves [] = tt
dquoted_segments-Leaves (t ∷ ts) = ground (arith, dquoted_segments-Leaves ts)

double_quoted-Leaves : (ts : List Token) → Leaves (length ts) (parse_double_quoted_segments ts)
unfolding parse_double_quoted_segments
double_quoted-Leaves ts = ground (arith, dquoted_segments-Leaves ts)

single_quoted-Leaves : (ts : List Token) → Leaves (length ts) (parse_single_quoted_segment ts)
unfolding parse_single_quoted_segment close_squote
single_quoted-Leaves [] = tt
single_quoted-Leaves (t ∷ []) = ground arith
single_quoted-Leaves (t ∷ t' ∷ ts) = ground arith

more_segments :
    (segs : List Segment) (n : ℕ) (r : Parsed (Argument × List Token))
    → Leaves n r
    → Leaves n (r >>= λ (more, rest). parsed (segs ++ more, rest))
more_segments segs n (parsed (more, rest)) h = h
more_segments segs n syntax_error h = tt
more_segments segs n crash h = tt
more_segments segs n out_of_fuel h = h

-- A round takes a token, if it does not end the argument.
abbrev left : Role → ℕ → ℕ
left ends n = suc n
left _ n = n

-- One round of parse_one_argument, from what the rounds behind it leave.
module _ (fuel : ℕ) (t : Token) (ts : List Token)
    (later : (rest : List Token)
      → length rest ≤ length ts
      → Leaves (length rest) (parse_one_argument fuel rest)) where
  quoted_round :
      (r : Parsed (List Segment × List Token))
      → Leaves (length ts) r
      → Leaves (length ts) (
          r >>= λ (segs, behind).
          parse_one_argument fuel behind >>= λ (more, rest). parsed (segs ++ more, rest))
  quoted_round r h = Leaves-bind (length ts) (length ts) r _ h λ segs behind k.
      more_segments segs (length ts) (parse_one_argument fuel behind)
        (Leaves-le (length behind) (length ts) (parse_one_argument fuel behind) k (later behind k))

  argument_round :
      (k : Role)
      → role t.type ≡ k
      → Leaves (left k (length ts)) (parse_one_argument (suc fuel) (t ∷ ts))
  unfolding parse_one_argument
  argument_round ends e = rw (e, parse_one_argument) (omega arith)
  argument_round (makes type) e =
      rw (e, parse_one_argument)
        (more_segments (new_segment type t.value ∷ []) (length ts) (parse_one_argument fuel ts)
          (later ts (omega arith)))
  argument_round opens_squote e =
      rw (e, parse_one_argument)
        (quoted_round (parse_single_quoted_segment ts) (single_quoted-Leaves ts))
  argument_round opens_dquote e =
      rw (e, parse_one_argument)
        (quoted_round (parse_double_quoted_segments ts) (double_quoted-Leaves ts))

left-le : (k : Role) (n : ℕ) → left k n ≤ suc n
left-le ends n = omega arith
left-le _ n = omega arith

one_argument-Leaves :
    (fuel : ℕ) (ts : List Token)
    → length ts ≤ fuel
    → Leaves (length ts) (parse_one_argument fuel ts)
one_argument-Leaves fuel [] l = unfold parse_one_argument in omega arith
one_argument-Leaves zero (t ∷ ts) l = elim l [ ]
one_argument-Leaves (suc fuel) (t ∷ ts) l =
    Leaves-le (left (role t.type) (length ts)) (suc (length ts))
      (parse_one_argument (suc fuel) (t ∷ ts)) (left-le (role t.type) (length ts))
      (argument_round fuel t ts (λ rest h. one_argument-Leaves fuel rest (omega arith))
        (role t.type) refl)

starts-left : (type : TokenType) (n : ℕ) → place type ≡ starts → left (role type) n ≡ n
unfolding place role
starts-left type n e = ground arith

-- An argument that is started takes a token.
pub argument_starts :
    (t : Token) (ts : List Token)
    → place t.type ≡ starts
    → Leaves (length ts) (parse_one_argument (suc (length ts)) (t ∷ ts))
argument_starts t ts e =
    subst (λ (n : ℕ). Leaves n (parse_one_argument (suc (length ts)) (t ∷ ts)))
      (starts-left t.type (length ts) e)
      (argument_round (length ts) t ts (λ rest h. one_argument-Leaves (length ts) rest h)
        (role t.type) refl)
