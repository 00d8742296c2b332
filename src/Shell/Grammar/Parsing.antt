-- ===== src/Shell/Grammar/Parsing.antt =====
-- The parser reads the tokens of a command line as the commands that the line stands for.
use barcelona.Base.{
  ℕ, zero, suc, ◌+◌, ◌≤◌, ◌≡◌, refl, sym, ap, ◌∙◌, some, List, [], ◌∷◌, ◌++◌, map, append_assoc,
  arith, length,
}
use barcelona.Base.Text.{Bytes}
use barcelona.Shell.{
  TokenType, Token, dquote, Segment, Argument, RedirectType, input, output, append_output,
  here_document, Cmd,
}
use barcelona.Shell.Parser.{
  Parsed, parsed, syntax_error, crash, out_of_fuel, ◌>>=◌, dquoted_segment, dquoted_segments,
  if_empty, parse_double_quoted_segments, role, ends, parse_one_argument, handle_redir,
  parse_arguments,
}
use barcelona.Shell.Grammar.{
  Piece, literal, var, quoted, Item, argument, redirection, space_token, dquote_token, print_piece,
  print_pieces, print_item, print_items, segments_of, all_segments, arguments_of, redirected,
  AreInner, IsPiece, ArePieces, IsItem, AreItems,
}

-- What a token list starts with, if it is not empty.
abbrev Begins : (TokenType → Type 0) → List Token → Type 0
Begins P [] = Unit {0}
Begins P (t ∷ ts) = P t.type

inner_cons :
    (t : Token) (ts rest : List Token) (segs : List Segment)
    → (t.type ≡ dquote → ⊥)
    → dquoted_segments ts ≡ some (segs, rest)
    → dquoted_segments (t ∷ ts) ≡ some (dquoted_segment t ∷ segs, rest)
unfolding dquoted_segments
inner_cons t ts rest segs h e = ground arith

dquoted_segments-print :
    (ts rest : List Token)
    → AreInner ts
    → dquoted_segments (ts ++ (dquote_token ∷ rest)) ≡ some (map dquoted_segment ts, rest)
dquoted_segments-print [] rest h = unfold dquoted_segments in refl
dquoted_segments-print (t ∷ ts) rest h =
    inner_cons t (ts ++ (dquote_token ∷ rest)) rest (map dquoted_segment ts) h.0
      (dquoted_segments-print ts rest h.1)

double_quoted-print :
    (ts rest : List Token)
    → AreInner ts
    → parse_double_quoted_segments (ts ++ (dquote_token ∷ rest))
      ≡ parsed (if_empty (map dquoted_segment ts), rest)
unfolding parse_double_quoted_segments
double_quoted-print ts rest h = rw (dquoted_segments-print ts rest h, parse_double_quoted_segments)

one_argument_end :
    (fuel : ℕ) (t : Token) (rest : List Token)
    → role t.type ≡ ends
    → suc (length rest) ≤ fuel
    → parse_one_argument fuel (t ∷ rest) ≡ parsed ([], t ∷ rest)
unfolding parse_one_argument
one_argument_end zero t rest h l = elim l [ ]
one_argument_end (suc fuel) t rest h l = rw (h, parse_one_argument)

length-tokens : (xs ys : List Token) → length (xs ++ ys) ≡ length xs + length ys
length-tokens [] ys = omega arith
length-tokens (x ∷ xs) ys = omega (arith, length-tokens xs ys)

-- One piece in front of what the rest of the argument is read as.
one_piece :
    (fuel : ℕ) (p : Piece) (ts rest : List Token) (more : Argument)
    → IsPiece p
    → parse_one_argument fuel ts ≡ parsed (more, rest)
    → parse_one_argument (suc fuel) (print_piece p ts) ≡ parsed (segments_of p ++ more, rest)
unfolding parse_one_argument print_piece segments_of
one_piece fuel (literal w) ts rest more h e = ground arith
one_piece fuel (var v) ts rest more h e = ground arith
one_piece fuel (quoted inner) ts rest more h e = ground (arith, double_quoted-print inner ts h)

length-print_piece : (p : Piece) (ts : List Token) → suc (length ts) ≤ length (print_piece p ts)
unfolding print_piece
length-print_piece (literal w) ts = omega arith
length-print_piece (var v) ts = omega arith
length-print_piece (quoted inner) ts = omega (arith, length-tokens inner (dquote_token ∷ ts))

-- The pieces of an argument, in front of a token that ends it.
one_argument-print :
    (fuel : ℕ) (ps : List Piece) (t : Token) (rest : List Token)
    → ArePieces ps
    → role t.type ≡ ends
    → length (print_pieces ps (t ∷ rest)) ≤ fuel
    → parse_one_argument fuel (print_pieces ps (t ∷ rest)) ≡ parsed (all_segments ps, t ∷ rest)
unfolding print_pieces all_segments
one_argument-print fuel [] t rest h r l = one_argument_end fuel t rest r l
one_argument-print zero (p ∷ ps) t rest h r l =
    absurd (omega (arith, length-print_piece p (print_pieces ps (t ∷ rest))))
one_argument-print (suc fuel) (p ∷ ps) t rest h r l =
    one_piece fuel p (print_pieces ps (t ∷ rest)) (t ∷ rest) (all_segments ps) h.0 (
      one_argument-print fuel ps t rest h.1 r
        (omega (arith, length-print_piece p (print_pieces ps (t ∷ rest)))))

-- A list that starts an argument, not a redirection and not the end of a command.
first_piece :
    (fuel : ℕ) (p : Piece) (ts : List Token) (cmd : Cmd)
    → parse_arguments (suc fuel) (print_piece p ts) cmd ≡ (
        parse_one_argument (length (print_piece p ts)) (print_piece p ts) >>= λ (arg, behind).
        parse_arguments fuel behind cmd >>= λ (args, cmd', rest). parsed (arg ∷ args, cmd', rest))
unfolding print_piece parse_arguments
first_piece fuel (literal w) ts cmd = refl
first_piece fuel (var v) ts cmd = refl
first_piece fuel (quoted inner) ts cmd = refl

-- Arguments in front of those that are parsed behind them.
unfoldable pub prepend :
    List Argument
    → Parsed (List Argument × Cmd × List Token)
    → Parsed (List Argument × Cmd × List Token)
prepend args r = r >>= λ (more, cmd, rest). parsed (args ++ more, cmd, rest)

prepend-nil : (r : Parsed (List Argument × Cmd × List Token)) → r ≡ prepend [] r
unfolding prepend
prepend-nil (parsed r) = refl
prepend-nil syntax_error = refl
prepend-nil crash = refl
prepend-nil out_of_fuel = refl

prepend-append :
    (args more : List Argument) (r : Parsed (List Argument × Cmd × List Token))
    → prepend args (prepend more r) ≡ prepend (args ++ more) r
unfolding prepend
prepend-append args more (parsed r) =
    ap (λ all. parsed (all, r.1, r.2)) (sym (append_assoc args more r.0))
prepend-append args more syntax_error = refl
prepend-append args more crash = refl
prepend-append args more out_of_fuel = refl

argument_step :
    (fuel : ℕ) (p : Piece) (ps : List Piece) (ts : List Token) (cmd : Cmd)
    → ArePieces (p ∷ ps)
    → parse_arguments (suc (suc fuel)) (print_item (argument p ps) ts) cmd
      ≡ prepend (all_segments (p ∷ ps) ∷ []) (parse_arguments fuel ts cmd)
argument_step fuel p ps ts cmd h =
    unfold print_item print_pieces prepend in
    first_piece (suc fuel) p (print_pieces ps (space_token ∷ ts)) cmd
    ∙ (rw
        (one_argument-print (length (print_pieces (p ∷ ps) (space_token ∷ ts))) (p ∷ ps) space_token
          ts h (unfold role in refl) (omega arith))
        (unfold parse_arguments in refl))

redirection_step :
    (fuel : ℕ) (type : RedirectType) (file : Bytes) (ts : List Token) (cmd : Cmd)
    → parse_arguments (suc (suc fuel)) (print_item (redirection type file) ts) cmd
      ≡ parse_arguments fuel ts (handle_redir cmd (record { type = type; file = file }))
unfolding print_item parse_arguments
redirection_step fuel input file ts cmd = refl
redirection_step fuel output file ts cmd = refl
redirection_step fuel append_output file ts cmd = refl
redirection_step fuel here_document file ts cmd = refl

item_step :
    (fuel : ℕ) (i : Item) (ts : List Token) (cmd : Cmd)
    → IsItem i
    → parse_arguments (suc (suc fuel)) (print_item i ts) cmd
      ≡ prepend (arguments_of (i ∷ [])) (parse_arguments fuel ts (redirected cmd (i ∷ [])))
unfolding arguments_of redirected
item_step fuel (argument p ps) ts cmd h = argument_step fuel p ps ts cmd h
item_step fuel (redirection type file) ts cmd h =
    redirection_step fuel type file ts cmd ∙ prepend-nil (parse_arguments fuel ts _)

length-print_pieces : (ps : List Piece) (ts : List Token) → length ts ≤ length (print_pieces ps ts)
unfolding print_pieces
length-print_pieces [] ts = omega arith
length-print_pieces (p ∷ ps) ts =
    omega (arith, length-print_pieces ps ts, length-print_piece p (print_pieces ps ts))

pub length-print_item :
    (i : Item) (ts : List Token) → suc (suc (length ts)) ≤ length (print_item i ts)
unfolding print_item print_pieces
length-print_item (argument p ps) ts = omega (
  arith,
  length-print_pieces ps (space_token ∷ ts),
  length-print_piece p (print_pieces ps (space_token ∷ ts)),
)
length-print_item (redirection type file) ts = omega arith

arguments_of-cons :
    (i : Item) (is : List Item) → arguments_of (i ∷ is) ≡ arguments_of (i ∷ []) ++ arguments_of is
unfolding arguments_of
arguments_of-cons (argument p ps) is = refl
arguments_of-cons (redirection type file) is = refl

redirected-cons :
    (cmd : Cmd) (i : Item) (is : List Item)
    → redirected cmd (i ∷ is) ≡ redirected (redirected cmd (i ∷ [])) is
unfolding redirected
redirected-cons cmd (argument p ps) is = refl
redirected-cons cmd (redirection type file) is = refl

-- Items are taken off with the fuel that they need, whatever follows.
pub items_step :
    (fuel : ℕ) (is : List Item) (ts : List Token) (cmd : Cmd)
    → AreItems is
    → length (print_items is ts) ≤ fuel
    → (fuel' : ℕ) × (length ts ≤ fuel')
      × (parse_arguments fuel (print_items is ts) cmd
          ≡ prepend (arguments_of is) (parse_arguments fuel' ts (redirected cmd is)))
unfolding print_items
items_step fuel [] ts cmd h l =
    (fuel, l, unfold arguments_of redirected in prepend-nil (parse_arguments fuel ts cmd))
items_step zero (i ∷ is) ts cmd h l =
    absurd (omega (arith, length-print_item i (print_items is ts)))
items_step (suc zero) (i ∷ is) ts cmd h l =
    absurd (omega (arith, length-print_item i (print_items is ts)))
items_step (suc (suc fuel)) (i ∷ is) ts cmd h l =
    let (fuel', l', e) =
      items_step fuel is ts (redirected cmd (i ∷ [])) h.1
        (omega (arith, length-print_item i (print_items is ts))) in
    (
      fuel',
      l',
      item_step fuel i (print_items is ts) cmd h.0
          ∙ ap (prepend (arguments_of (i ∷ []))) e
          ∙ prepend-append (arguments_of (i ∷ [])) (arguments_of is) _
          ∙ (rw (← arguments_of-cons i is, ← redirected-cons cmd i is) refl),
    )
