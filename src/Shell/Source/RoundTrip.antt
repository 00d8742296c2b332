-- ===== src/Shell/Source/RoundTrip.antt =====
-- From what is written of a command line to its commands: the tokenizer, the parser and the
-- expander in a row.
use barcelona.Base.{ℕ, ◌≡◌, refl, Bool, List, [], ◌∷◌, ◌++◌, arith, length}
use barcelona.Base.Text.{is_alpha, Bytes, is_space, is_digit}
use barcelona.Shell.{
  TokenType, Token, word, variable, pipe, space, input, output, append_output, here_document,
}
use barcelona.Shell.Tokenizer.{
  normal, in_dquote, tokens, new_token, is_name, is_plain, toggle, tokenize_loop, tokenize,
}
use barcelona.Shell.Grammar.{
  Piece, literal, var, quoted, Item, argument, redirection, Command, command, space_token,
  pipe_token, eof_token, dquote_token, operator, print_piece, print_pieces, print_item, print_items,
  print_line,
}
use barcelona.Shell.Source.{
  spell_inner, spell_quoted, spell_piece, spell_pieces, spell_item, spell_items, spell_line,
  HeadFails, IsSpelled, AreSpelled, IsWritten, AreWritten, IsWrittenItem, AreWrittenItems,
  AreWrittenCommands,
}
use barcelona.Shell.Source.Lexing.{
  Reads, read_quote, read_variable, read_word, read_space, read_dquote, read_pipe, read_operator,
}

module _ (p : ℕ → Bool) where
  HeadFails-append :
      (s a b : Bytes)
      → (HeadFails p a → HeadFails p b)
      → HeadFails p (s ++ a)
      → HeadFails p (s ++ b)
  HeadFails-append [] a b f h = f h
  HeadFails-append (c ∷ s) a b f h = h

  -- What stands behind the closing quote does not matter to the text in front of it.
  HeadFails-quoted :
      (ts : List Token) (rest : Bytes)
      → HeadFails p (spell_quoted ts [])
      → HeadFails p (spell_quoted ts rest)
  unfolding spell_quoted
  HeadFails-quoted [] rest h = h
  HeadFails-quoted (t ∷ ts) rest h =
      HeadFails-append (spell_inner t.type t.value) (spell_quoted ts []) (spell_quoted ts rest)
        (HeadFails-quoted ts rest) h

-- One token between double quotes.
read_inner :
    (type : TokenType) (value behind s : Bytes) (more : List Token)
    → ((p : ℕ → Bool) → HeadFails p behind → HeadFails p s)
    → IsSpelled type value behind
    → Reads in_dquote s more
    → Reads in_dquote (spell_inner type value ++ s) (record { type = type; value = value } ∷ more)
unfolding spell_inner
read_inner word value behind s more f h r = read_word in_dquote value s more h.0 (f is_plain h.1) r
read_inner variable value behind s more f h r =
    read_variable in_dquote value s more h.0 (f is_name h.1) r
read_inner space value behind s more f h r =
    rw (h.0) (read_space in_dquote s more (f is_space h.1) r)
read_inner pipe value behind s more f h r = absurd h
read_inner _ value behind s more f h r = absurd h

read_quoted :
    (ts : List Token) (rest : Bytes) (more : List Token)
    → AreSpelled ts
    → Reads normal rest more
    → Reads in_dquote (spell_quoted ts rest) (ts ++ (dquote_token ∷ more))
unfolding spell_quoted
read_quoted [] rest more h r = read_dquote in_dquote rest more (unfold toggle in r)
read_quoted (t ∷ ts) rest more h r =
    read_inner t.type t.value (spell_quoted ts []) (spell_quoted ts rest)
      (ts ++ (dquote_token ∷ more)) (λ p. HeadFails-quoted p ts rest) h.0
      (read_quoted ts rest more h.1 r)

-- Behind a variable stands no character that would go on with its name.
read_piece :
    (p : Piece) (rest : Bytes) (more : List Token)
    → IsWritten p
    → HeadFails is_name rest
    → Reads normal rest more
    → Reads normal (spell_piece p rest) (print_piece p more)
unfolding spell_piece print_piece
read_piece (literal w) rest more h e r = read_quote w rest more h r
read_piece (var v) rest more h e r = read_variable normal v rest more h e r
read_piece (quoted ts) rest more h e r =
    read_dquote normal (spell_quoted ts rest) (ts ++ (dquote_token ∷ more))
      (unfold toggle in read_quoted ts rest more h r)

pieces_head : (ps : List Piece) (rest : Bytes) → HeadFails is_name (spell_pieces ps (b' ' ∷ rest))
unfolding spell_pieces spell_piece is_name is_alpha is_digit
pieces_head [] rest = refl
pieces_head (literal w ∷ ps) rest = refl
pieces_head (var v ∷ ps) rest = refl
pieces_head (quoted ts ∷ ps) rest = refl

read_pieces :
    (ps : List Piece) (rest : Bytes) (more : List Token)
    → AreWritten ps
    → Reads normal (b' ' ∷ rest) more
    → Reads normal (spell_pieces ps (b' ' ∷ rest)) (print_pieces ps more)
unfolding spell_pieces print_pieces
read_pieces [] rest more h r = r
read_pieces (p ∷ ps) rest more h r =
    read_piece p (spell_pieces ps (b' ' ∷ rest)) (print_pieces ps more) h.0 (pieces_head ps rest)
      (read_pieces ps rest more h.1 r)

read_item :
    (i : Item) (rest : Bytes) (more : List Token)
    → IsWrittenItem i
    → HeadFails is_space rest
    → Reads normal rest more
    → Reads normal (spell_item i rest) (print_item i more)
unfolding spell_item print_item
read_item (argument p ps) rest more h e r =
    read_pieces (p ∷ ps) rest (space_token ∷ more) h (read_space normal rest more e r)
read_item (redirection type file) rest more h e r =
    read_operator type (file ++ (39 ∷ b' ' ∷ rest)) _
      (read_quote file (b' ' ∷ rest) _ h (read_space normal rest more e r))

item_head : (i : Item) (rest : Bytes) → HeadFails is_space (spell_item i rest)
unfolding spell_item spell_pieces spell_piece operator is_space
item_head (argument (literal w) ps) rest = refl
item_head (argument (var v) ps) rest = refl
item_head (argument (quoted ts) ps) rest = refl
item_head (redirection input file) rest = refl
item_head (redirection output file) rest = refl
item_head (redirection append_output file) rest = refl
item_head (redirection here_document file) rest = refl

items_head :
    (is : List Item) (rest : Bytes)
    → HeadFails is_space rest
    → HeadFails is_space (spell_items is rest)
unfolding spell_items
items_head [] rest e = e
items_head (i ∷ is) rest e = item_head i (spell_items is rest)

read_items :
    (is : List Item) (rest : Bytes) (more : List Token)
    → AreWrittenItems is
    → HeadFails is_space rest
    → Reads normal rest more
    → Reads normal (spell_items is rest) (print_items is more)
unfolding spell_items print_items
read_items [] rest more h e r = r
read_items (i ∷ is) rest more h e r =
    read_item i (spell_items is rest) (print_items is more) h.0 (items_head is rest e)
      (read_items is rest more h.1 e r)

read_end : Reads normal [] (eof_token ∷ [])
unfolding tokenize_loop new_token
read_end fuel h = refl

read_line :
    (c : Command) (cs : List Command)
    → AreWrittenCommands (c ∷ cs)
    → Reads normal (spell_line c cs) (print_line c cs)
unfolding spell_line print_line
read_line (command i is) [] h = read_items (i ∷ is) [] (eof_token ∷ []) h.0 tt read_end
read_line (command i is) (c ∷ cs) h =
    read_items (i ∷ is) (b'|' ∷ spell_line c cs) (pipe_token ∷ print_line c cs) h.0
      (unfold is_space in refl) (read_pipe (spell_line c cs) (print_line c cs) (read_line c cs h.1))

pub tokenize-spell_line :
    (c : Command) (cs : List Command)
    → AreWrittenCommands (c ∷ cs)
    → tokenize (spell_line c cs) ≡ tokens (print_line c cs)
unfolding tokenize
tokenize-spell_line c cs h = read_line c cs h (length (spell_line c cs)) (omega arith)
