-- ===== src/Shell/Grammar/Lines.antt =====
-- Whole command lines: the parser reads what is printed of one.
use barcelona.Base.{
  ℕ, zero, suc, ◌≤◌, ◌≡◌, refl, ap, ◌∙◌, false, List, [], ◌∷◌, map, append-nil, arith, length,
}
use barcelona.Shell.{Token, input, output, append_output, here_document, Cmd, zero_cmd, Argument}
use barcelona.Shell.Parser.{
  parsed, place, stops, parse_arguments, at_eof, behind_command, parse_commands, parse, skip_spaces,
}
use barcelona.Shell.Grammar.{
  literal, var, quoted, Item, argument, redirection, Command, command, pipe_token, eof_token,
  operator, print_piece, print_pieces, print_item, print_items, print_line, arguments_of,
  redirected, meaning, AreItems, AreCommands,
}
use barcelona.Shell.Grammar.Parsing.{prepend, items_step, length-print_item}

pub stop_step :
    (fuel : ℕ) (t : Token) (ts : List Token) (cmd : Cmd)
    → place t.type ≡ stops
    → suc (length ts) ≤ fuel
    → parse_arguments fuel (t ∷ ts) cmd ≡ parsed ([], cmd, t ∷ ts)
unfolding parse_arguments
stop_step zero t ts cmd h l = elim l [ ]
stop_step (suc fuel) t ts cmd h l = ground arith

-- The items of a command, in front of a token that ends it.
items-print :
    (is : List Item) (t : Token) (ts : List Token)
    → AreItems is
    → place t.type ≡ stops
    → parse_arguments (length (print_items is (t ∷ ts))) (print_items is (t ∷ ts)) zero_cmd
      ≡ parsed (arguments_of is, redirected zero_cmd is, t ∷ ts)
items-print is t ts h p =
    let (fuel, l, e) =
      items_step (length (print_items is (t ∷ ts))) is (t ∷ ts) zero_cmd h (omega arith) in
    e
    ∙ ap (prepend (arguments_of is)) (stop_step fuel t ts (redirected zero_cmd is) p l)
    ∙ unfold prepend in
      ap (λ args. parsed (args, redirected zero_cmd is, t ∷ ts)) (append-nil (arguments_of is))

pub at_eof-item : (i : Item) (ts : List Token) → at_eof (print_item i ts) ≡ false
unfolding at_eof print_item print_pieces print_piece operator
at_eof-item (argument (literal w) ps) ts = refl
at_eof-item (argument (var v) ps) ts = refl
at_eof-item (argument (quoted inner) ps) ts = refl
at_eof-item (redirection input file) ts = refl
at_eof-item (redirection output file) ts = refl
at_eof-item (redirection append_output file) ts = refl
at_eof-item (redirection here_document file) ts = refl

pub skip_spaces-item :
    (i : Item) (ts : List Token) → skip_spaces (print_item i ts) ≡ print_item i ts
unfolding skip_spaces print_item print_pieces print_piece operator
skip_spaces-item (argument (literal w) ps) ts = refl
skip_spaces-item (argument (var v) ps) ts = refl
skip_spaces-item (argument (quoted inner) ps) ts = refl
skip_spaces-item (redirection input file) ts = refl
skip_spaces-item (redirection output file) ts = refl
skip_spaces-item (redirection append_output file) ts = refl
skip_spaces-item (redirection here_document file) ts = refl

skip_spaces-line :
    (c : Command) (cs : List Command) → skip_spaces (print_line c cs) ≡ print_line c cs
unfolding print_line print_items
skip_spaces-line (command i is) [] = skip_spaces-item i (print_items is (eof_token ∷ []))
skip_spaces-line (command i is) (c ∷ cs) =
    skip_spaces-item i (print_items is (pipe_token ∷ print_line c cs))

-- A command that is read up to the end of the line.
pub last_command :
    (fuel : ℕ) (ts : List Token) (args : List Argument) (cmd : Cmd)
    → at_eof ts ≡ false
    → parse_arguments (length ts) ts zero_cmd ≡ parsed (args, cmd, eof_token ∷ [])
    → parse_commands (suc fuel) ts ≡ parsed (record cmd { args = args } ∷ [])
unfolding parse_commands behind_command
last_command fuel ts args cmd h e = ground arith

-- A command that is read up to a pipe.
earlier_command :
    (fuel : ℕ) (ts rest : List Token) (args : List Argument) (cmd : Cmd) (cmds : List Cmd)
    → at_eof ts ≡ false
    → parse_arguments (length ts) ts zero_cmd ≡ parsed (args, cmd, pipe_token ∷ rest)
    → skip_spaces rest ≡ rest
    → parse_commands fuel rest ≡ parsed cmds
    → parse_commands (suc fuel) ts ≡ parsed (record cmd { args = args } ∷ cmds)
unfolding parse_commands behind_command
earlier_command fuel ts rest args cmd cmds h e s r = ground arith

parse_commands-print :
    (fuel : ℕ) (c : Command) (cs : List Command)
    → AreCommands (c ∷ cs)
    → suc (length cs) ≤ fuel
    → parse_commands fuel (print_line c cs) ≡ parsed (map meaning (c ∷ cs))
parse_commands-print zero c cs h l = elim l [ ]
parse_commands-print (suc fuel) (command i is) [] h l =
    unfold print_line meaning in
    last_command fuel (print_items (i ∷ is) (eof_token ∷ [])) (arguments_of (i ∷ is))
      (redirected zero_cmd (i ∷ is)) (unfold print_items in at_eof-item i _)
      (items-print (i ∷ is) eof_token [] h.0 (unfold place in refl))
parse_commands-print (suc fuel) (command i is) (c ∷ cs) h l =
    further i is c cs h (parse_commands-print fuel c cs h.1 (omega arith))
  where
    further :
        (i : Item) (is : List Item) (c : Command) (cs : List Command)
        → AreCommands (command i is ∷ c ∷ cs)
        → parse_commands fuel (print_line c cs) ≡ parsed (map meaning (c ∷ cs))
        → parse_commands (suc fuel) (print_line (command i is) (c ∷ cs))
          ≡ parsed (map meaning (command i is ∷ c ∷ cs))
    further i is c cs h r =
        unfold print_line meaning in
        earlier_command fuel (print_items (i ∷ is) (pipe_token ∷ print_line c cs)) (print_line c cs)
          (arguments_of (i ∷ is)) (redirected zero_cmd (i ∷ is)) (map meaning (c ∷ cs))
          (unfold print_items in at_eof-item i _)
          (items-print (i ∷ is) pipe_token (print_line c cs) h.0 (unfold place in refl))
          (skip_spaces-line c cs) r

length-print_items : (is : List Item) (ts : List Token) → length ts ≤ length (print_items is ts)
unfolding print_items
length-print_items [] ts = omega arith
length-print_items (i ∷ is) ts =
    omega (arith, length-print_items is ts, length-print_item i (print_items is ts))

length-print_line : (c : Command) (cs : List Command) → length cs ≤ length (print_line c cs)
unfolding print_line
length-print_line (command i is) [] = omega arith
length-print_line (command i is) (c ∷ cs) =
    omega
      (arith, length-print_items (i ∷ is) (pipe_token ∷ print_line c cs), length-print_line c cs)

-- Of the tokens of a command line, parse gives the commands that the line stands for: for each
-- part between two pipes the arguments in their order, each with the segments of its pieces, and
-- the two lists of redirections, each in front of those that stand before it on the line. The
-- tokens between double quotes are any but that quote.
pub parse-print_line :
    (c : Command) (cs : List Command)
    → AreCommands (c ∷ cs)
    → parse (print_line c cs) ≡ parsed (map meaning (c ∷ cs))
unfolding parse
parse-print_line c cs h =
    ap (parse_commands (suc (length (print_line c cs)))) (skip_spaces-line c cs)
    ∙ parse_commands-print (suc (length (print_line c cs))) c cs h
        (omega (arith, length-print_line c cs))
