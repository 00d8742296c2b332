-- ===== src/Shell/Repl/Lines.antt =====
-- What a line becomes that is written with its quotes and variables.
use barcelona.Base.{◌≡◌, ◌≢◌, ap, ◌∙◌, List, [], ◌∷◌, map, arith}
use barcelona.Base.Text.{Bytes}
use barcelona.Base.Int.{ℤ}
use barcelona.Shell.{TokenType, Token, word, variable, pipe, dquote, space, Cmd}
use barcelona.Shell.Tokenizer
use barcelona.Shell.Tokenizer.{Tokens, tokenize}
use barcelona.Shell.Parser.{parsed, parse}
use barcelona.Shell.Expander.{expand_command, expand_commands}
use barcelona.Shell.Grammar.{
  Piece, literal, var, quoted, Item, argument, redirection, Command, command, meaning, AreInner,
  IsPiece, ArePieces, AreItems, AreCommands, print_line,
}
use barcelona.Shell.Grammar.Lines.{parse-print_line}
use barcelona.Shell.Source.{
  spell_quoted, spell_line, IsSpelled, AreSpelled, IsWritten, AreWritten, AreWrittenItems,
  AreWrittenCommands,
}
use barcelona.Shell.Source.RoundTrip.{tokenize-spell_line}
use barcelona.Shell.Repl.{commands, of_commands, of_parsed, of_tokens, front_end}
use barcelona.Shell.Repl.Words.{expanded, expand-line}

module _ (envp : List Bytes) (status : ℤ) where
  front_end-parsed :
      (line : Bytes) (ts : List Token) (cmd : Cmd) (cmds : List Cmd)
      → tokenize line ≡ Tokenizer.tokens ts
      → parse ts ≡ parsed (cmd ∷ cmds)
      → front_end envp status line ≡ commands (map (expand_command envp status) (cmd ∷ cmds))
  unfolding front_end of_tokens of_parsed of_commands expand_commands
  front_end-parsed line ts cmd cmds e f = ground arith

inner-type : (type : TokenType) (value behind : Bytes) → IsSpelled type value behind → type ≢ dquote
inner-type word value behind h = λ e. cc
inner-type variable value behind h = λ e. cc
inner-type space value behind h = λ e. cc
inner-type pipe value behind h = absurd h
inner-type _ value behind h = absurd h

AreSpelled-AreInner : (ts : List Token) → AreSpelled ts → AreInner ts
AreSpelled-AreInner [] h = tt
AreSpelled-AreInner (t ∷ ts) h =
    (inner-type t.type t.value (spell_quoted ts []) h.0, AreSpelled-AreInner ts h.1)

IsWritten-IsPiece : (p : Piece) → IsWritten p → IsPiece p
IsWritten-IsPiece (literal w) h = tt
IsWritten-IsPiece (var v) h = tt
IsWritten-IsPiece (quoted ts) h = AreSpelled-AreInner ts h

AreWritten-ArePieces : (ps : List Piece) → AreWritten ps → ArePieces ps
AreWritten-ArePieces [] h = tt
AreWritten-ArePieces (p ∷ ps) h = (IsWritten-IsPiece p h.0, AreWritten-ArePieces ps h.1)

AreWritten-AreItems : (is : List Item) → AreWrittenItems is → AreItems is
AreWritten-AreItems [] h = tt
AreWritten-AreItems (argument p ps ∷ is) h =
    (AreWritten-ArePieces (p ∷ ps) h.0, AreWritten-AreItems is h.1)
AreWritten-AreItems (redirection type file ∷ is) h = (tt, AreWritten-AreItems is h.1)

AreWritten-AreCommands : (cs : List Command) → AreWrittenCommands cs → AreCommands cs
AreWritten-AreCommands [] h = tt
AreWritten-AreCommands (command i is ∷ cs) h =
    (AreWritten-AreItems (i ∷ is) h.0, AreWritten-AreCommands cs h.1)

-- A pipeline that is written with texts without single quotes in single quotes, variables behind a
-- dollar sign, and words, single spaces and variables in double quotes, where no character behind
-- one of these last would go on with it: the front end gives a command for each part between two
-- bars; its argv are its arguments in their order, each the texts of its pieces and the values of
-- its variables in a row, and its redirections are those of the line, the last first.
pub front_end-spell_line :
    (envp : List Bytes) (status : ℤ) (c : Command) (cs : List Command)
    → AreWrittenCommands (c ∷ cs)
    → front_end envp status (spell_line c cs) ≡ commands (map (expanded envp status) (c ∷ cs))
front_end-spell_line envp status c cs h =
    front_end-parsed envp status (spell_line c cs) (print_line c cs) (meaning c) (map meaning cs)
      (tokenize-spell_line c cs h) (parse-print_line c cs (AreWritten-AreCommands (c ∷ cs) h))
    ∙ ap commands (expand-line envp status (c ∷ cs))
