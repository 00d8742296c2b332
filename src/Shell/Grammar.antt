-- ===== src/Shell/Grammar.antt =====
-- Command lines as a shell means them, the tokens that they are written with, and the commands
-- that they stand for.
pub mod Parsing
pub mod Lines
pub mod Redirections
use barcelona.Base.{◌≢◌, List, [], ◌∷◌, ◌++◌, map}
use barcelona.Base.Text.{Bytes, codes}
use barcelona.Shell.{
  TokenType, Token, word, variable, pipe, redir_in, redir_out, redir_append, heredoc, dquote, space,
  eof, Segment, seg_literal, seg_variable, Argument, RedirectType, Redirect, input, output,
  append_output, here_document, Cmd, zero_cmd,
}
use barcelona.Shell.Tokenizer.{new_token}
use barcelona.Shell.Parser.{new_segment, dquoted_segment, if_empty, handle_redir}

-- A part of an argument: a text, a variable, or what stands between double quotes.
pub data Piece : Type 0 where
  literal var : Bytes → Piece
  quoted : List Token → Piece

-- An argument has a piece at least; a redirection has its file.
pub data Item : Type 0 where
  argument : Piece → List Piece → Item
  redirection : RedirectType → Bytes → Item

-- A command has an item at least.
pub data Command : Type 0 where
  command : Item → List Item → Command

abbrev pub space_token : Token
space_token = record { type = space; value = codes " " }

abbrev pub pipe_token : Token
pipe_token = record { type = pipe; value = codes "|" }

abbrev pub eof_token : Token
eof_token = record { type = eof; value = codes "EOF" }

abbrev pub dquote_token : Token
dquote_token = record { type = dquote; value = b'"' ∷ [] }

unfoldable pub operator : RedirectType → Token
operator input = record { type = redir_in; value = codes "<" }
operator output = record { type = redir_out; value = codes ">" }
operator append_output = record { type = redir_append; value = codes ">>" }
operator here_document = record { type = heredoc; value = codes "<<" }

-- The tokens, in front of those that follow.
unfoldable pub print_piece : Piece → List Token → List Token
print_piece (literal w) rest = record { type = word; value = w } ∷ rest
print_piece (var v) rest = record { type = variable; value = v } ∷ rest
print_piece (quoted ts) rest = dquote_token ∷ (ts ++ (dquote_token ∷ rest))

unfoldable pub print_pieces : List Piece → List Token → List Token
unfolding print_piece
print_pieces [] rest = rest
print_pieces (p ∷ ps) rest = print_piece p (print_pieces ps rest)

unfoldable pub print_item : Item → List Token → List Token
unfolding print_pieces operator
print_item (argument p ps) rest = print_pieces (p ∷ ps) (space_token ∷ rest)
print_item (redirection type file) rest =
    operator type ∷ record { type = word; value = file } ∷ space_token ∷ rest

unfoldable pub print_items : List Item → List Token → List Token
unfolding print_item
print_items [] rest = rest
print_items (i ∷ is) rest = print_item i (print_items is rest)

-- The commands of a pipeline, which has one at least.
unfoldable pub print_line : Command → List Command → List Token
unfolding print_items
print_line (command i is) [] = print_items (i ∷ is) (eof_token ∷ [])
print_line (command i is) (c ∷ cs) = print_items (i ∷ is) (pipe_token ∷ print_line c cs)

unfoldable pub segments_of : Piece → List Segment
unfolding new_segment dquoted_segment if_empty
segments_of (literal w) = new_segment seg_literal w ∷ []
segments_of (var v) = new_segment seg_variable v ∷ []
segments_of (quoted ts) = if_empty (map dquoted_segment ts)

unfoldable pub all_segments : List Piece → Argument
unfolding segments_of
all_segments [] = []
all_segments (p ∷ ps) = segments_of p ++ all_segments ps

-- The arguments of a command in their order, without its redirections.
unfoldable pub arguments_of : List Item → List Argument
unfolding all_segments
arguments_of [] = []
arguments_of (argument p ps ∷ is) = all_segments (p ∷ ps) ∷ arguments_of is
arguments_of (redirection type file ∷ is) = arguments_of is

-- The redirections, each in front of those that it comes behind.
unfoldable pub redirected : Cmd → List Item → Cmd
unfolding handle_redir
redirected cmd [] = cmd
redirected cmd (argument p ps ∷ is) = redirected cmd is
redirected cmd (redirection type file ∷ is) =
    redirected (handle_redir cmd (record { type = type; file = file })) is

unfoldable pub meaning : Command → Cmd
unfolding arguments_of redirected
meaning (command i is) = record (redirected zero_cmd (i ∷ is)) { args = arguments_of (i ∷ is) }

-- No token between double quotes is one of those quotes.
abbrev pub AreInner : List Token → Type 0
AreInner [] = Unit {0}
AreInner (t ∷ ts) = (t.type ≢ dquote) × AreInner ts

abbrev pub IsPiece : Piece → Type 0
IsPiece (literal w) = Unit {0}
IsPiece (var v) = Unit {0}
IsPiece (quoted ts) = AreInner ts

abbrev pub ArePieces : List Piece → Type 0
ArePieces [] = Unit {0}
ArePieces (p ∷ ps) = IsPiece p × ArePieces ps

abbrev pub IsItem : Item → Type 0
IsItem (argument p ps) = IsPiece p × ArePieces ps
IsItem (redirection type file) = Unit {0}

abbrev pub AreItems : List Item → Type 0
AreItems [] = Unit {0}
AreItems (i ∷ is) = IsItem i × AreItems is

abbrev pub AreCommands : List Command → Type 0
AreCommands [] = Unit {0}
AreCommands (command i is ∷ cs) = AreItems (i ∷ is) × AreCommands cs
