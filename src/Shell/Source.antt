-- ===== src/Shell/Source.antt =====
-- How a command line is written: a text in single quotes, a variable behind a dollar sign, words,
-- spaces and variables in double quotes, a space behind each argument and each redirection.
pub mod Scanning
pub mod Lexing
pub mod RoundTrip
use barcelona.Base.{ℕ, ◌≡◌, ◌⊎◌, Bool, true, false, ◌||◌, List, [], ◌∷◌, ◌++◌, ◌==◌, if◌then◌else◌}
use barcelona.Base.Text.{is_alpha, Bytes, is_space}
use barcelona.Shell.{
  TokenType, Token, word, variable, pipe, redir_in, redir_out, redir_append, heredoc, squote,
  dquote, space, eof,
}
use barcelona.Shell.Tokenizer.{is_name, is_plain, not_quote}
use barcelona.Shell.Grammar.{
  Piece, literal, var, quoted, Item, argument, redirection, Command, command, operator,
}

-- A token between double quotes, in front of what follows it.
unfoldable pub spell_inner : TokenType → Bytes → Bytes
spell_inner variable value = b'$' ∷ value
spell_inner _ value = value

unfoldable pub spell_quoted : List Token → Bytes → Bytes
unfolding spell_inner
spell_quoted [] rest = b'"' ∷ rest
spell_quoted (t ∷ ts) rest = spell_inner t.type t.value ++ spell_quoted ts rest

unfoldable pub spell_piece : Piece → Bytes → Bytes
unfolding spell_quoted
spell_piece (literal w) rest = 39 ∷ (w ++ (39 ∷ rest))
spell_piece (var v) rest = b'$' ∷ (v ++ rest)
spell_piece (quoted ts) rest = b'"' ∷ spell_quoted ts rest

unfoldable pub spell_pieces : List Piece → Bytes → Bytes
unfolding spell_piece
spell_pieces [] rest = rest
spell_pieces (p ∷ ps) rest = spell_piece p (spell_pieces ps rest)

unfoldable pub spell_item : Item → Bytes → Bytes
unfolding spell_pieces operator
spell_item (argument p ps) rest = spell_pieces (p ∷ ps) (b' ' ∷ rest)
spell_item (redirection type file) rest =
    (operator type).value ++ (39 ∷ (file ++ (39 ∷ b' ' ∷ rest)))

unfoldable pub spell_items : List Item → Bytes → Bytes
unfolding spell_item
spell_items [] rest = rest
spell_items (i ∷ is) rest = spell_item i (spell_items is rest)

-- The commands of a pipeline, with a bar between each two.
unfoldable pub spell_line : Command → List Command → Bytes
unfolding spell_items
spell_line (command i is) [] = spell_items (i ∷ is) []
spell_line (command i is) (c ∷ cs) = spell_items (i ∷ is) (b'|' ∷ spell_line c cs)

abbrev pub AreAll : (ℕ → Bool) → Bytes → Type 0
AreAll p [] = Unit {0}
AreAll p (c ∷ s) = (p c ≡ true) × AreAll p s

-- The input has ended, or its next character fails the test.
abbrev pub HeadFails : (ℕ → Bool) → Bytes → Type 0
HeadFails p [] = Unit {0}
HeadFails p (c ∷ s) = p c ≡ false

-- A question mark, or a letter or an underscore and then letters, digits and underscores.
abbrev pub IsVariable : Bytes → Type 0
IsVariable [] = ⊥
IsVariable (c ∷ v) =
    ((c ≡ b'?') × (v ≡ [])) ⊎ (((is_alpha c || c == b'_') ≡ true) × AreAll is_name v)

abbrev pub IsWord : Bytes → Type 0
IsWord [] = ⊥
IsWord (c ∷ w) = AreAll is_plain (c ∷ w)

-- A token between double quotes that comes back as it is from what is written of it, where the
-- text behind it starts so that it does not go on with the token.
abbrev pub IsSpelled : TokenType → Bytes → Bytes → Type 0
IsSpelled word value behind = IsWord value × HeadFails is_plain behind
IsSpelled variable value behind = IsVariable value × HeadFails is_name behind
IsSpelled space value behind = (value ≡ b' ' ∷ []) × HeadFails is_space behind
IsSpelled _ value behind = ⊥

abbrev pub AreSpelled : List Token → Type 0
AreSpelled [] = Unit {0}
AreSpelled (t ∷ ts) = IsSpelled t.type t.value (spell_quoted ts []) × AreSpelled ts

-- A text has no single quote.
abbrev pub IsWritten : Piece → Type 0
IsWritten (literal w) = AreAll not_quote w
IsWritten (var v) = IsVariable v
IsWritten (quoted ts) = AreSpelled ts

abbrev pub AreWritten : List Piece → Type 0
AreWritten [] = Unit {0}
AreWritten (p ∷ ps) = IsWritten p × AreWritten ps

abbrev pub IsWrittenItem : Item → Type 0
IsWrittenItem (argument p ps) = AreWritten (p ∷ ps)
IsWrittenItem (redirection type file) = AreAll not_quote file

abbrev pub AreWrittenItems : List Item → Type 0
AreWrittenItems [] = Unit {0}
AreWrittenItems (i ∷ is) = IsWrittenItem i × AreWrittenItems is

abbrev pub AreWrittenCommands : List Command → Type 0
AreWrittenCommands [] = Unit {0}
AreWrittenCommands (command i is ∷ cs) = AreWrittenItems (i ∷ is) × AreWrittenCommands cs
