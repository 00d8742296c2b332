-- ===== src/Shell/Tokenizer.antt =====
-- project/minishell/src/frontend/tokenizer.c. The loop runs on fuel; each round takes a byte.
pub mod Total
use barcelona.Base.{
  ℕ, zero, suc, Bool, not, ◌&&◌, ◌||◌, Option, none, some, List, [], ◌∷◌, leb, ◌==◌, if◌then◌else◌,
  length,
}
use barcelona.Base.Text.{is_alpha, Bytes, codes, is_space, is_digit, starts_with}
use barcelona.Base.Number.{drop_while}
use barcelona.Shell.{
  TokenType, Token, word, variable, pipe, redir_in, redir_out, redir_append, heredoc, dquote, space,
  eof,
}

-- A character that goes on with the name of a variable.
unfoldable pub is_name : ℕ → Bool
unfolding is_alpha is_digit
is_name c = is_alpha c || (is_digit c || c == b'_')

-- A character that goes on with a word.
unfoldable pub is_plain : ℕ → Bool
unfolding is_space
is_plain c =
    not (is_space c)
    && not (c == b'|' || (c == b'<' || (c == b'>' || (c == b'"' || (c == 39 || c == b'$')))))

unfoldable pub take_while : (ℕ → Bool) → Bytes → Bytes
take_while test [] = []
take_while test (c ∷ s) = if test c then c ∷ take_while test s else []

-- `tokenizer_state`; STAT_SQUOTE is never set.
pub data TokenizerState : Type 0 where
  normal in_dquote : TokenizerState

unfoldable pub toggle : TokenizerState → TokenizerState
toggle normal = in_dquote
toggle in_dquote = normal

-- `new_token`
unfoldable pub new_token : TokenType → Bytes → Token
new_token type value = record { type = type; value = value }

-- `parse_variable_name`: the name and what is behind it, or NULL, with nothing read.
unfoldable pub parse_variable_name : Bytes → Option (Bytes × Bytes)
unfolding is_alpha
parse_variable_name [] = none
parse_variable_name (c ∷ s) =
    if c == b'?'
    then some (c ∷ [], s)
    else if not (is_alpha c) && not (c == b'_')
    then none
    else some (c ∷ take_while is_name s, drop_while is_name s)

-- One round of the loop: a token, the state and the input behind it, or the unclosed quote.
pub data Lexed : Type 0 where
  lexed : Token → TokenizerState → Bytes → Lexed
  unclosed : Lexed

-- The end of a single-quoted word, in front of the rest of the input.
unfoldable pub close_quote : TokenizerState → Bytes → Bytes → Lexed
unfolding new_token
close_quote state body [] = unclosed
close_quote state body (c ∷ s) = lexed (new_token word body) state s

unfoldable pub not_quote : ℕ → Bool
not_quote c = not (c == 39)

-- Behind a single quote.
unfoldable pub lex_quote : TokenizerState → Bytes → Lexed
unfolding new_token close_quote not_quote
lex_quote in_dquote s = lexed (new_token word (39 ∷ [])) in_dquote s
lex_quote normal s = close_quote normal (take_while not_quote s) (drop_while not_quote s)

-- Behind a dollar sign.
unfoldable pub lex_variable : TokenizerState → Bytes → Lexed
unfolding new_token parse_variable_name
lex_variable state s = elim (parse_variable_name s) [
  | none ↦ lexed (new_token word (b'$' ∷ [])) state s
  | some (name, rest) ↦ lexed (new_token variable name) state rest
]

unfoldable pub behind_one : Bytes → Bytes
behind_one [] = []
behind_one (c ∷ s) = s

unfoldable pub next_token : TokenizerState → ℕ → Bytes → Lexed
unfolding new_token lex_quote lex_variable toggle behind_one is_space is_plain starts_with
next_token state c s =
    if is_space c
    then lexed (new_token space (b' ' ∷ [])) state (drop_while is_space s)
    else if starts_with (c ∷ s) (b'>' ∷ b'>' ∷ [])
    then lexed (new_token redir_append (codes ">>")) state (behind_one s)
    else if starts_with (c ∷ s) (b'<' ∷ b'<' ∷ [])
    then lexed (new_token heredoc (codes "<<")) state (behind_one s)
    else if c == b'|'
    then lexed (new_token pipe (codes "|")) state s
    else if c == b'<'
    then lexed (new_token redir_in (codes "<")) state s
    else if c == b'>'
    then lexed (new_token redir_out (codes ">")) state s
    else if c == 39
    then lex_quote state s
    else if c == b'"'
    then lexed (new_token dquote (b'"' ∷ [])) (toggle state) s
    else if c == b'$'
    then lex_variable state s
    else lexed (new_token word (take_while is_plain (c ∷ s))) state (drop_while is_plain (c ∷ s))

-- The tokens, the error, or the end of the fuel.
pub data Tokens : Type 0 where
  tokens : List Token → Tokens
  failed : Tokens
  out_of_fuel : Tokens

unfoldable pub link : Token → Tokens → Tokens
link t (tokens ts) = tokens (t ∷ ts)
link t failed = failed
link t out_of_fuel = out_of_fuel

unfoldable pub tokenize_loop : ℕ → TokenizerState → Bytes → Tokens
unfolding next_token link new_token
tokenize_loop fuel state [] = tokens (new_token eof (codes "EOF") ∷ [])
tokenize_loop zero state (c ∷ s) = out_of_fuel
tokenize_loop (suc fuel) state (c ∷ s) = elim (next_token state c s) [
  | unclosed ↦ failed
  | lexed t state' rest ↦ link t (tokenize_loop fuel state' rest)
]

-- `tokenize`
unfoldable pub tokenize : Bytes → Tokens
unfolding tokenize_loop
tokenize s = tokenize_loop (length s) normal s
