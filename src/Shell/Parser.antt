-- ===== src/Shell/Parser.antt =====
-- project/minishell/src/frontend/parser.c: the tokens become commands. The loops run on fuel; each
-- round takes a token. NULL in place of a token is the empty list.
pub mod Pieces
pub mod Total
use barcelona.Base.{
  ℕ, zero, suc, Bool, true, false, Option, none, some, List, [], ◌∷◌, ◌++◌, length,
}
use barcelona.Base.Text.{Bytes}
use barcelona.Shell.{
  TokenType, Token, word, variable, pipe, redir_in, redir_out, redir_append, heredoc, squote,
  dquote, space, eof, SegmentType, Segment, seg_literal, seg_variable, seg_squote_literal,
  seg_dquote_literal, seg_dquote_var, Argument, RedirectType, Redirect, input, output,
  append_output, here_document, Cmd, zero_cmd,
}

-- A value; the error flag with NULL; the use of a pointer that is NULL, which is undefined
-- behaviour; or the end of the fuel.
pub data Parsed (A : Type 0) : Type 0 where
  parsed : A → Parsed A
  syntax_error crash out_of_fuel : Parsed A

infixl 5 ◌>>=◌
abbrev pub ◌>>=◌ : {A B : Type 0} → Parsed A → (A → Parsed B) → Parsed B
parsed a >>= f = f a
syntax_error >>= f = syntax_error
crash >>= f = crash
out_of_fuel >>= f = out_of_fuel

-- `new_segment`
unfoldable pub new_segment : SegmentType → Bytes → Segment
new_segment type value = record { type = type; value = value }

-- The segment of a token between double quotes.
unfoldable pub dquoted_segment : Token → Segment
unfolding new_segment
dquoted_segment t = elim t.type [
  | variable ↦ new_segment seg_dquote_var t.value
  | _ ↦ new_segment seg_dquote_literal t.value
]

-- The loop of `parse_double_quoted_segments`, with what is behind the closing quote; `none` where
-- there is none.
unfoldable pub dquoted_segments : List Token → Option (List Segment × List Token)
unfolding dquoted_segment
dquoted_segments [] = none
dquoted_segments (t ∷ ts) = elim t.type [
  | dquote ↦ some ([], ts)
  | _ ↦ elim (dquoted_segments ts) [
    | none ↦ none
    | some (segs, rest) ↦ some (dquoted_segment t ∷ segs, rest)
  ]
]

unfoldable pub if_empty : List Segment → List Segment
unfolding new_segment
if_empty [] = new_segment seg_dquote_literal [] ∷ []
if_empty (seg ∷ segs) = seg ∷ segs

-- `parse_double_quoted_segments`, behind the opening quote
unfoldable pub parse_double_quoted_segments : List Token → Parsed (List Segment × List Token)
unfolding dquoted_segments if_empty
parse_double_quoted_segments ts = elim (dquoted_segments ts) [
  | none ↦ syntax_error
  | some (segs, rest) ↦ parsed (if_empty segs, rest)
]

-- The closing quote behind a word.
unfoldable pub close_squote : Bytes → List Token → Parsed (List Segment × List Token)
unfolding new_segment
close_squote value [] = syntax_error
close_squote value (t ∷ ts) = elim t.type [
  | squote ↦ parsed (new_segment seg_squote_literal value ∷ [], ts)
  | _ ↦ syntax_error
]

-- `parse_single_quoted_segment`, behind the opening quote
unfoldable pub parse_single_quoted_segment : List Token → Parsed (List Segment × List Token)
unfolding new_segment close_squote
parse_single_quoted_segment [] = crash
parse_single_quoted_segment (t ∷ ts) = elim t.type [
  | squote ↦ parsed (new_segment seg_squote_literal [] ∷ [], ts)
  | word ↦ close_squote t.value ts
  | _ ↦ syntax_error
]

-- What a token is for the loop of `parse_one_argument`.
pub data Role : Type 0 where
  ends opens_squote opens_dquote : Role
  makes : SegmentType → Role

unfoldable pub role : TokenType → Role
role word = makes seg_literal
role variable = makes seg_variable
role squote = opens_squote
role dquote = opens_dquote
role _ = ends

-- `parse_one_argument`: its segments, and the tokens behind it.
unfoldable pub parse_one_argument : ℕ → List Token → Parsed (Argument × List Token)
unfolding new_segment role parse_single_quoted_segment parse_double_quoted_segments
parse_one_argument fuel [] = parsed ([], [])
parse_one_argument zero (t ∷ ts) = out_of_fuel
parse_one_argument (suc fuel) (t ∷ ts) = elim (role t.type) [
  | ends ↦ parsed ([], t ∷ ts)
  | makes type ↦
      parse_one_argument fuel ts >>= λ (more, rest). parsed (new_segment type t.value ∷ more, rest)
  | opens_squote ↦ parse_single_quoted_segment ts >>= λ (segs, behind).
      parse_one_argument fuel behind >>= λ (more, rest). parsed (segs ++ more, rest)
  | opens_dquote ↦ parse_double_quoted_segments ts >>= λ (segs, behind).
      parse_one_argument fuel behind >>= λ (more, rest). parsed (segs ++ more, rest)
]

-- `while (token && token->type == TOKEN_SPACE) token = token->next;`
unfoldable pub skip_spaces : List Token → List Token
skip_spaces [] = []
skip_spaces (t ∷ ts) = elim t.type [ space ↦ skip_spaces ts | _ ↦ t ∷ ts ]

unfoldable pub redirect_type : TokenType → Option RedirectType
redirect_type redir_in = some input
redirect_type redir_out = some output
redirect_type redir_append = some append_output
redirect_type heredoc = some here_document
redirect_type _ = none

unfoldable pub file_name : RedirectType → List Token → Option (Redirect × List Token)
file_name type [] = none
file_name type (t ∷ ts) = elim t.type [
  | word ↦ some (record { type = type; file = t.value }, ts)
  | _ ↦ none
]

-- `parse_redirect`, behind the operator; `none` is NULL, with the error flag.
unfoldable pub parse_redirect : RedirectType → List Token → Option (Redirect × List Token)
unfolding skip_spaces file_name
parse_redirect type ts = file_name type (skip_spaces ts)

-- `handle_redir`: the new redirection stands first.
unfoldable pub handle_redir : Cmd → Redirect → Cmd
handle_redir cmd redir = elim redir.type [
  | input ↦ record cmd { in_redir = redir ∷ cmd.in_redir }
  | here_document ↦ record cmd { in_redir = redir ∷ cmd.in_redir }
  | output ↦ record cmd { out_redir = redir ∷ cmd.out_redir }
  | append_output ↦ record cmd { out_redir = redir ∷ cmd.out_redir }
]

-- What a token is for the loop of `parse_arguments`.
pub data Place : Type 0 where
  stops skips starts : Place
  redirects : RedirectType → Place

unfoldable pub place : TokenType → Place
place pipe = stops
place eof = stops
place space = skips
place redir_in = redirects input
place redir_out = redirects output
place redir_append = redirects append_output
place heredoc = redirects here_document
place _ = starts

-- `parse_arguments`: the arguments, the command with its redirections, and the tokens behind it.
-- handle_redir uses what parse_redirect returns, also where that is NULL.
unfoldable pub parse_arguments : ℕ → List Token → Cmd → Parsed (List Argument × Cmd × List Token)
unfolding place parse_redirect handle_redir parse_one_argument
parse_arguments fuel [] cmd = parsed ([], cmd, [])
parse_arguments zero (t ∷ ts) cmd = out_of_fuel
parse_arguments (suc fuel) (t ∷ ts) cmd = elim (place t.type) [
  | stops ↦ parsed ([], cmd, t ∷ ts)
  | skips ↦ parse_arguments fuel ts cmd
  | redirects type ↦ elim (parse_redirect type ts) [
    | none ↦ crash
    | some (redir, rest) ↦ parse_arguments fuel rest (handle_redir cmd redir)
  ]
  | starts ↦ parse_one_argument (length (t ∷ ts)) (t ∷ ts) >>= λ (arg, behind).
      parse_arguments fuel behind cmd >>= λ (args, cmd', rest). parsed (arg ∷ args, cmd', rest)
]

-- What stands behind a command: nothing more, a further command, or an error.
pub data Behind : Type 0 where
  at_end : Behind
  more_from : List Token → Behind
  unexpected : Behind

unfoldable pub behind_command : List Token → Behind
unfolding skip_spaces
behind_command [] = at_end
behind_command (t ∷ ts) = elim t.type [
  | pipe ↦ more_from (skip_spaces ts)
  | eof ↦ at_end
  | _ ↦ unexpected
]

-- The test of the loop of `parse`.
unfoldable pub at_eof : List Token → Bool
at_eof [] = true
at_eof (t ∷ ts) = elim t.type [ eof ↦ true | _ ↦ false ]

-- The loop of `parse`.
unfoldable pub parse_commands : ℕ → List Token → Parsed (List Cmd)
unfolding at_eof parse_arguments behind_command
parse_commands zero ts = out_of_fuel
parse_commands (suc fuel) ts = elim (at_eof ts) [
  | true ↦ parsed []
  | false ↦ parse_arguments (length ts) ts zero_cmd >>= λ (args, cmd, rest).
      elim (behind_command rest) [
        | at_end ↦ parsed (record cmd { args = args } ∷ [])
        | unexpected ↦ syntax_error
        | more_from next ↦
            parse_commands fuel next >>= λ cmds. parsed (record cmd { args = args } ∷ cmds)
      ]
]

-- `parse`
unfoldable pub parse : List Token → Parsed (List Cmd)
unfolding parse_commands skip_spaces
parse ts = parse_commands (suc (length ts)) (skip_spaces ts)
