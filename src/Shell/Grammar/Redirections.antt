-- ===== src/Shell/Grammar/Redirections.antt =====
-- An operator of redirection at the end of what is read: with its file, and without.
use barcelona.Base.{
  ℕ, zero, suc, ◌≤◌, ◌≡◌, refl, ap, some, ◌++◌, ◌∙◌, false, none, List, [], ◌∷◌, append-nil, arith,
  length,
}
use barcelona.Base.Text.{Bytes}
use barcelona.Shell.{
  TokenType, Token, word, variable, pipe, redir_in, redir_out, redir_append, heredoc, squote,
  dquote, space, eof, Redirect, input, output, append_output, here_document, Cmd, zero_cmd,
  RedirectType,
}
use barcelona.Shell.Parser.{
  parsed, crash, place, parse_redirect, parse_arguments, at_eof, parse_commands, parse, skip_spaces,
  file_name, handle_redir,
}
use barcelona.Shell.Grammar.{
  Item, argument, redirection, eof_token, space_token, operator, print_items, arguments_of,
  redirected, AreItems,
}
use barcelona.Shell.Grammar.Parsing.{prepend, items_step}
use barcelona.Shell.Grammar.Lines.{at_eof-item, skip_spaces-item, last_command}

operator_step :
    (fuel : ℕ) (type : RedirectType) (ts : List Token) (cmd : Cmd)
    → parse_redirect type ts ≡ none
    → suc (length ts) ≤ fuel
    → parse_arguments fuel (operator type ∷ ts) cmd ≡ crash
unfolding parse_arguments operator
operator_step zero type ts cmd h l = elim l [ ]
operator_step (suc fuel) input ts cmd h l = ground arith
operator_step (suc fuel) output ts cmd h l = ground arith
operator_step (suc fuel) append_output ts cmd h l = ground arith
operator_step (suc fuel) here_document ts cmd h l = ground arith

begins_item :
    (is : List Item) (type : RedirectType) (ts : List Token)
    → (at_eof (print_items is (operator type ∷ ts)) ≡ false)
      × (skip_spaces (print_items is (operator type ∷ ts)) ≡ print_items is (operator type ∷ ts))
begins_item [] input ts = unfold print_items at_eof skip_spaces operator in (refl, refl)
begins_item [] output ts = unfold print_items at_eof skip_spaces operator in (refl, refl)
begins_item [] append_output ts = unfold print_items at_eof skip_spaces operator in (refl, refl)
begins_item [] here_document ts = unfold print_items at_eof skip_spaces operator in (refl, refl)
begins_item (i ∷ is) type ts = unfold print_items in (at_eof-item i _, skip_spaces-item i _)

crashed :
    (fuel : ℕ) (ts : List Token)
    → at_eof ts ≡ false
    → parse_arguments (length ts) ts zero_cmd ≡ crash
    → parse_commands (suc fuel) ts ≡ crash
unfolding parse_commands
crashed fuel ts h e = ground arith

-- What follows the operator has no word for it: behind spaces, there is a token of another kind, or
-- none.
abbrev pub LacksWord : List Token → Type 0
LacksWord [] = Unit {0}
LacksWord (t ∷ ts) = elim t.type [ space ↦ LacksWord ts | word ↦ ⊥ | _ ↦ Unit {0} ]

first_token :
    (type : RedirectType) (kind : TokenType) (value : Bytes) (ts : List Token)
    → (LacksWord ts → parse_redirect type ts ≡ none)
    → LacksWord (record { type = kind; value = value } ∷ ts)
    → parse_redirect type (record { type = kind; value = value } ∷ ts) ≡ none
unfolding parse_redirect file_name skip_spaces
first_token type word value ts more h = absurd h
first_token type space value ts more h = more h
first_token type variable value ts more h = refl
first_token type pipe value ts more h = refl
first_token type redir_in value ts more h = refl
first_token type redir_out value ts more h = refl
first_token type redir_append value ts more h = refl
first_token type heredoc value ts more h = refl
first_token type squote value ts more h = refl
first_token type dquote value ts more h = refl
first_token type eof value ts more h = refl

LacksWord-none :
    (type : RedirectType) (ts : List Token) → LacksWord ts → parse_redirect type ts ≡ none
unfolding parse_redirect file_name skip_spaces
LacksWord-none type [] h = refl
LacksWord-none type (t ∷ ts) h = first_token type t.type t.value ts (LacksWord-none type ts) h

-- So many spaces.
unfoldable pub spaces : ℕ → List Token → List Token
spaces zero ts = ts
spaces (suc k) ts = space_token ∷ spaces k ts

abbrev pub word_token : Bytes → Token
word_token file = record { type = word; value = file }

parse_redirect-spaces :
    (type : RedirectType) (k : ℕ) (file : Bytes) (ts : List Token)
    → parse_redirect type (spaces k (word_token file ∷ ts))
      ≡ some (record { type = type; file = file }, ts)
unfolding parse_redirect file_name skip_spaces spaces
parse_redirect-spaces type zero file ts = refl
parse_redirect-spaces type (suc k) file ts = parse_redirect-spaces type k file ts

length-spaces : (k : ℕ) (ts : List Token) → length ts ≤ length (spaces k ts)
unfolding spaces
length-spaces zero ts = omega arith
length-spaces (suc k) ts = omega (arith, length-spaces k ts)

file_step :
    (fuel : ℕ) (type : RedirectType) (ts : List Token) (redir : Redirect) (cmd : Cmd)
    → parse_redirect type ts ≡ some (redir, eof_token ∷ [])
    → 2 ≤ fuel
    → parse_arguments fuel (operator type ∷ ts) cmd
      ≡ parsed ([], handle_redir cmd redir, eof_token ∷ [])
unfolding parse_arguments operator place
file_step zero type ts redir cmd e l = absurd (omega arith)
file_step (suc zero) type ts redir cmd e l = absurd (omega arith)
file_step (suc (suc fuel)) input ts redir cmd e l = rw (e, parse_arguments) refl
file_step (suc (suc fuel)) output ts redir cmd e l = rw (e, parse_arguments) refl
file_step (suc (suc fuel)) append_output ts redir cmd e l = rw (e, parse_arguments) refl
file_step (suc (suc fuel)) here_document ts redir cmd e l = rw (e, parse_arguments) refl

crash_behind :
    (is : List Item) (type : RedirectType) (ts : List Token)
    → AreItems is
    → parse_redirect type ts ≡ none
    → parse (print_items is (operator type ∷ ts)) ≡ crash
unfolding parse
crash_behind is type ts h r =
    let (begins, same) = begins_item is type ts in
    let line = print_items is (operator type ∷ ts) in
    let (fuel, l, e) = items_step (length line) is (operator type ∷ ts) zero_cmd h (omega arith) in
    ap (parse_commands (suc (length line))) same
    ∙ crashed (length line) line begins (
        e
        ∙ ap (prepend (arguments_of is)) (operator_step fuel type ts (redirected zero_cmd is) r l)
        ∙ unfold prepend in refl)

redirected-last :
    (cmd : Cmd) (is : List Item) (type : RedirectType) (file : Bytes)
    → redirected cmd (is ++ (redirection type file ∷ []))
      ≡ handle_redir (redirected cmd is) (record { type = type; file = file })
unfolding redirected
redirected-last cmd [] type file = refl
redirected-last cmd (argument p ps ∷ is) type file = redirected-last cmd is type file
redirected-last cmd (redirection t f ∷ is) type file = redirected-last _ is type file

finished :
    (is : List Item) (redir : Redirect)
    → prepend
        (arguments_of is)
        (parsed ([], handle_redir (redirected zero_cmd is) redir, eof_token ∷ []))
      ≡ parsed (
        arguments_of is,
        redirected zero_cmd (is ++ (redirection redir.type redir.file ∷ [])),
        eof_token ∷ [],
      )
unfolding prepend
finished is redir =
    rw (append-nil (arguments_of is), redirected-last zero_cmd is redir.type redir.file) refl

word_behind :
    (is : List Item) (type : RedirectType) (k : ℕ) (file : Bytes)
    → AreItems is
    → parse (print_items is (operator type ∷ spaces k (word_token file ∷ eof_token ∷ [])))
      ≡ parsed (
          record (redirected zero_cmd (is ++ (redirection type file ∷ []))) {
            args = arguments_of is;
          }
          ∷ [])
unfolding parse
word_behind is type k file h =
    let ts = spaces k (word_token file ∷ eof_token ∷ []) in
    let (begins, same) = begins_item is type ts in
    let line = print_items is (operator type ∷ ts) in
    let (fuel, l, e) = items_step (length line) is (operator type ∷ ts) zero_cmd h (omega arith) in
    let redir : Redirect = record { type = type; file = file } in
    ap (parse_commands (suc (length line))) same
    ∙ last_command (length line) line (arguments_of is)
        (redirected zero_cmd (is ++ (redirection type file ∷ []))) begins
        (e
          ∙ ap (prepend (arguments_of is)) (
              file_step fuel type ts redir (redirected zero_cmd is)
                (parse_redirect-spaces type k file (eof_token ∷ []))
                (omega (arith, l, length-spaces k (word_token file ∷ eof_token ∷ []))))
          ∙ finished is redir)

-- Behind any items of a command stands an operator of redirection. Where no word follows it, with
-- spaces in front of what follows or without, parse uses the NULL that parse_redirect returns; where
-- a word follows, behind any number of spaces, and the line ends there, parse gives the command with
-- this redirection as the last.
pub parse-redirection :
    (is : List Item) (type : RedirectType) (ts : List Token)
    → AreItems is
    → LacksWord ts
    → (parse (print_items is (operator type ∷ ts)) ≡ crash)
      × ((k : ℕ) (file : Bytes)
          → parse (print_items is (operator type ∷ spaces k (word_token file ∷ eof_token ∷ [])))
            ≡ parsed (
                record (redirected zero_cmd (is ++ (redirection type file ∷ []))) {
                  args = arguments_of is;
                }
                ∷ []))
parse-redirection is type ts h lacks = (
  crash_behind is type ts h (LacksWord-none type ts lacks),
  λ k file. word_behind is type k file h,
)
