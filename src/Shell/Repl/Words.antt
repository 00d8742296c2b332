-- ===== src/Shell/Repl/Words.antt =====
-- What a command of a line has for its words and redirections once it is expanded.
use mathlib.Core.Path.{ap₂}
use barcelona.Base.{
  ◌≡◌, refl, sym, ap, ◌∙◌, List, [], ◌∷◌, ◌++◌, map, append_assoc, append-nil, arith, some,
}
use barcelona.Base.Text.{Bytes}
use barcelona.Base.Int.{ℤ}
use barcelona.Shell.{
  TokenType, Token, variable, Argument, Redirect, input, output, append_output, here_document, Cmd,
  zero_cmd,
}
use barcelona.Shell.Parser.{dquoted_segment, if_empty, handle_redir}
use barcelona.Shell.Expander.{expand_variable, expand_segment, expand_argument, expand_command}
use barcelona.Shell.Grammar.{
  Piece, literal, var, quoted, Item, argument, redirection, Command, command, segments_of,
  all_segments, arguments_of, redirected, meaning,
}

-- The redirections of the input, and those of the output, the last of a command first.
unfoldable pub inputs_of : List Item → List Redirect
inputs_of [] = []
inputs_of (redirection input file ∷ is) =
    inputs_of is ++ (record { type = input; file = file } ∷ [])
inputs_of (redirection here_document file ∷ is) =
    inputs_of is ++ (record { type = here_document; file = file } ∷ [])
inputs_of (_ ∷ is) = inputs_of is

unfoldable pub outputs_of : List Item → List Redirect
outputs_of [] = []
outputs_of (redirection output file ∷ is) =
    outputs_of is ++ (record { type = output; file = file } ∷ [])
outputs_of (redirection append_output file ∷ is) =
    outputs_of is ++ (record { type = append_output; file = file } ∷ [])
outputs_of (_ ∷ is) = outputs_of is

-- Redirections that are read in front of others end up behind them.
pushed :
    (cmd : Cmd) (r : Redirect) (ins outs : List Redirect)
    → ◌≡◌ {A = Cmd}
        (record cmd { in_redir = ins ++ (r ∷ cmd.in_redir); out_redir = outs })
        (record cmd { in_redir = (ins ++ (r ∷ [])) ++ cmd.in_redir; out_redir = outs })
pushed cmd r ins outs =
    ap (λ all. record cmd { in_redir = all; out_redir = outs })
      (sym (append_assoc ins (r ∷ []) cmd.in_redir))

pushed_out :
    (cmd : Cmd) (r : Redirect) (ins outs : List Redirect)
    → ◌≡◌ {A = Cmd}
        (record cmd { in_redir = ins; out_redir = outs ++ (r ∷ cmd.out_redir) })
        (record cmd { in_redir = ins; out_redir = (outs ++ (r ∷ [])) ++ cmd.out_redir })
pushed_out cmd r ins outs =
    ap (λ all. record cmd { in_redir = ins; out_redir = all })
      (sym (append_assoc outs (r ∷ []) cmd.out_redir))

redirected_lem :
    (cmd : Cmd) (is : List Item)
    → redirected cmd is ≡ record cmd {
      in_redir = inputs_of is ++ cmd.in_redir;
      out_redir = outputs_of is ++ cmd.out_redir;
    }
unfolding redirected handle_redir inputs_of outputs_of
redirected_lem cmd [] = refl
redirected_lem cmd (argument p ps ∷ is) = redirected_lem cmd is
redirected_lem cmd (redirection input file ∷ is) =
    redirected_lem (record cmd { in_redir = record { type = input; file = file } ∷ cmd.in_redir })
      is
    ∙ pushed cmd (record { type = input; file = file }) (inputs_of is)
        (outputs_of is ++ cmd.out_redir)
redirected_lem cmd (redirection here_document file ∷ is) =
    redirected_lem
      (record cmd { in_redir = record { type = here_document; file = file } ∷ cmd.in_redir }) is
    ∙ pushed cmd (record { type = here_document; file = file }) (inputs_of is)
        (outputs_of is ++ cmd.out_redir)
redirected_lem cmd (redirection output file ∷ is) =
    redirected_lem
      (record cmd { out_redir = record { type = output; file = file } ∷ cmd.out_redir }) is
    ∙ pushed_out cmd (record { type = output; file = file }) (inputs_of is ++ cmd.in_redir)
        (outputs_of is)
redirected_lem cmd (redirection append_output file ∷ is) =
    redirected_lem
      (record cmd { out_redir = record { type = append_output; file = file } ∷ cmd.out_redir }) is
    ∙ pushed_out cmd (record { type = append_output; file = file }) (inputs_of is ++ cmd.in_redir)
        (outputs_of is)

module _ (envp : List Bytes) (status : ℤ) where
  -- The text of a token between double quotes.
  unfoldable pub inner_value : TokenType → Bytes → Bytes
  unfolding expand_variable
  inner_value variable value = expand_variable envp status value
  inner_value _ value = value

  unfoldable pub quoted_value : List Token → Bytes
  unfolding inner_value
  quoted_value [] = []
  quoted_value (t ∷ ts) = inner_value t.type t.value ++ quoted_value ts

  -- The text that a piece stands for.
  unfoldable pub piece_value : Piece → Bytes
  unfolding expand_variable quoted_value
  piece_value (literal w) = w
  piece_value (var v) = expand_variable envp status v
  piece_value (quoted ts) = quoted_value ts

  unfoldable pub argument_value : List Piece → Bytes
  unfolding piece_value
  argument_value [] = []
  argument_value (p ∷ ps) = piece_value p ++ argument_value ps

  unfoldable pub words_of : List Item → List Bytes
  unfolding argument_value
  words_of [] = []
  words_of (argument p ps ∷ is) = argument_value (p ∷ ps) ∷ words_of is
  words_of (redirection type file ∷ is) = words_of is

  -- A command of a line with its words as its argv, and with its redirections.
  unfoldable pub expanded : Command → Cmd
  unfolding words_of inputs_of outputs_of
  expanded (command i is) = record zero_cmd {
    in_redir = inputs_of (i ∷ is);
    out_redir = outputs_of (i ∷ is);
    argv = some (words_of (i ∷ is));
  }

  expand-append :
      (xs ys : Argument)
      → expand_argument envp status (xs ++ ys)
        ≡ expand_argument envp status xs ++ expand_argument envp status ys
  unfolding expand_argument
  expand-append [] ys = refl
  expand-append (seg ∷ segs) ys =
      ap (◌++◌ (expand_segment envp status seg.type seg.value)) (expand-append segs ys)
      ∙ sym (append_assoc (expand_segment envp status seg.type seg.value) _ _)

  expand-inner :
      (t : Token) (segs : Argument)
      → expand_argument envp status (dquoted_segment t ∷ segs)
        ≡ inner_value t.type t.value ++ expand_argument envp status segs
  unfolding expand_argument dquoted_segment expand_segment inner_value
  expand-inner t segs = ground arith

  expand-quoted :
      (ts : List Token) → expand_argument envp status (map dquoted_segment ts) ≡ quoted_value ts
  unfolding quoted_value
  expand-quoted [] = unfold expand_argument in refl
  expand-quoted (t ∷ ts) =
      expand-inner t (map dquoted_segment ts)
      ∙ ap (◌++◌ (inner_value t.type t.value)) (expand-quoted ts)

  expand-if_empty :
      (segs : Argument)
      → expand_argument envp status (if_empty segs) ≡ expand_argument envp status segs
  unfolding expand_argument expand_segment if_empty
  expand-if_empty [] = refl
  expand-if_empty (seg ∷ segs) = refl

  expand-piece : (p : Piece) → expand_argument envp status (segments_of p) ≡ piece_value p
  expand-piece (literal w) =
      unfold expand_argument expand_segment segments_of piece_value in append-nil w
  expand-piece (var v) =
      unfold expand_argument expand_segment segments_of piece_value in
      append-nil (expand_variable envp status v)
  expand-piece (quoted ts) =
      unfold segments_of piece_value in
      (expand-if_empty (map dquoted_segment ts) ∙ expand-quoted ts)

  expand-pieces :
      (ps : List Piece) → expand_argument envp status (all_segments ps) ≡ argument_value ps
  unfolding all_segments argument_value
  expand-pieces [] = unfold expand_argument in refl
  expand-pieces (p ∷ ps) =
      expand-append (segments_of p) (all_segments ps)
      ∙ ap (λ s. s ++ expand_argument envp status (all_segments ps)) (expand-piece p)
      ∙ ap (◌++◌ (piece_value p)) (expand-pieces ps)

  expand-items :
      (is : List Item) → map (expand_argument envp status) (arguments_of is) ≡ words_of is
  unfolding arguments_of words_of
  expand-items [] = refl
  expand-items (argument p ps ∷ is) = ap₂ ◌∷◌ (expand-pieces (p ∷ ps)) (expand-items is)
  expand-items (redirection type file ∷ is) = expand-items is

  expand-meaning : (c : Command) → expand_command envp status (meaning c) ≡ expanded c
  unfolding expand_command meaning expanded
  expand-meaning (command i is) =
      ap (λ words. record (redirected zero_cmd (i ∷ is)) { args = []; argv = some words })
        (expand-items (i ∷ is))
      ∙ ap (λ (cmd : Cmd). record cmd { args = []; argv = some (words_of (i ∷ is)) })
          (redirected_lem zero_cmd (i ∷ is))
      ∙ ap₂
          (λ ins outs. record zero_cmd {
            in_redir = ins;
            out_redir = outs;
            argv = some (words_of (i ∷ is));
          })
          (append-nil (inputs_of (i ∷ is))) (append-nil (outputs_of (i ∷ is)))

  pub expand-line :
      (cs : List Command) → map (expand_command envp status) (map meaning cs) ≡ map expanded cs
  expand-line [] = refl
  expand-line (c ∷ cs) = ap₂ ◌∷◌ (expand-meaning c) (expand-line cs)
