-- ===== src/Shell/Repl/Total.antt =====
-- Every line becomes something: the loops of the front end have their fuel.
use barcelona.Base.{◌≢◌, refl, inl, inr, List, [], ◌∷◌}
use barcelona.Base.Text.{Bytes}
use barcelona.Base.Int.{ℤ}
use barcelona.Shell.{Cmd}
use barcelona.Shell.Tokenizer
use barcelona.Shell.Tokenizer.{Tokens, tokenize}
use barcelona.Shell.Tokenizer.Total.{IsTokenized, tokenize-IsTokenized}
use barcelona.Shell.Parser
use barcelona.Shell.Parser.{
  Parsed, parsed, parse, new_segment, dquoted_segment, if_empty, handle_redir,
}
use barcelona.Shell.Parser.Total.{parse-ne-out_of_fuel}
use barcelona.Shell.Repl.{stuck, of_commands, of_parsed, of_tokens, front_end}

module _ (envp : List Bytes) (status : ℤ) where
  of_parsed-ne-stuck :
      (r : Parsed (List Cmd)) → r ≢ Parser.out_of_fuel → of_parsed envp status r ≢ stuck
  unfolding of_parsed of_commands
  of_parsed-ne-stuck (parsed []) h = λ e. cc
  of_parsed-ne-stuck (parsed (cmd ∷ cmds)) h = λ e. cc
  of_parsed-ne-stuck Parser.syntax_error h = λ e. cc
  of_parsed-ne-stuck Parser.crash h = λ e. cc
  of_parsed-ne-stuck Parser.out_of_fuel h = absurd (h refl)

  of_tokens-ne-stuck : (r : Tokens) → IsTokenized r → of_tokens envp status r ≢ stuck
  unfolding of_tokens
  of_tokens-ne-stuck (Tokenizer.tokens ts) h =
      of_parsed-ne-stuck (parse ts) (parse-ne-out_of_fuel ts)
  of_tokens-ne-stuck Tokenizer.failed h = λ e. cc
  of_tokens-ne-stuck Tokenizer.out_of_fuel (inl e) = absurd (let no : ⊥ = cc in no)
  of_tokens-ne-stuck Tokenizer.out_of_fuel (inr (ts, e, all)) = absurd (let no : ⊥ = cc in no)

  -- The loops of the tokenizer and of the parser end on every line: it becomes commands, or is
  -- refused, or makes the parser use NULL; the fuel of the model is enough.
  pub front_end-ne-stuck : (line : Bytes) → front_end envp status line ≢ stuck
  unfolding front_end
  front_end-ne-stuck line = of_tokens-ne-stuck (tokenize line) (tokenize-IsTokenized line)
