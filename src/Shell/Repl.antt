-- ===== src/Shell/Repl.antt =====
-- project/minishell/src/repl.c: minishell_loop over the lines that it reads. The environment of the
-- process is a part of the world, and the chain of commands changes the world. Prompt, history and
-- error output are left out.
pub mod Total
pub mod Words
pub mod Lines
use barcelona.Base.{ℕ, Bool, List, [], ◌∷◌, if◌then◌else◌}
use barcelona.Base.Text.{Bytes, codes, equal}
use barcelona.Base.Int.{ℤ, pos}
use barcelona.Shell.{Cmd}
use barcelona.Shell.Tokenizer
use barcelona.Shell.Tokenizer.{Tokens, tokenize}
use barcelona.Shell.Parser
use barcelona.Shell.Parser.{Parsed, parsed, parse}
use barcelona.Shell.Expander.{expand_commands}

-- What a line is for the shell: commands with their arguments, an error message, the use of NULL
-- in the parser, or the end of the fuel of the model.
pub data Front : Type 0 where
  commands : List Cmd → Front
  refused crashed stuck : Front

unfoldable pub of_commands : List Bytes → ℤ → List Cmd → Front
unfolding expand_commands
of_commands envp status [] = refused
of_commands envp status (cmd ∷ cmds) = commands (expand_commands envp status (cmd ∷ cmds))

unfoldable pub of_parsed : List Bytes → ℤ → Parsed (List Cmd) → Front
unfolding of_commands
of_parsed envp status (parsed cmds) = of_commands envp status cmds
of_parsed envp status Parser.syntax_error = refused
of_parsed envp status Parser.crash = crashed
of_parsed envp status Parser.out_of_fuel = stuck

unfoldable pub of_tokens : List Bytes → ℤ → Tokens → Front
unfolding of_parsed parse
of_tokens envp status (Tokenizer.tokens ts) = of_parsed envp status (parse ts)
of_tokens envp status Tokenizer.failed = refused
of_tokens envp status Tokenizer.out_of_fuel = stuck

-- The tokenizer, the parser and the expander on one line.
unfoldable pub front_end : List Bytes → ℤ → Bytes → Front
unfolding of_tokens tokenize
front_end envp status line = of_tokens envp status (tokenize line)

-- The end of the loop: the status that is returned and the world, or a crash.
pub data Session (World : Type 0) : Type 0 where
  ended : ℤ → World → Session World
  broken : Session World

module _ {World : Type 0} (environ : World → List Bytes)
    (execute : World → List Cmd → World × ℤ) where
  -- The lines of the input, up to its end; the status is that of the last chain.
  unfoldable pub minishell_loop : List Bytes → World → ℤ → Session World
  unfolding front_end equal
  minishell_loop [] world status = ended status world
  minishell_loop (line ∷ lines) world status =
      let next = minishell_loop lines world status in
      let run = λ (cmds : List Cmd).
        minishell_loop lines ((execute world cmds).0) ((execute world cmds).1) in
      let result : Session World = elim (front_end (environ world) status line) [
        | commands cmds ↦ run cmds
        | refused ↦ next
        | crashed ↦ broken
        | stuck ↦ broken
      ] in
      if equal line []
      then next
      else if equal line (codes "exit")
      then ended status world
      else result
