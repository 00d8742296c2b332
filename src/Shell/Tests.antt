-- ===== src/Shell/Tests.antt =====
-- Runs of the shell, and its theorems at concrete lines.
use barcelona.Base.{ℕ, ◌++◌, ◌≡◌, ◌≢◌, refl, Option, some, List, [], ◌∷◌, map, arith}
use barcelona.Base.Text.{is_alpha, Bytes, codes, is_space}
use barcelona.Base.Number.{drop_while}
use barcelona.Base.Int.{pos}
use barcelona.Shell.{word, variable, space, input, output, append_output, Cmd, zero_cmd}
use barcelona.Shell.Tokenizer.{is_name, is_plain, not_quote, take_while}
use barcelona.Shell.Parser
use barcelona.Shell.Parser.{parse, parse_commands, parse_redirect}
use barcelona.Shell.Grammar.{
  Command, command, argument, redirection, literal, var, quoted, print_items, operator, eof_token,
}
use barcelona.Shell.Grammar.{redirected, arguments_of}
use barcelona.Shell.Grammar.Redirections.{spaces, word_token, parse-redirection}
use barcelona.Shell.Source.{spell_line, spell_quoted}
use barcelona.Shell.Repl.{front_end, commands, refused, crashed, stuck}
use barcelona.Shell.Repl.Words.{expanded}
use barcelona.Shell.Repl.Lines.{front_end-spell_line}
use barcelona.Shell.Repl.Total.{front_end-ne-stuck}

abbrev envp : List Bytes
envp = codes "USER=me" ∷ codes "HOME=/home/me" ∷ []

simple : Option (List Bytes) → Cmd
simple argv = record zero_cmd { argv = argv }

runs :
    (front_end envp (pos 2) (codes "echo hi$USER")
      ≡ commands (simple (some (codes "echo" ∷ codes "hime" ∷ [])) ∷ []))
    × (front_end envp (pos 2) (codes "  ") ≡ refused)
    × (front_end envp (pos 2) (codes "a 'b") ≡ refused)
    × (front_end envp (pos 2) (codes "ls >") ≡ crashed)
    × (front_end envp (pos 2) (codes "ls |") ≡ commands (simple (some (codes "ls" ∷ [])) ∷ []))
    × (front_end envp (pos 2) (codes "| ls")
        ≡ commands (simple (some []) ∷ simple (some (codes "ls" ∷ [])) ∷ []))
    × (front_end envp (pos 2) (codes "echo \"a  b\" $?")
        ≡ commands (simple (some (codes "echo" ∷ codes "a b" ∷ codes "2" ∷ [])) ∷ []))
unfolding front_end simple drop_while is_name take_while
runs = (refl, refl, refl, refl, refl, refl, refl)

abbrev greeting : Command
greeting = command (argument (literal (codes "echo")) []) (
    argument (literal (codes "a | b")) (var (codes "HOME") ∷ [])
    ∷ argument
        (quoted (
          record { type = word; value = codes "you:" }
          ∷ record { type = space; value = codes " " }
          ∷ record { type = variable; value = codes "USER" }
          ∷ []))
        []
    ∷ redirection append_output (codes "my file")
    ∷ [])

abbrev counting : Command
counting = command (redirection input (codes "in")) (argument (literal (codes "wc")) [] ∷ [])

front_end-spell_line_example :
    front_end envp (pos 0) (spell_line greeting (counting ∷ []))
    ≡ commands (map (expanded envp (pos 0)) (greeting ∷ counting ∷ []))
front_end-spell_line_example =
    front_end-spell_line envp (pos 0) greeting (counting ∷ [])
      (unfold not_quote is_alpha is_name is_plain is_space spell_quoted in ground arith)

front_end-ne-stuck_example : front_end envp (pos 0) (codes "ls 'a' | wc > x") ≢ stuck
front_end-ne-stuck_example = front_end-ne-stuck envp (pos 0) (codes "ls 'a' | wc > x")

parse-redirection_example :
    (parse
        (print_items (argument (literal (codes "ls")) [] ∷ []) (operator output ∷ eof_token ∷ []))
      ≡ Parser.crash)
    × ((k : ℕ) (file : Bytes)
        → parse (
            print_items
              (argument (literal (codes "ls")) [] ∷ [])
              (operator output ∷ spaces k (word_token file ∷ eof_token ∷ [])))
          ≡ Parser.parsed (
              record (redirected zero_cmd
                ((argument (literal (codes "ls")) [] ∷ []) ++ (redirection output file ∷ []))) {
                  args = arguments_of (argument (literal (codes "ls")) [] ∷ []);
                }
              ∷ []))
parse-redirection_example =
    parse-redirection (argument (literal (codes "ls")) [] ∷ []) output (eof_token ∷ [])
      ((tt, tt), tt) tt
