-- ===== src/Shell/Parser/Total.antt =====
-- The parser ends: its fuel is enough for every list of tokens.
use barcelona.Base.{
  ℕ, zero, suc, ◌≤◌, ◌≡◌, ◌≢◌, refl, Bool, true, false, Option, none, some, List, [], ◌∷◌, arith,
  length,
}
use mathlib.Core.Path.{subst}
use barcelona.Shell.{Token, Argument, Redirect, RedirectType, Cmd, zero_cmd}
use barcelona.Shell.Parser.{
  Parsed, parsed, syntax_error, crash, out_of_fuel, ◌>>=◌, parse_one_argument, skip_spaces,
  file_name, parse_redirect, handle_redir, Place, stops, skips, starts, redirects, place,
  parse_arguments, Behind, at_end, more_from, unexpected, behind_command, at_eof, parse_commands,
  parse,
}
use barcelona.Shell.Parser.Pieces.{Leaves, LeavesSome, argument_starts}

-- A result that leaves no more than these tokens, with a command beside them.
abbrev Ends : ℕ → Parsed (List Argument × Cmd × List Token) → Type 0
Ends n (parsed (args, cmd, rest)) = length rest ≤ n
Ends n syntax_error = Unit {0}
Ends n crash = Unit {0}
Ends n out_of_fuel = ⊥

Ends-le : (m n : ℕ) (r : Parsed (List Argument × Cmd × List Token)) → m ≤ n → Ends m r → Ends n r
Ends-le m n (parsed (args, cmd, rest)) l h = omega arith
Ends-le m n syntax_error l h = tt
Ends-le m n crash l h = tt
Ends-le m n out_of_fuel l h = h

more_arguments :
    (arg : Argument) (n : ℕ) (r : Parsed (List Argument × Cmd × List Token))
    → Ends n r
    → Ends n (r >>= λ (args, cmd, rest). parsed (arg ∷ args, cmd, rest))
more_arguments arg n (parsed (args, cmd, rest)) h = h
more_arguments arg n syntax_error h = tt
more_arguments arg n crash h = tt
more_arguments arg n out_of_fuel h = h

Ends-bind :
    (m n : ℕ) (r : Parsed (Argument × List Token))
    (f : Argument × List Token → Parsed (List Argument × Cmd × List Token))
    → Leaves m r
    → ((arg : Argument) (rest : List Token) → length rest ≤ m → Ends n (f (arg, rest)))
    → Ends n (r >>= f)
Ends-bind m n (parsed (arg, rest)) f h k = k arg rest h
Ends-bind m n syntax_error f h k = tt
Ends-bind m n crash f h k = tt
Ends-bind m n out_of_fuel f h k = h

pub length-skip_spaces : (ts : List Token) → length (skip_spaces ts) ≤ length ts
unfolding skip_spaces
length-skip_spaces [] = omega arith
length-skip_spaces (t ∷ ts) = ground (arith, length-skip_spaces ts)

file_name-Leaves :
    (type : RedirectType) (ts : List Token) → LeavesSome (length ts) (file_name type ts)
unfolding file_name
file_name-Leaves type [] = tt
file_name-Leaves type (t ∷ ts) = ground arith

redirect-rest :
    (type : RedirectType) (ts rest : List Token) (redir : Redirect)
    → parse_redirect type ts ≡ some (redir, rest)
    → length rest ≤ length ts
unfolding parse_redirect
redirect-rest type ts rest redir e =
    let h : length rest ≤ length (skip_spaces ts) =
      subst (LeavesSome (length (skip_spaces ts))) e (file_name-Leaves type (skip_spaces ts)) in
    omega (arith, length-skip_spaces ts)

-- One round of parse_arguments.
module _ (fuel : ℕ) (t : Token) (ts : List Token) (cmd : Cmd)
    (later : (rest : List Token) (cmd' : Cmd)
      → length rest ≤ length ts
      → Ends (length rest) (parse_arguments fuel rest cmd')) where
  redirect_round :
      (type : RedirectType) (o : Option (Redirect × List Token))
      → place t.type ≡ redirects type
      → parse_redirect type ts ≡ o
      → Ends (suc (length ts)) (parse_arguments (suc fuel) (t ∷ ts) cmd)
  unfolding parse_arguments
  redirect_round type none e r = rw (e, parse_arguments) (rw r tt)
  redirect_round type (some (redir, rest)) e r =
      rw (e, parse_arguments)
        (rw r (
          Ends-le (length rest) (suc (length ts))
            (parse_arguments fuel rest (handle_redir cmd redir))
            (omega (arith, redirect-rest type ts rest redir r))
            (later rest (handle_redir cmd redir) (redirect-rest type ts rest redir r))))

  arguments_round :
      (k : Place)
      → place t.type ≡ k
      → Ends (suc (length ts)) (parse_arguments (suc fuel) (t ∷ ts) cmd)
  unfolding parse_arguments
  arguments_round stops e = rw (e, parse_arguments) (omega arith)
  arguments_round skips e =
      rw (e, parse_arguments)
        (Ends-le (length ts) (suc (length ts)) (parse_arguments fuel ts cmd) (omega arith)
          (later ts cmd (omega arith)))
  arguments_round (redirects type) e = redirect_round type (parse_redirect type ts) e refl
  arguments_round starts e =
      rw (e, parse_arguments)
        (Ends-bind (length ts) (suc (length ts)) (parse_one_argument (suc (length ts)) (t ∷ ts)) _
          (argument_starts t ts e)
          λ arg behind k. more_arguments arg (suc (length ts)) (parse_arguments fuel behind cmd) (
            Ends-le (length behind) (suc (length ts)) (parse_arguments fuel behind cmd)
              (omega arith) (later behind cmd k)))

arguments-Ends :
    (fuel : ℕ) (ts : List Token) (cmd : Cmd)
    → length ts ≤ fuel
    → Ends (length ts) (parse_arguments fuel ts cmd)
arguments-Ends fuel [] cmd l = unfold parse_arguments in omega arith
arguments-Ends zero (t ∷ ts) cmd l = elim l [ ]
arguments-Ends (suc fuel) (t ∷ ts) cmd l =
    arguments_round fuel t ts cmd (λ rest cmd' h. arguments-Ends fuel rest cmd' (omega arith))
      (place t.type) refl

bind-ne-out_of_fuel :
    {A B : Type 0} (r : Parsed A) (f : A → Parsed B)
    → r ≢ out_of_fuel
    → ((a : A) → f a ≢ out_of_fuel)
    → (r >>= f) ≢ out_of_fuel
bind-ne-out_of_fuel (parsed a) f h k = k a
bind-ne-out_of_fuel syntax_error f h k = λ e. cc
bind-ne-out_of_fuel crash f h k = λ e. cc
bind-ne-out_of_fuel out_of_fuel f h k = absurd (h refl)

behind_command-more :
    (ts next : List Token) → behind_command ts ≡ more_from next → suc (length next) ≤ length ts
unfolding behind_command
behind_command-more [] next e = cc
behind_command-more (t ∷ ts) next e = ground (arith, length-skip_spaces ts)

-- One round of the loop of parse.
module _ (fuel : ℕ) (ts : List Token)
    (later : (next : List Token)
      → suc (length next) ≤ length ts
      → parse_commands fuel next ≢ out_of_fuel) where
  behind_round :
      (args : List Argument) (cmd : Cmd) (rest : List Token) (b : Behind)
      → length rest ≤ length ts
      → behind_command rest ≡ b
      → (elim b [
        | at_end ↦ parsed (record cmd { args = args } ∷ [])
        | unexpected ↦ syntax_error
        | more_from next ↦
            parse_commands fuel next >>= λ cmds. parsed (record cmd { args = args } ∷ cmds)
      ])
        ≢ out_of_fuel
  behind_round args cmd rest at_end l e = λ h. cc
  behind_round args cmd rest unexpected l e = λ h. cc
  behind_round args cmd rest (more_from next) l e =
      bind-ne-out_of_fuel (parse_commands fuel next) _
        (later next (omega (arith, behind_command-more rest next e))) (λ cmds h. cc)

  command_round :
      (r : Parsed (List Argument × Cmd × List Token))
      → Ends (length ts) r
      → (r >>= λ (args, cmd, rest). elim (behind_command rest) [
        | at_end ↦ parsed (record cmd { args = args } ∷ [])
        | unexpected ↦ syntax_error
        | more_from next ↦
            parse_commands fuel next >>= λ cmds. parsed (record cmd { args = args } ∷ cmds)
      ])
        ≢ out_of_fuel
  command_round (parsed (args, cmd, rest)) l =
      behind_round args cmd rest (behind_command rest) l refl
  command_round syntax_error l = λ h. cc
  command_round crash l = λ h. cc
  command_round out_of_fuel l = absurd l

  commands_round : (b : Bool) → at_eof ts ≡ b → parse_commands (suc fuel) ts ≢ out_of_fuel
  unfolding parse_commands
  commands_round true e = rw (e, parse_commands) (λ h. cc)
  commands_round false e =
      rw (e, parse_commands)
        (command_round (parse_arguments (length ts) ts zero_cmd)
          (arguments-Ends (length ts) ts zero_cmd (omega arith)))

parse_commands-ne-out_of_fuel :
    (fuel : ℕ) (ts : List Token) → suc (length ts) ≤ fuel → parse_commands fuel ts ≢ out_of_fuel
parse_commands-ne-out_of_fuel zero ts l = elim l [ ]
parse_commands-ne-out_of_fuel (suc fuel) ts l =
    commands_round fuel ts (λ next h. parse_commands-ne-out_of_fuel fuel next (omega arith))
      (at_eof ts) refl

pub parse-ne-out_of_fuel : (ts : List Token) → parse ts ≢ out_of_fuel
unfolding parse
parse-ne-out_of_fuel ts =
    parse_commands-ne-out_of_fuel (suc (length ts)) (skip_spaces ts)
      (omega (arith, length-skip_spaces ts))
