-- ===== src/Shell/Expander.antt =====
-- project/minishell/src/frontend/expander.c: the segments of an argument become one text.
pub mod Environment
use barcelona.Base.{
  suc, Option, none, some, List, [], ◌∷◌, ◌++◌, map, ◌==◌, if◌then◌else◌, length, drop,
}
use barcelona.Base.Text.{Bytes, equal, starts_with}
use barcelona.Base.Number.{to_string}
use barcelona.Base.Int.{ℤ, pos, negsuc}
use barcelona.Shell.{
  SegmentType, seg_literal, seg_variable, seg_squote_literal, seg_dquote_literal, seg_dquote_var,
  Argument, Cmd,
}

-- `snprintf(exit_str, sizeof(exit_str), "%d", n)`
unfoldable pub print_int : ℤ → Bytes
unfolding to_string
print_int (pos n) = to_string n
print_int (negsuc n) = b'-' ∷ to_string (suc n)

-- The value in an entry that starts with the key and an equals sign.
unfoldable pub entry_value : Bytes → Option Bytes
entry_value [] = none
entry_value (c ∷ s) = if c == b'=' then some s else none

unfoldable pub entry_for : Bytes → Bytes → Option Bytes
unfolding starts_with entry_value
entry_for key entry = if starts_with entry key then entry_value (drop (length key) entry) else none

-- `getenv_from_envp` of executor.c, and the loop of `get_env_value`
unfoldable pub getenv_from_envp : Bytes → List Bytes → Option Bytes
unfolding entry_for
getenv_from_envp key [] = none
getenv_from_envp key (entry ∷ envp) = elim (entry_for key entry) [
  | none ↦ getenv_from_envp key envp
  | some value ↦ some value
]

-- `get_env_value`
unfoldable pub get_env_value : Bytes → List Bytes → Bytes
unfolding getenv_from_envp
get_env_value key envp = elim (getenv_from_envp key envp) [ none ↦ [] | some value ↦ value ]

module _ (envp : List Bytes) (last_exit : ℤ) where
  unfoldable pub expand_variable : Bytes → Bytes
  unfolding print_int get_env_value equal
  expand_variable value =
      if equal value (b'?' ∷ []) then print_int last_exit else get_env_value value envp

  unfoldable pub expand_segment : SegmentType → Bytes → Bytes
  unfolding expand_variable
  expand_segment seg_literal value = value
  expand_segment seg_squote_literal value = value
  expand_segment seg_dquote_literal value = value
  expand_segment seg_variable value = expand_variable value
  expand_segment seg_dquote_var value = expand_variable value

  -- `expand_argument`
  unfoldable pub expand_argument : Argument → Bytes
  unfolding expand_segment
  expand_argument [] = []
  expand_argument (seg ∷ segs) = expand_segment seg.type seg.value ++ expand_argument segs

  -- The body of the loop of `expand_commands`.
  unfoldable pub expand_command : Cmd → Cmd
  unfolding expand_argument
  expand_command cmd = record cmd { args = []; argv = some (map expand_argument cmd.args) }

  -- `expand_commands`
  unfoldable pub expand_commands : List Cmd → List Cmd
  unfolding expand_command
  expand_commands cmds = map expand_command cmds
