-- ===== src/Shell/Builtins.antt =====
-- project/minishell/src/backend/builtins.c. The calls of the C library are an interface; text on
-- the error output is left out.
use barcelona.Base.{Bool, ◌||◌, Option, none, some, List, [], ◌∷◌, ◌++◌, ◌==◌, if◌then◌else◌}
use barcelona.Base.Text.{Bytes, codes, equal}
use barcelona.Base.Int.{ℤ, pos}

-- The answers of the C library: whether a call succeeds, the working directory, the value of atoi.
pub record Libc : Type 0 where
  pub chdir : Bytes → Bool
  pub getcwd : Option Bytes
  pub setenv : Bytes → Bytes → Bool
  pub unsetenv : Bytes → Bool
  pub atoi : Bytes → ℤ

-- A builtin returns, or ends the process, or uses a pointer that is NULL.
pub data Ended : Type 0 where
  returned exited : ℤ → Ended
  crashed : Ended

-- The calls that change the process.
pub data Call : Type 0 where
  chdir_to : Bytes → Call
  set_variable : Bytes → Bytes → Call
  unset_variable : Bytes → Call

pub record Outcome : Type 0 where
  pub ended : Ended
  pub out : Bytes
  pub calls : List Call

-- `is_builtin` of a name that is not NULL
unfoldable pub is_builtin_name : Bytes → Bool
unfolding equal
is_builtin_name name =
    equal name (codes "echo")
    || (equal name (codes "cd")
        || (equal name (codes "pwd")
            || (equal name (codes "export")
                || (equal name (codes "unset")
                    || (equal name (codes "env") || equal name (codes "exit"))))))

-- The loop of `echo_impl` over the arguments.
unfoldable pub echo_words : List Bytes → Bytes
echo_words [] = []
echo_words (w ∷ []) = w
echo_words (w ∷ v ∷ ws) = w ++ (b' ' ∷ echo_words (v ∷ ws))

-- `echo_impl`, on the arguments behind the name
unfoldable pub echo_impl : List Bytes → Bytes
unfolding echo_words equal
echo_impl [] = 10 ∷ []
echo_impl (w ∷ ws) =
    if equal w (codes "-n") then echo_words ws else echo_words (w ∷ ws) ++ (10 ∷ [])

abbrev ends : ℤ → Outcome
ends code = record { ended = returned code; out = []; calls = [] }

abbrev prints : Bytes → Outcome
prints text = record { ended = returned (pos 0); out = text; calls = [] }

-- A call that succeeds is done and 0 is returned, or 1 where it fails.
abbrev does : Call → Bool → Outcome
does call ok =
    if ok then record { ended = returned (pos 0); out = []; calls = call ∷ [] } else ends (pos 1)

-- `env`: each entry on a line
unfoldable pub env_lines : List Bytes → Bytes
env_lines [] = []
env_lines (entry ∷ envp) = entry ++ (10 ∷ env_lines envp)

-- The text before and behind the first equals sign.
unfoldable pub split_assignment : Bytes → Option (Bytes × Bytes)
split_assignment [] = none
split_assignment (c ∷ s) =
    let rest = split_assignment s in
    let longer : Option (Bytes × Bytes) = elim rest [
      | none ↦ none
      | some (name, value) ↦ some (c ∷ name, value)
    ] in
    if c == b'=' then some ([], s) else longer

module _ (libc : Libc) (envp : List Bytes) where
  unfoldable pub cd_impl : List Bytes → Outcome
  cd_impl [] = ends (pos 1)
  cd_impl (dir ∷ _) = does (chdir_to dir) (libc.chdir dir)

  -- The buffer of getcwd has 1024 bytes; a longer path is one that getcwd does not give.
  unfoldable pub pwd_impl : Outcome
  pwd_impl = elim (libc.getcwd) [ none ↦ ends (pos 1) | some cwd ↦ prints (cwd ++ (10 ∷ [])) ]

  unfoldable pub export_impl : List Bytes → Outcome
  unfolding split_assignment
  export_impl [] = ends (pos 1)
  export_impl (arg ∷ _) = elim (split_assignment arg) [
    | none ↦ ends (pos 1)
    | some (name, value) ↦ does (set_variable name value) (libc.setenv name value)
  ]

  unfoldable pub unset_impl : List Bytes → Outcome
  unset_impl [] = ends (pos 1)
  unset_impl (name ∷ _) = does (unset_variable name) (libc.unsetenv name)

  unfoldable pub exit_impl : List Bytes → Outcome
  exit_impl [] = record { ended = exited (pos 0); out = []; calls = [] }
  exit_impl (code ∷ _) = record { ended = exited (libc.atoi code); out = []; calls = [] }

  -- `exec_builtin`. `help` is left out: is_builtin does not know it, so it is never called for it.
  unfoldable pub exec_builtin : List Bytes → Outcome
  unfolding echo_impl cd_impl pwd_impl env_lines export_impl unset_impl exit_impl equal
  exec_builtin [] = record { ended = crashed; out = []; calls = [] }
  exec_builtin (name ∷ args) =
      if equal name (codes "echo")
      then prints (echo_impl args)
      else if equal name (codes "cd")
      then cd_impl args
      else if equal name (codes "pwd")
      then pwd_impl
      else if equal name (codes "env")
      then prints (env_lines envp)
      else if equal name (codes "export")
      then export_impl args
      else if equal name (codes "unset")
      then unset_impl args
      else if equal name (codes "exit")
      then exit_impl args
      else ends (pos 0)
