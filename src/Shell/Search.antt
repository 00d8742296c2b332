-- ===== src/Shell/Search.antt =====
-- project/minishell/src/backend/executor.c: the search for a program in the directories of PATH.
use barcelona.Base.{
  Bool, false, ◌||◌, Option, none, some, List, [], ◌∷◌, ◌++◌, ◌==◌, if◌then◌else◌, take,
}
use barcelona.Base.Text.{Bytes, codes}
use barcelona.Shell.Expander.{getenv_from_envp}

-- `strtok_r(…, ":", …)`, behind the part of a directory that is read: empty ones are left out.
unfoldable pub dir_part : Bytes → List Bytes
dir_part [] = []
dir_part (c ∷ s) = (c ∷ s) ∷ []

unfoldable pub directories : Bytes → Bytes → List Bytes
unfolding dir_part
directories part [] = dir_part part
directories part (c ∷ s) =
    let next = dir_part part ++ directories [] s in
    let longer = directories (part ++ (c ∷ [])) s in if c == b':' then next else longer

unfoldable pub holds_slash : Bytes → Bool
holds_slash [] = false
holds_slash (c ∷ s) = c == b'/' || holds_slash s

-- PATH_MAX is 4096; snprintf cuts off what is longer.
unfoldable pub path_in : Bytes → Bytes → Bytes
path_in dir cmd = take 4095 (dir ++ (b'/' ∷ cmd))

unfoldable pub first_executable : (Bytes → Bool) → List Bytes → Bytes → Option Bytes
unfolding path_in
first_executable executable [] cmd = none
first_executable executable (dir ∷ dirs) cmd =
    let rest = first_executable executable dirs cmd in
    if executable (path_in dir cmd) then some (path_in dir cmd) else rest

unfoldable pub path_or_default : Option Bytes → Bytes
path_or_default none = codes "/bin:/usr/bin"
path_or_default (some path) = path

-- `search_path`, where `executable` is `access(path, X_OK) == 0`
unfoldable pub search_path : (Bytes → Bool) → Bytes → List Bytes → Option Bytes
unfolding holds_slash path_or_default directories first_executable
search_path executable cmd envp =
    if holds_slash cmd
    then none
    else first_executable executable
        (directories [] (path_or_default (getenv_from_envp (codes "PATH") envp))) cmd
