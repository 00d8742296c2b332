-- ===== src/Shell/Executor.antt =====
-- project/minishell/src/backend/executor.c: the chain of commands, its children and its status.
-- What the results of fork, waitpid, access and execve are comes from outside.
pub mod Wiring
pub mod Opening
pub mod Children
pub mod Status
use barcelona.Base.{
  ℕ, zero, suc, ◌-◌, Bool, true, false, ◌&&◌, ◌||◌, Option, none, some, List, [], ◌∷◌, ◌++◌, ◌==◌,
  if◌then◌else◌, length, take,
}
use barcelona.Base.Text.{Bytes, codes}
use barcelona.Base.Int.{ℤ, pos, negsuc}
use barcelona.Shell.{Cmd}
use barcelona.Shell.Expander.{getenv_from_envp}
use barcelona.Shell.Search.{search_path}
use barcelona.Shell.Builtins.{Libc, Outcome, is_builtin_name, exec_builtin}
use barcelona.Shell.Descriptors.{
  Table, System, alloc_pipes, get_in_fd, get_out_fd, close_all_fds_except, close_unused_pipes,
  close_pipes, setup_stdio,
}

-- What a child becomes: a builtin, a child that ends with a code, or another program.
pub data Becomes : Type 0 where
  runs_builtin : Outcome → Becomes
  ends_with : ℕ → Becomes
  executes : Bytes → List Bytes → Becomes

unfoldable pub names_path : Bytes → Bool
names_path [] = false
names_path (c ∷ s) = c == b'/' || c == b'.'

-- `execve_s` up to the call of execve
unfoldable pub execve_s : Option Bytes → List Bytes → Becomes
execve_s none argv = ends_with 127
execve_s (some path) argv = executes path argv

-- The causes of an execve that fails, as `execve_s` tells them apart.
pub data Failure : Type 0 where
  is_directory permission_denied no_entry another : Failure

unfoldable pub failure_code : Failure → ℕ
failure_code is_directory = 126
failure_code permission_denied = 126
failure_code no_entry = 127
failure_code another = 1

-- A child that is forked: its command and number, the descriptors for its input and output, and
-- the table that it gets from its parent.
pub record Child : Type 0 where
  pub cmd : Cmd
  pub index : ℕ
  pub in_fd : ℕ
  pub out_fd : ℕ
  pub table : Table

-- What `exec_cmd_in_child` does with the descriptors.
unfoldable pub child_table : System → List (ℕ × ℕ) → Child → Table
unfolding close_unused_pipes close_all_fds_except setup_stdio
child_table system pipes child = setup_stdio child.in_fd child.out_fd (
    close_all_fds_except system child.in_fd child.out_fd
      (close_unused_pipes pipes 0 child.index child.table))

-- What a child runs that is no builtin.
unfoldable pub child_program : (Bytes → Bool) → List Bytes → List Bytes → Becomes
unfolding names_path search_path execve_s
child_program executable envp [] = ends_with 0
child_program executable envp (name ∷ args) =
    execve_s (if names_path name then some name else search_path executable name envp) (name ∷ args)

-- The rest of `exec_cmd_in_child`. An argv that is NULL is no command.
unfoldable pub exec_cmd_in_child : Libc → (Bytes → Bool) → List Bytes → Cmd → Becomes
unfolding child_program
exec_cmd_in_child libc executable envp cmd =
    let argv : List Bytes = elim (cmd.argv) [ none ↦ [] | some argv ↦ argv ] in
    if cmd.is_builtin
    then runs_builtin (exec_builtin libc envp argv)
    else child_program executable envp argv

-- `is_single_command`
unfoldable pub is_single_command : List Cmd → Bool
is_single_command (cmd ∷ []) = elim (cmd.in_redir) [
  | [] ↦ elim (cmd.out_redir) [ [] ↦ true | _ ∷ _ ↦ false ]
  | _ ∷ _ ↦ false
]
is_single_command _ = false

-- The result of waitpid: an error, an exit with a status byte, or another end.
pub data Waited : Type 0 where
  wait_failed abnormal : Waited
  exited_with : ℕ → Waited

-- `wait_and_get_status`
unfoldable pub wait_and_get_status : Waited → ℤ
wait_and_get_status wait_failed = negsuc 0
wait_and_get_status abnormal = negsuc 0
wait_and_get_status (exited_with code) = pos code

unfoldable pub is_minus_one : ℤ → Bool
is_minus_one (negsuc zero) = true
is_minus_one _ = false

-- The loop that waits for all children: `exit_code = … == -1 ? -1 : exit_code`.
unfoldable pub wait_all : ℤ → List Waited → ℤ
unfolding wait_and_get_status is_minus_one
wait_all exit_code [] = exit_code
wait_all exit_code (w ∷ ws) =
    wait_all (if is_minus_one (wait_and_get_status w) then negsuc 0 else exit_code) ws

-- The end of the loop over the commands: children, a builtin of the shell itself, the exit of the
-- shell by perror_exit, or the use of an argv[0] that is NULL.
pub data Chain : Type 0 where
  forked : List Child → Table → Chain
  built : Outcome → Table → Chain
  shell_exits crashes : Chain

unfoldable pub with_child : Child → Chain → Chain
with_child child (forked children table) = forked (child ∷ children) table
with_child child chain = chain

-- `pipes[k][0]` and `pipes[k][1]`; the loops stay in range.
unfoldable pub nth_pipe : List (ℕ × ℕ) → ℕ → ℕ × ℕ
nth_pipe [] k = (0, 0)
nth_pipe (p ∷ pipes) zero = p
nth_pipe (p ∷ pipes) (suc k) = nth_pipe pipes k

-- `i > 0 ? pipes[i - 1][0] : STDIN_FILENO`
unfoldable pub input_of : List (ℕ × ℕ) → ℕ → ℕ
unfolding nth_pipe
input_of pipes zero = 0
input_of pipes (suc i) = (nth_pipe pipes i).0

-- `i < n_cmds - 1 ? pipes[i][1] : STDOUT_FILENO`, where `last` says that there is no further command
unfoldable pub output_of : List (ℕ × ℕ) → ℕ → List Cmd → ℕ
unfolding nth_pipe
output_of pipes i [] = 1
output_of pipes i (_ ∷ _) = (nth_pipe pipes i).1

-- `cmd->argv ? cmd->argv[0] : NULL`
unfoldable pub first_word : Option (List Bytes) → Option Bytes
first_word none = none
first_word (some []) = none
first_word (some (name ∷ args)) = some name

module _ (system : System) (libc : Libc) (envp : List Bytes) where
  -- The loop of `execute_cmd_chain` from the command i on, where `single` is the answer of
  -- is_single_command.
  unfoldable pub start_commands : Bool → List (ℕ × ℕ) → ℕ → List Cmd → Table → Chain
  unfolding get_in_fd get_out_fd input_of output_of first_word is_builtin_name with_child
  start_commands single pipes i [] table = forked [] table
  start_commands single pipes i (cmd ∷ cmds) table =
      elim (get_in_fd system cmd.in_redir (input_of pipes i) table) [
        | none ↦ shell_exits
        | some (in_fd, table1) ↦
            elim (get_out_fd system cmd.out_redir (output_of pipes i cmds) table1) [
              | none ↦ shell_exits
              | some (out_fd, table2) ↦ elim (first_word cmd.argv) [
                | none ↦ crashes
                | some name ↦ elim (is_builtin_name name && single) [
                  | true ↦
                      built
                        (exec_builtin libc envp (elim (cmd.argv) [ none ↦ [] | some argv ↦ argv ]))
                        table2
                  | false ↦
                      with_child
                        (record {
                          cmd = record cmd { is_builtin = is_builtin_name name };
                          index = i;
                          in_fd = in_fd;
                          out_fd = out_fd;
                          table = table2;
                        })
                        (start_commands single pipes (suc i) cmds table2)
                ]
              ]
            ]
      ]

  -- `execute_cmd_chain`: the pipes, and the loop over the commands.
  unfoldable pub start_chain : List Cmd → Table → Option (List (ℕ × ℕ) × Chain)
  unfolding alloc_pipes start_commands is_single_command
  start_chain cmds table = elim (alloc_pipes system 0 (length cmds - 1) table) [
    | none ↦ none
    | some (pipes, table') ↦
        some (pipes, start_commands (is_single_command cmds) pipes 0 cmds table')
  ]

-- The end of `execute_cmd_chain`, with the results of waitpid: the status and the table of the
-- shell. The pipes are closed before the wait and again by dealloc_pipes.
unfoldable pub finish_chain : List (ℕ × ℕ) → Table → List Waited → ℤ × Table
unfolding wait_all close_pipes
finish_chain pipes table waited =
    (wait_all (pos 0) waited, close_pipes pipes (close_pipes pipes table))
