-- ===== src/Shell/Descriptors.antt =====
-- project/minishell/src/backend/redirect.c: descriptors, pipes and what a child does with them. A
-- process has a table from descriptors to open files.
pub mod Tables
pub mod Closing
use barcelona.Base.{
  ℕ, zero, suc, ◌-◌, ◌≡◌, Bool, not, ◌&&◌, Option, none, some, List, [], ◌∷◌, ◌==◌, if◌then◌else◌,
}
use barcelona.Base.Text.{Bytes}
use barcelona.Shell.{Redirect, output, append_output}

-- How a file is opened.
pub data Mode : Type 0 where
  reads truncates appends : Mode

-- What a descriptor refers to: a file that the shell was started with, an end of its pipes, or a
-- file of a redirection.
pub data File : Type 0 where
  inherited pipe_read pipe_write : ℕ → File
  opened : Bytes → Mode → File

abbrev pub Table : Type 0
Table = ℕ → Option File

unfoldable pub assign : ℕ → Option File → Table → Table
assign fd file table n = if n == fd then file else table n

-- `close(fd)`; of a descriptor that is not open it changes nothing.
unfoldable pub close_fd : ℕ → Table → Table
unfolding assign
close_fd fd table = assign fd none table

-- `dup2(from, to)` of an open descriptor
unfoldable pub dup2 : ℕ → ℕ → Table → Table
unfolding assign
dup2 from to table = assign to (table from) table

-- The system: whether files can be opened and pipes be made, the descriptor that a new file gets,
-- where one is left, and the bound of sysconf.
pub record System : Type 0 where
  pub can_open : Bytes → Mode → Bool
  pub can_pipe : ℕ → Bool
  pub unused : Table → Option ℕ
  pub max_fd : ℕ

-- POSIX: a new descriptor is one that is not open.
pub record IsSystem (system : System) : Type 0 where
  pub unused_free : (table : Table) (fd : ℕ) → system.unused table ≡ some fd → table fd ≡ none

-- `close_all_fds_except`: n descriptors from fd on.
unfoldable pub close_from : ℕ → ℕ → ℕ → ℕ → Table → Table
unfolding close_fd
close_from zero fd keep1 keep2 table = table
close_from (suc n) fd keep1 keep2 table =
    close_from n (suc fd) keep1 keep2
      (if not (fd == keep1) && not (fd == keep2) then close_fd fd table else table)

-- A pipe in front of those that are made behind it.
unfoldable pub add_pipe : ℕ × ℕ → Option (List (ℕ × ℕ) × Table) → Option (List (ℕ × ℕ) × Table)
add_pipe p none = none
add_pipe p (some (pipes, table)) = some (p ∷ pipes, table)

module _ (system : System) where
  open system use {can_open, can_pipe, unused, max_fd}

  -- A file at the descriptor that is unused.
  unfoldable pub place_file : File → Table → Option (ℕ × Table)
  unfolding assign
  place_file file table = elim (unused table) [
    | none ↦ none
    | some fd ↦ some (fd, assign fd (some file) table)
  ]

  -- `pipe(pipes[i])`
  unfoldable pub make_pipe : ℕ → Table → Option ((ℕ × ℕ) × Table)
  unfolding place_file
  make_pipe i table = elim (place_file (pipe_read i) table) [
    | none ↦ none
    | some (r, table1) ↦ elim (place_file (pipe_write i) table1) [
      | none ↦ none
      | some (w, table2) ↦ if can_pipe i then some ((r, w), table2) else none
    ]
  ]

  -- `alloc_pipes`, from the pipe i on; `none` is perror_exit. Each pipe is its two descriptors.
  unfoldable pub alloc_pipes : ℕ → ℕ → Table → Option (List (ℕ × ℕ) × Table)
  unfolding make_pipe add_pipe
  alloc_pipes i zero table = some ([], table)
  alloc_pipes i (suc n) table = elim (make_pipe i table) [
    | none ↦ none
    | some (p, table') ↦ add_pipe p (alloc_pipes (suc i) n table')
  ]

  -- `open`: the descriptor and the table; `none` is perror_exit.
  unfoldable pub open_file : Bytes → Mode → Table → Option (ℕ × Table)
  unfolding place_file
  open_file path mode table =
      if can_open path mode then place_file (opened path mode) table else none

  -- `get_in_fd`: the first redirection of the list is opened.
  unfoldable pub get_in_fd : List Redirect → ℕ → Table → Option (ℕ × Table)
  unfolding open_file
  get_in_fd [] prev_pipe_read table = some (prev_pipe_read, table)
  get_in_fd (redir ∷ _) prev_pipe_read table = open_file redir.file reads table

  -- `get_out_fd`
  unfoldable pub get_out_fd : List Redirect → ℕ → Table → Option (ℕ × Table)
  unfolding open_file
  get_out_fd [] next_pipe_write table = some (next_pipe_write, table)
  get_out_fd (redir ∷ _) next_pipe_write table = elim redir.type [
    | output ↦ open_file redir.file truncates table
    | append_output ↦ open_file redir.file appends table
    | _ ↦ none
  ]

  unfoldable pub close_all_fds_except : ℕ → ℕ → Table → Table
  unfolding close_from
  close_all_fds_except keep1 keep2 table = close_from (max_fd - 3) 3 keep1 keep2 table

-- `close_unused_pipes`, from the pipe j on: all but those of the indices i - 1 and i.
unfoldable pub close_unused_pipes : List (ℕ × ℕ) → ℕ → ℕ → Table → Table
unfolding close_fd
close_unused_pipes [] j i table = table
close_unused_pipes ((r, w) ∷ pipes) j i table =
    close_unused_pipes pipes (suc j) i
      (if not (suc j == i) && not (j == i) then close_fd w (close_fd r table) else table)

-- The loop over all pipes that closes both ends: of the parent behind its forks, and of
-- `dealloc_pipes`.
unfoldable pub close_pipes : List (ℕ × ℕ) → Table → Table
unfolding close_fd
close_pipes [] table = table
close_pipes ((r, w) ∷ pipes) table = close_pipes pipes (close_fd w (close_fd r table))

unfoldable pub move_to : ℕ → ℕ → Table → Table
unfolding close_fd dup2
move_to from to table = if from == to then table else close_fd from (dup2 from to table)

-- `setup_stdio`
unfoldable pub setup_stdio : ℕ → ℕ → Table → Table
unfolding move_to
setup_stdio in_fd out_fd table = move_to out_fd 1 (move_to in_fd 0 table)
