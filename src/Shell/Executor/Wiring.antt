-- ===== src/Shell/Executor/Wiring.antt =====
-- What the children of a chain have for their input and output, and that they have nothing else.
use barcelona.Base.{
  ℕ, zero, suc, ◌≤◌, ◌<◌, ◌≡◌, ◌≢◌, refl, sym, ap, ◌∙◌, none, some, List, [], ◌∷◌, arith, same_some,
}
use barcelona.Shell.{Redirect, append_output, Cmd}
use barcelona.Shell.Descriptors.{
  Mode, reads, truncates, appends, File, inherited, pipe_read, pipe_write, opened, Table, System,
}
use barcelona.Shell.Descriptors.Closing.{IsNear}
use barcelona.Shell.Executor.{Child, child_table}

-- The file that a command reads from: that of its redirection, the pipe in front of it, or the
-- input of the shell.
abbrev pub source : ℕ → List Redirect → File
source i (redir ∷ _) = opened redir.file reads
source zero [] = inherited 0
source (suc i) [] = pipe_read i

abbrev pub mode_of : Redirect → Mode
mode_of redir = elim redir.type [ append_output ↦ appends | _ ↦ truncates ]

-- The file that a command writes to, in front of the commands behind it.
abbrev pub sink : ℕ → List Redirect → List Cmd → File
sink i (redir ∷ _) behind = opened redir.file (mode_of redir)
sink i [] [] = inherited 1
sink i [] (_ ∷ _) = pipe_write i

abbrev pub HasStdio : Table → Type 0
HasStdio t = (t 0 ≡ some (inherited 0)) × (t 1 ≡ some (inherited 1)) × (t 2 ≡ some (inherited 2))

-- The descriptors of a child below the bound of sysconf.
pub record IsWired (system : System) (from to : File) (t : Table) : Type 0 where
  pub reads_from : t 0 ≡ some from
  pub writes_to : t 1 ≡ some to
  pub errors_to : t 2 ≡ some (inherited 2)
  pub others : (fd : ℕ) → 3 ≤ fd → fd < system.max_fd → t fd ≡ none

-- A child for each command, in their order.
abbrev pub AreWired : System → List (ℕ × ℕ) → ℕ → List Cmd → List Child → Type 0
AreWired system pipes i [] [] = Unit {0}
AreWired system pipes i [] (child ∷ children) = ⊥
AreWired system pipes i (cmd ∷ cmds) [] = ⊥
AreWired system pipes i (cmd ∷ cmds) (child ∷ children) =
    IsWired system (source i cmd.in_redir) (sink i cmd.out_redir cmds)
      (child_table system pipes child)
    × AreWired system pipes (suc i) cmds children

pub source-IsNear : (i : ℕ) (redirs : List Redirect) → IsNear i (source i redirs)
source-IsNear i (redir ∷ _) = tt
source-IsNear zero [] = tt
source-IsNear (suc i) [] = refl

pub sink-IsNear :
    (i : ℕ) (redirs : List Redirect) (behind : List Cmd) → IsNear i (sink i redirs behind)
sink-IsNear i (redir ∷ _) behind = tt
sink-IsNear i [] [] = tt
sink-IsNear i [] (_ ∷ _) = refl

mode_of-ne-reads : (redir : Redirect) → reads ≢ mode_of redir
mode_of-ne-reads redir e = ground arith

pub source-ne-sink :
    (i : ℕ) (ins outs : List Redirect) (behind : List Cmd) → source i ins ≢ sink i outs behind
source-ne-sink i (redir ∷ _) (redir' ∷ _) behind e = ground (arith, mode_of-ne-reads redir')
source-ne-sink i (redir ∷ _) [] [] e = cc
source-ne-sink i (redir ∷ _) [] (_ ∷ _) e = cc
source-ne-sink zero [] (redir' ∷ _) behind e = cc
source-ne-sink zero [] [] [] e = ground arith
source-ne-sink zero [] [] (_ ∷ _) e = cc
source-ne-sink (suc i) [] (redir' ∷ _) behind e = cc
source-ne-sink (suc i) [] [] [] e = cc
source-ne-sink (suc i) [] [] (_ ∷ _) e = cc

pub source-ne-std : (i n : ℕ) (ins : List Redirect) → source i ins ≢ inherited (suc n)
source-ne-std i n (redir ∷ _) e = cc
source-ne-std zero n [] e = ground arith
source-ne-std (suc i) n [] e = cc

pub sink-ne-stdin :
    (i : ℕ) (outs : List Redirect) (behind : List Cmd) → sink i outs behind ≢ inherited 0
sink-ne-stdin i (redir ∷ _) behind e = cc
sink-ne-stdin i [] [] e = ground arith
sink-ne-stdin i [] (_ ∷ _) e = cc

pub sink-ne-stderr :
    (i : ℕ) (outs : List Redirect) (behind : List Cmd) → sink i outs behind ≢ inherited 2
sink-ne-stderr i (redir ∷ _) behind e = cc
sink-ne-stderr i [] [] e = ground arith
sink-ne-stderr i [] (_ ∷ _) e = cc

-- Two descriptors of different files are different.
pub apart : (t : Table) (a b : ℕ) (f g : File) → t a ≡ some f → t b ≡ some g → f ≢ g → a ≢ b
apart t a b f g ea eb n e = n (same_some (sym ea ∙ ap t e ∙ eb))
