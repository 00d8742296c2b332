-- ===== src/Shell/ChainTests.antt =====
-- A chain of two commands over a small system, and the theorems on chains for it.
use barcelona.Base.{
  ℕ, zero, suc, ◌≡◌, refl, true, Option, none, some, List, [], ◌∷◌, arith, ◌==◌, if◌then◌else◌,
  Option-cases, inl, inr,
}
use barcelona.Base.Text.{codes}
use barcelona.Base.Int.{pos, negsuc}
use barcelona.Shell.{output, Cmd, zero_cmd}
use barcelona.Shell.Builtins.{Libc}
use barcelona.Shell.Descriptors.{Table, inherited, System, IsSystem}
use barcelona.Shell.Executor.{Child, Chain, forked, start_chain, Waited, exited_with, finish_chain}
use barcelona.Shell.Executor.Wiring.{AreWired}
use barcelona.Shell.Executor.Children.{start_chain-AreWired}
use barcelona.Shell.Executor.Status.{all_exited, is_end, finish_chain_lem}

-- The lowest descriptor that is not open, of n from fd on.
lowest : ℕ → ℕ → Table → Option ℕ
lowest zero fd table = none
lowest (suc n) fd table =
    let rest = lowest n (suc fd) table in elim (table fd) [ none ↦ some fd | some _ ↦ rest ]

lowest_free : (n fd : ℕ) (table : Table) (k : ℕ) → lowest n fd table ≡ some k → table k ≡ none
unfolding lowest
lowest_free zero fd table k e = cc
lowest_free (suc n) fd table k e = elim (Option-cases (table fd)) [
  | inl free ↦ let same : fd ≡ k = ground arith in rw (← same) free
  | inr (file, taken) ↦ lowest_free n (suc fd) table k (ground arith)
]

abbrev small : System
small = record {
  can_open = λ path mode. true;
  can_pipe = λ i. true;
  unused = lowest 16 0;
  max_fd = 16;
}

small-IsSystem : IsSystem small
small-IsSystem = record { unused_free = λ table fd e. lowest_free 16 0 table fd e }

abbrev answers : Libc
answers = record {
  chdir = λ path. true;
  getcwd = none;
  setenv = λ name value. true;
  unsetenv = λ name. true;
  atoi = λ text. pos 0;
}

abbrev standard : Table
standard fd =
    if fd == 0
    then some (inherited 0)
    else if fd == 1
    then some (inherited 1)
    else if fd == 2
    then some (inherited 2)
    else none

abbrev listing : Cmd
listing = record zero_cmd { argv = some (codes "ls" ∷ []) }

abbrev counting : Cmd
counting = record zero_cmd {
  argv = some (codes "wc" ∷ []);
  out_redir = record { type = output; file = codes "n" } ∷ [];
}

abbrev started : Option (List (ℕ × ℕ) × Chain)
started = start_chain small answers [] (listing ∷ counting ∷ []) standard

children_of : Option (List (ℕ × ℕ) × Chain) → List Child
children_of (some (pipes, forked children last)) = children
children_of _ = []

last_of : Option (List (ℕ × ℕ) × Chain) → Table
last_of (some (pipes, forked children last)) = last
last_of _ = standard

start_chain-AreWired_example :
    AreWired small ((3, 4) ∷ []) 0 (listing ∷ counting ∷ []) (children_of started)
start_chain-AreWired_example =
    start_chain-AreWired small small-IsSystem answers [] (listing ∷ counting ∷ []) standard
      (last_of started) ((3, 4) ∷ []) (children_of started) (refl, refl, refl)
      (unfold start_chain lowest children_of last_of in refl)

abbrev two_ends : List Waited
two_ends = exited_with 1 ∷ exited_with 0 ∷ []

finish_chain_lem_example :
    ((finish_chain ((3, 4) ∷ []) standard two_ends).0
      ≡ (if all_exited two_ends then pos 0 else negsuc 0))
    × ((fd : ℕ)
        → (finish_chain ((3, 4) ∷ []) standard two_ends).1 fd
          ≡ (if is_end fd ((3, 4) ∷ []) then none else standard fd))
finish_chain_lem_example = finish_chain_lem ((3, 4) ∷ []) standard two_ends
