-- ===== src/Shell/Executor/Opening.antt =====
-- The files that are opened for a command, and the ends of its pipes.
use mathlib.Core.Path.{subst}
use barcelona.Base.{
  ℕ, zero, suc, ◌+◌, ◌≤◌, ◌<◌, ◌≡◌, ap, ◌∙◌, none, some, List, [], ◌∷◌, arith, length, same_some,
}
use barcelona.Shell.{Redirect, output, append_output, Cmd}
use barcelona.Shell.Descriptors.{
  reads, truncates, appends, pipe_read, pipe_write, Table, System, IsSystem, get_in_fd, get_out_fd,
  open_file,
}
use barcelona.Shell.Descriptors.Tables.{Extends, ArePipes, open_file-opened}
use barcelona.Shell.Executor.{nth_pipe, input_of, output_of}
use barcelona.Shell.Executor.Wiring.{source, mode_of, sink, HasStdio}

module _ (t : Table) where
  read_end :
      (j k m : ℕ) (pipes : List (ℕ × ℕ))
      → ArePipes j pipes t
      → k < length pipes
      → m ≡ j + k
      → t ((nth_pipe pipes k).0) ≡ some (pipe_read m)
  unfolding nth_pipe
  read_end j k m [] p l e = elim l [ ]
  read_end j zero m ((r, w) ∷ pipes) p l e = p.0 ∙ ap (λ n. some (pipe_read n)) (omega arith)
  read_end j (suc k) m ((r, w) ∷ pipes) p l e =
      read_end (suc j) k m pipes p.2 (omega arith) (omega arith)

  write_end :
      (j k m : ℕ) (pipes : List (ℕ × ℕ))
      → ArePipes j pipes t
      → k < length pipes
      → m ≡ j + k
      → t ((nth_pipe pipes k).1) ≡ some (pipe_write m)
  unfolding nth_pipe
  write_end j k m [] p l e = elim l [ ]
  write_end j zero m ((r, w) ∷ pipes) p l e = p.1 ∙ ap (λ n. some (pipe_write n)) (omega arith)
  write_end j (suc k) m ((r, w) ∷ pipes) p l e =
      write_end (suc j) k m pipes p.2 (omega arith) (omega arith)

  pub input_of-open :
      (i : ℕ) (pipes : List (ℕ × ℕ))
      → ArePipes 0 pipes t
      → HasStdio t
      → i ≤ length pipes
      → t (input_of pipes i) ≡ some (source i [])
  unfolding input_of
  input_of-open zero pipes p s l = s.0
  input_of-open (suc i) pipes p s l = read_end 0 i i pipes p l (omega arith)

  pub output_of-open :
      (i : ℕ) (pipes : List (ℕ × ℕ)) (behind : List Cmd)
      → ArePipes 0 pipes t
      → HasStdio t
      → i + length behind ≤ length pipes
      → t (output_of pipes i behind) ≡ some (sink i [] behind)
  unfolding output_of
  output_of-open i pipes [] p s l = s.1
  output_of-open i pipes (_ ∷ _) p s l = write_end 0 i i pipes p (omega arith) (omega arith)

module _ (system : System) (law : IsSystem system) where
  pub get_in_fd-open :
      (i prev fd : ℕ) (ins : List Redirect) (t t' : Table)
      → t prev ≡ some (source i [])
      → get_in_fd system ins prev t ≡ some (fd, t')
      → Extends t t' × (t' fd ≡ some (source i ins))
  unfolding get_in_fd
  get_in_fd-open i prev fd [] t t' p e =
      subst (λ (r : ℕ × Table). Extends t (r.1) × (r.1 (r.0) ≡ some (source i []))) (same_some e)
        ((λ n file h. h), p)
  get_in_fd-open i prev fd (redir ∷ _) t t' p e =
      open_file-opened system law redir.file reads t t' fd e

  pub get_out_fd-open :
      (i next fd : ℕ) (outs : List Redirect) (behind : List Cmd) (t t' : Table)
      → t next ≡ some (sink i [] behind)
      → get_out_fd system outs next t ≡ some (fd, t')
      → Extends t t' × (t' fd ≡ some (sink i outs behind))
  unfolding get_out_fd
  get_out_fd-open i next fd [] behind t t' p e =
      subst (λ (r : ℕ × Table). Extends t (r.1) × (r.1 (r.0) ≡ some (sink i [] behind)))
        (same_some e) ((λ n file h. h), p)
  get_out_fd-open i next fd (redir ∷ _) behind t t' p e =
      open_file-opened system law redir.file (mode_of redir) t t' fd (mode redir e)
    where
      mode :
          (r : Redirect)
          → (elim r.type [
            | output ↦ open_file system r.file truncates t
            | append_output ↦ open_file system r.file appends t
            | _ ↦ none
          ])
            ≡ some (fd, t')
          → open_file system r.file (mode_of r) t ≡ some (fd, t')
      mode r h = ground arith

pub HasStdio-Extends : (s t : Table) → Extends s t → HasStdio s → HasStdio t
HasStdio-Extends s t e (a, b, c) = (e 0 _ a, e 1 _ b, e 2 _ c)
