-- ===== src/Shell/Executor/Children.antt =====
-- Every child of a chain is wired: from the loop of execute_cmd_chain to the tables of its children.
use mathlib.Core.Path.{subst}
use barcelona.Base.{
  ℕ, suc, ◌+◌, ◌-◌, ◌≤◌, ◌<◌, ◌≡◌, ◌≢◌, inl, inr, refl, sym, ◌∙◌, Bool, ◌&&◌, none, some, List, [],
  ◌∷◌, arith, length, ◌==◌, ◌||◌, if◌then◌else◌, Option-cases, Bool-cases,
}
use barcelona.Base.Text.{Bytes}
use barcelona.Shell.{Redirect, Cmd}
use barcelona.Shell.Builtins.{Libc, is_builtin_name}
use barcelona.Shell.Descriptors.{
  inherited, Table, System, IsSystem, get_in_fd, get_out_fd, close_unused_pipes,
  close_all_fds_except, setup_stdio, alloc_pipes,
}
use barcelona.Shell.Descriptors.Tables.{ArePipes, ArePipes-Extends, alloc_pipes-ArePipes}
use barcelona.Shell.Descriptors.Closing.{closed_table, closed_table-none, setup_stdio_lem}
use barcelona.Shell.Executor.{
  Child, child_table, is_single_command, Chain, forked, built, shell_exits, crashes, with_child,
  input_of, output_of, first_word, start_commands, start_chain,
}
use barcelona.Shell.Executor.Wiring.{
  source, sink, HasStdio, IsWired, AreWired, source-IsNear, sink-IsNear, source-ne-sink,
  source-ne-std, sink-ne-stdin, sink-ne-stderr, apart,
}
use barcelona.Shell.Executor.Opening.{
  input_of-open, output_of-open, get_in_fd-open, get_out_fd-open, HasStdio-Extends,
}

module _ (system : System) (pipes : List (ℕ × ℕ)) where
  -- The steps of exec_cmd_in_child, from a table with the pipes, the input and the output.
  child-IsWired :
      (child : Child) (ins outs : List Redirect) (behind : List Cmd)
      → ArePipes 0 pipes child.table
      → HasStdio child.table
      → child.table child.in_fd ≡ some (source child.index ins)
      → child.table child.out_fd ≡ some (sink child.index outs behind)
      → IsWired system
          (source child.index ins)
          (sink child.index outs behind)
          (child_table system pipes child)
  unfolding child_table
  child-IsWired child ins outs behind p (s0, s1, s2) ei eo = record {
    reads_from =
        stdio 0
        ∙ closed_table system pipes i a b a (source i ins) t p ei (source-IsNear i ins) (inl refl);
    writes_to =
        stdio 1
        ∙ closed_table system pipes i a b b (sink i outs behind) t p eo (sink-IsNear i outs behind)
            (inr (inl refl));
    errors_to =
        stdio 2
        ∙ kept
        ∙ closed_table system pipes i a b 2 (inherited 2) t p s2 tt (inr (inr (omega arith)));
    others = λ fd l u. stdio fd ∙ gone fd l u;
  }
    where
      open child use {table as t, index as i, in_fd as a, out_fd as b}

      ab : a ≢ b
      ab = apart t a b _ _ ei eo (source-ne-sink i ins outs behind)

      a1 : a ≢ 1
      a1 = apart t a 1 _ _ ei s1 (source-ne-std i 0 ins)

      a2 : a ≢ 2
      a2 = apart t a 2 _ _ ei s2 (source-ne-std i 1 ins)

      b0 : b ≢ 0
      b0 = apart t b 0 _ _ eo s0 (sink-ne-stdin i outs behind)

      b2 : b ≢ 2
      b2 = apart t b 2 _ _ eo s2 (sink-ne-stderr i outs behind)

      u : Table
      u = close_all_fds_except system a b (close_unused_pipes pipes 0 i t)

      stdio :
          (fd : ℕ)
          → setup_stdio a b u fd ≡ (
              if fd == 0
              then u a
              else if fd == 1
              then u b
              else if fd == a || fd == b
              then none
              else u fd)
      stdio fd = setup_stdio_lem a b fd u ab a1 b0

      kept : (if 2 == a || 2 == b then none else u 2) ≡ u 2
      kept = ground arith

      gone :
          (fd : ℕ)
          → 3 ≤ fd
          → fd < system.max_fd
          → (if fd == 0
              then u a
              else if fd == 1
              then u b
              else if fd == a || fd == b
              then none
              else u fd)
            ≡ none
      gone fd l h = elim (Bool-cases (fd == a || fd == b)) [
        | inl e ↦ ground arith
        | inr e ↦
            let closed : u fd ≡ none =
              closed_table-none system a b fd (close_unused_pipes pipes 0 i t) l h (ground arith)
                (ground arith) in
            ground arith
      ]

with_child-forked :
    (child : Child) (chain : Chain) (children : List Child) (last : Table)
    → with_child child chain ≡ forked children last
    → (rest : List Child) × (chain ≡ forked rest last) × (children ≡ child ∷ rest)
unfolding with_child
with_child-forked child (forked rest t) children last e = (rest, ground arith, ground arith)
with_child-forked child (built outcome t) children last e = cc
with_child-forked child shell_exits children last e = cc
with_child-forked child crashes children last e = cc

module _ (system : System) (libc : Libc) (envp : List Bytes) where
  -- A command that is not run by the shell itself is forked, and the loop goes on.
  start_step :
      (single : Bool) (pipes : List (ℕ × ℕ)) (i : ℕ) (cmd : Cmd) (cmds : List Cmd) (t last : Table)
      (children : List Child)
      → start_commands system libc envp single pipes i (cmd ∷ cmds) t ≡ forked children last
      → (child : Child) × (rest : List Child) × (t1 : Table) × (get_in_fd system cmd.in_redir
            (input_of pipes i)
            t
          ≡ some (child.in_fd, t1))
        × (get_out_fd system cmd.out_redir (output_of pipes i cmds) t1
            ≡ some (child.out_fd, child.table))
        × (child.index ≡ i)
        × (start_commands system libc envp single pipes (suc i) cmds child.table ≡ forked rest last)
        × (children ≡ child ∷ rest)
  start_step single pipes i cmd cmds t last children e =
      elim (Option-cases (get_in_fd system cmd.in_redir (input_of pipes i) t)) [
        | inl n ↦ absurd (unfold start_commands in ground arith)
        | inr ((a, t1), g) ↦
            elim (Option-cases (get_out_fd system cmd.out_redir (output_of pipes i cmds) t1)) [
              | inl n ↦ absurd (unfold start_commands in ground arith)
              | inr ((b, t2), g') ↦ elim (Option-cases (first_word cmd.argv)) [
                | inl n ↦ absurd (unfold start_commands in ground arith)
                | inr (name, w) ↦ elim (Bool-cases (is_builtin_name name && single)) [
                  | inl own ↦ absurd (unfold start_commands in ground arith)
                  | inr other ↦
                      let child : Child = record {
                        cmd = record cmd { is_builtin = is_builtin_name name };
                        index = i;
                        in_fd = a;
                        out_fd = b;
                        table = t2;
                      } in
                      let next : with_child child
                            (start_commands system libc envp single pipes (suc i) cmds t2)
                          ≡ forked children last =
                        unfold start_commands in ground arith in
                      let (rest, e', same) = with_child-forked child _ children last next in
                      (child, rest, t1, g, g', refl, e', same)
                ]
              ]
            ]
      ]

module _ (system : System) (law : IsSystem system) (libc : Libc) (envp : List Bytes) where
  children-AreWired :
      (single : Bool) (pipes : List (ℕ × ℕ)) (i : ℕ) (cmds : List Cmd) (t last : Table)
      (children : List Child)
      → ArePipes 0 pipes t
      → HasStdio t
      → i + length cmds ≤ suc (length pipes)
      → start_commands system libc envp single pipes i cmds t ≡ forked children last
      → AreWired system pipes i cmds children
  children-AreWired single pipes i [] t last children p s l e =
      subst (AreWired system pipes i []) (none_left (unfold start_commands in e)) tt
    where
      none_left : forked [] t ≡ forked children last → [] ≡ children
      none_left h = cc
  children-AreWired single pipes i (cmd ∷ cmds) t last children p s l e =
      let (child, rest, t1, g, g', same, e', all) =
        start_step system libc envp single pipes i cmd cmds t last children e in
      let (x1, ei) =
        get_in_fd-open system law i (input_of pipes i) child.in_fd cmd.in_redir t t1
          (input_of-open t i pipes p s (omega arith)) g in
      let s1 : HasStdio t1 = HasStdio-Extends t t1 x1 s in
      let p1 : ArePipes 0 pipes t1 = ArePipes-Extends 0 pipes t t1 x1 p in
      let (x2, eo) =
        get_out_fd-open system law i (output_of pipes i cmds) child.out_fd cmd.out_redir cmds t1
          child.table (output_of-open t1 i pipes cmds p1 s1 (omega arith)) g' in
      let s2 : HasStdio child.table = HasStdio-Extends t1 child.table x2 s1 in
      let p2 : ArePipes 0 pipes child.table = ArePipes-Extends 0 pipes t1 child.table x2 p1 in
      let wired : IsWired system (source i cmd.in_redir) (sink i cmd.out_redir cmds)
          (child_table system pipes child) =
        subst
          (λ (k : ℕ).
            (child.table child.in_fd ≡ some (source k cmd.in_redir))
            → (child.table child.out_fd ≡ some (sink k cmd.out_redir cmds))
            → IsWired system (source k cmd.in_redir) (sink k cmd.out_redir cmds)
                (child_table system pipes child))
          same (child-IsWired system pipes child cmd.in_redir cmd.out_redir cmds p2 s2)
          (x2 child.in_fd _ ei) eo in
      subst (AreWired system pipes i (cmd ∷ cmds)) (sym all) (
        wired,
        children-AreWired single pipes (suc i) cmds child.table last rest p2 s2 (omega arith) e',
      )

  -- Where a shell that has its three standard descriptors starts the children of a chain, over a
  -- system whose new descriptors are those that are not open: each command has its child, in order;
  -- in this child the descriptor 0 is the file of its redirection, or the pipe in front of it, or
  -- the input of the shell for the first; the descriptor 1 is the file of its redirection, or the
  -- pipe behind it, or the output of the shell for the last; the descriptor 2 is the shell's, and
  -- no other below the bound is open.
  pub start_chain-AreWired :
      (cmds : List Cmd) (table last : Table) (pipes : List (ℕ × ℕ)) (children : List Child)
      → HasStdio table
      → start_chain system libc envp cmds table ≡ some (pipes, forked children last)
      → AreWired system pipes 0 cmds children
  start_chain-AreWired cmds table last pipes children s e =
      elim (Option-cases (alloc_pipes system 0 (length cmds - 1) table)) [
        | inl n ↦ absurd (unfold start_chain in ground arith)
        | inr ((ps, t), a) ↦
            let same : ps ≡ pipes = unfold start_chain in ground arith in
            let begun : start_commands system libc envp (is_single_command cmds) ps 0 cmds t
                ≡ forked children last =
              unfold start_chain in ground arith in
            let (p, x, l) = alloc_pipes-ArePipes system law 0 (length cmds - 1) table t ps a in
            subst (λ (qs : List (ℕ × ℕ)). AreWired system qs 0 cmds children) same
              (children-AreWired (is_single_command cmds) ps 0 cmds t last children p
                (HasStdio-Extends table t x s) (omega arith) begun)
      ]
