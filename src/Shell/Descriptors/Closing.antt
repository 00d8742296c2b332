-- ===== src/Shell/Descriptors/Closing.antt =====
-- What a child closes, and where its input and output end up.
use barcelona.Base.{
  ℕ, zero, suc, ◌+◌, ◌-◌, ◌≤◌, ◌<◌, ◌≡◌, ◌≢◌, refl, sym, ◌∙◌, false, not, ◌&&◌, ◌||◌, none, some,
  List, [], ◌∷◌, arith, ◌==◌, Bool-cases, ◌⊎◌, inl, inr, if◌then◌else◌,
}
use mathlib.Core.Path.{subst}
use barcelona.Shell.Descriptors.{
  File, inherited, pipe_read, pipe_write, opened, Table, assign, close_fd, dup2, System, close_from,
  close_all_fds_except, close_unused_pipes, move_to, setup_stdio,
}
use barcelona.Shell.Descriptors.Tables.{ArePipes}

-- What a child keeps of its pipes: those in front of its command and behind it.
abbrev pub IsNear : ℕ → File → Type 0
IsNear i (pipe_read k) = suc k ≡ i
IsNear i (pipe_write k) = k ≡ i
IsNear i (inherited n) = Unit {0}
IsNear i (opened path mode) = Unit {0}

far_end :
    (i j r w fd : ℕ) (file : File) (s : Table)
    → s r ≡ some (pipe_read j)
    → s w ≡ some (pipe_write j)
    → s fd ≡ some file
    → IsNear i file
    → (suc j == i) ≡ false
    → (j == i) ≡ false
    → ((fd == r) ≡ false) × ((fd == w) ≡ false)
far_end i j r w fd (inherited n) s er ew e near a b = grind arith
far_end i j r w fd (opened path mode) s er ew e near a b = grind arith
far_end i j r w fd (pipe_read k) s er ew e near a b = grind arith
far_end i j r w fd (pipe_write k) s er ew e near a b = grind arith

close_other : (fd n : ℕ) (t : Table) → (n == fd) ≡ false → close_fd fd t n ≡ t n
unfolding close_fd assign
close_other fd n t e = rw e

close_self : (fd : ℕ) (t : Table) → close_fd fd t fd ≡ none
unfolding close_fd assign
close_self fd t = ground arith

-- The pipes are those of the table that the loop starts with.
close_unused_pipes-IsNear :
    (pipes : List (ℕ × ℕ)) (j i fd : ℕ) (file : File) (s t : Table)
    → ArePipes j pipes s
    → s fd ≡ some file
    → IsNear i file
    → close_unused_pipes pipes j i t fd ≡ t fd
unfolding close_unused_pipes
close_unused_pipes-IsNear [] j i fd file s t p e n = refl
close_unused_pipes-IsNear ((r, w) ∷ pipes) j i fd file s t p e n =
    close_unused_pipes-IsNear pipes (suc j) i fd file s _ p.2 e n ∙ step
  where
    step : (if not (suc j == i) && not (j == i) then close_fd w (close_fd r t) else t) fd ≡ t fd
    step = elim (Bool-cases (suc j == i)) [
      | inl a ↦ rw a refl
      | inr a ↦ elim (Bool-cases (j == i)) [
        | inl b ↦ rw (a, b) refl
        | inr b ↦
            let (er, ew) = far_end i j r w fd file s p.0 p.1 e n a b in
            rw (a, b) (close_other w fd (close_fd r t) ew ∙ close_other r fd t er)
      ]
    ]

-- One round of the loop over all descriptors.
close_round :
    (lo a b fd : ℕ) (t : Table)
    → (fd ≡ a) ⊎ ((fd ≡ b) ⊎ (fd ≢ lo))
    → (if not (lo == a) && not (lo == b) then close_fd lo t else t) fd ≡ t fd
unfolding close_fd assign
close_round lo a b fd t (inl h) = ground arith
close_round lo a b fd t (inr (inl h)) = ground arith
close_round lo a b fd t (inr (inr h)) = ground arith

close_from-kept :
    (n lo a b fd : ℕ) (t : Table)
    → (fd ≡ a) ⊎ ((fd ≡ b) ⊎ (fd < lo))
    → close_from n lo a b t fd ≡ t fd
unfolding close_from
close_from-kept zero lo a b fd t h = refl
close_from-kept (suc n) lo a b fd t (inl h) =
    close_from-kept n (suc lo) a b fd _ (inl h) ∙ close_round lo a b fd t (inl h)
close_from-kept (suc n) lo a b fd t (inr (inl h)) =
    close_from-kept n (suc lo) a b fd _ (inr (inl h)) ∙ close_round lo a b fd t (inr (inl h))
close_from-kept (suc n) lo a b fd t (inr (inr h)) =
    close_from-kept n (suc lo) a b fd _ (inr (inr (omega arith)))
    ∙ close_round lo a b fd t (inr (inr (omega arith)))

closed_round :
    (lo a b : ℕ) (t : Table)
    → lo ≢ a
    → lo ≢ b
    → (if not (lo == a) && not (lo == b) then close_fd lo t else t) lo ≡ none
unfolding close_fd assign
closed_round lo a b t x y = ground arith

close_from-none :
    (n lo a b fd : ℕ) (t : Table)
    → lo ≤ fd
    → fd < lo + n
    → fd ≢ a
    → fd ≢ b
    → close_from n lo a b t fd ≡ none
unfolding close_from
close_from-none zero lo a b fd t l u x y = absurd (omega arith)
close_from-none (suc n) lo a b fd t l u x y = elim (Bool-cases (fd == lo)) [
  | inl e ↦
      let same : fd ≡ lo = ground arith in
      close_from-kept n (suc lo) a b fd _ (inr (inr (omega arith)))
      ∙ subst (λ k. (if not (lo == a) && not (lo == b) then close_fd lo t else t) k ≡ none)
          (sym same) (closed_round lo a b t (λ z. x (same ∙ z)) (λ z. y (same ∙ z)))
  | inr e ↦ close_from-none n (suc lo) a b fd _ (ground arith) (omega arith) x y
]

-- The input and the output are at their places and nowhere else.
pub setup_stdio_lem :
    (a b fd : ℕ) (t : Table)
    → a ≢ b
    → a ≢ 1
    → b ≢ 0
    → setup_stdio a b t fd ≡ (
        if fd == 0 then t a else if fd == 1 then t b else if fd == a || fd == b then none else t fd)
unfolding setup_stdio move_to dup2 close_fd assign
setup_stdio_lem a b fd t x y z = ground arith

-- What becomes of a table in which a child has its input and its output.
pub closed_table :
    (system : System) (pipes : List (ℕ × ℕ)) (i a b fd : ℕ) (file : File) (t : Table)
    → ArePipes 0 pipes t
    → t fd ≡ some file
    → IsNear i file
    → (fd ≡ a) ⊎ ((fd ≡ b) ⊎ (fd < 3))
    → close_all_fds_except system a b (close_unused_pipes pipes 0 i t) fd ≡ some file
unfolding close_all_fds_except
closed_table system pipes i a b fd file t p e n k =
    close_from-kept (system.max_fd - 3) 3 a b fd (close_unused_pipes pipes 0 i t) k
    ∙ close_unused_pipes-IsNear pipes 0 i fd file t t p e n
    ∙ e

pub closed_table-none :
    (system : System) (a b fd : ℕ) (t : Table)
    → 3 ≤ fd
    → fd < system.max_fd
    → fd ≢ a
    → fd ≢ b
    → close_all_fds_except system a b t fd ≡ none
unfolding close_all_fds_except
closed_table-none system a b fd t l u x y =
    close_from-none (system.max_fd - 3) 3 a b fd t l (omega arith) x y
