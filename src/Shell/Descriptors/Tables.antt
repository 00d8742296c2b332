-- ===== src/Shell/Descriptors/Tables.antt =====
-- What the operations on descriptors leave in a table.
use barcelona.Base.{
  ℕ, zero, suc, ◌≡◌, inl, inr, refl, Option, Option-cases, none, some, List, [], ◌∷◌, arith, length,
  ◌==◌, sym, ap, same_some, Bool, true, false, if◌then◌else◌, Bool-cases,
}
use mathlib.Core.Path.{subst}
use barcelona.Base.Text.{Bytes}
use barcelona.Shell.Descriptors.{
  Mode, File, pipe_read, pipe_write, opened, Table, assign, System, IsSystem, alloc_pipes, add_pipe,
  place_file, make_pipe, open_file,
}

-- Every file of the first table is at its descriptor in the second.
abbrev pub Extends : Table → Table → Type 0
Extends s t = (fd : ℕ) (file : File) → s fd ≡ some file → t fd ≡ some file

-- The pipes, from the number i on, are open.
abbrev pub ArePipes : ℕ → List (ℕ × ℕ) → Table → Type 0
ArePipes i [] t = Unit {0}
ArePipes i ((r, w) ∷ pipes) t =
    (t r ≡ some (pipe_read i)) × (t w ≡ some (pipe_write i)) × ArePipes (suc i) pipes t

pub ArePipes-Extends :
    (i : ℕ) (pipes : List (ℕ × ℕ)) (s t : Table)
    → Extends s t
    → ArePipes i pipes s
    → ArePipes i pipes t
ArePipes-Extends i [] s t e h = tt
ArePipes-Extends i ((r, w) ∷ pipes) s t e h =
    (e r _ h.0, e w _ h.1, ArePipes-Extends (suc i) pipes s t e h.2)

assign-Extends :
    (fd : ℕ) (file : Option File) (t : Table) → t fd ≡ none → Extends t (assign fd file t)
unfolding assign
assign-Extends fd file t h n f e = elim (Bool-cases (n == fd)) [
  | inl same ↦ ground arith
  | inr other ↦ rw other e
]

assign_self : (fd : ℕ) (file : Option File) (t : Table) → assign fd file t fd ≡ file
unfolding assign
assign_self fd file t = ground arith

if_some :
    {A : Type 0} (b : Bool) (o : Option A) (a : A) → (if b then o else none) ≡ some a → o ≡ some a
if_some true o a e = e
if_some false o a e = cc

add_pipe-some :
    (p : ℕ × ℕ) (o : Option (List (ℕ × ℕ) × Table)) (pipes : List (ℕ × ℕ)) (t : Table)
    → add_pipe p o ≡ some (pipes, t)
    → (rest : List (ℕ × ℕ)) × (o ≡ some (rest, t)) × (pipes ≡ p ∷ rest)
unfolding add_pipe
add_pipe-some p none pipes t e = cc
add_pipe-some p (some (rest, t')) pipes t e = (rest, ground arith, ground arith)

module _ (system : System) (law : IsSystem system) where
  open system use {unused, can_open, can_pipe}

  place_file-open :
      (file : File) (t t' : Table) (fd : ℕ)
      → place_file system file t ≡ some (fd, t')
      → Extends t t' × (t' fd ≡ some file)
  unfolding place_file
  place_file-open file t t' fd e = elim (Option-cases (unused t)) [
    | inl n ↦ absurd (ground arith)
    | inr (k, u) ↦
        let same : ◌≡◌ {A = ℕ × Table} (k, assign k (some file) t) (fd, t') = ground arith in
        subst (λ (r : ℕ × Table). Extends t (r.1) × (r.1 (r.0) ≡ some file)) same
          (assign-Extends k (some file) t (law.unused_free t k u), assign_self k (some file) t)
  ]

  make_pipe-open :
      (i : ℕ) (p : ℕ × ℕ) (t t' : Table)
      → make_pipe system i t ≡ some (p, t')
      → Extends t t' × (t' (p.0) ≡ some (pipe_read i)) × (t' (p.1) ≡ some (pipe_write i))
  make_pipe-open i p t t' e = elim (Option-cases (place_file system (pipe_read i) t)) [
    | inl n ↦ absurd (unfold make_pipe in ground arith)
    | inr ((r, t1), u) ↦ elim (Option-cases (place_file system (pipe_write i) t1)) [
      | inl n ↦ absurd (unfold make_pipe in ground arith)
      | inr ((w, t2), v) ↦
          let same : ◌≡◌ {A = (ℕ × ℕ) × Table} ((r, w), t2) (p, t') =
            unfold make_pipe in ground arith in
          let (x1, er) = place_file-open (pipe_read i) t t1 r u in
          let (x2, ew) = place_file-open (pipe_write i) t1 t2 w v in
          subst
            (λ (q : (ℕ × ℕ) × Table).
              Extends t (q.1)
              × (q.1 (q.0.0) ≡ some (pipe_read i))
              × (q.1 (q.0.1) ≡ some (pipe_write i)))
            same ((λ n file h. x2 n file (x1 n file h)), x2 r (pipe_read i) er, ew)
    ]
  ]

  -- One pipe in front of the others.
  alloc_pipes-cons :
      (i n : ℕ) (t t' : Table) (pipes : List (ℕ × ℕ))
      → alloc_pipes system i (suc n) t ≡ some (pipes, t')
      → (p : ℕ × ℕ) × (t1 : Table) × (rest : List (ℕ × ℕ)) × (make_pipe system i t ≡ some (p, t1))
        × (alloc_pipes system (suc i) n t1 ≡ some (rest, t'))
        × (pipes ≡ p ∷ rest)
  alloc_pipes-cons i n t t' pipes e = elim (Option-cases (make_pipe system i t)) [
    | inl none_made ↦ absurd (unfold alloc_pipes in ground arith)
    | inr ((p, t1), made) ↦
        let added : add_pipe p (alloc_pipes system (suc i) n t1) ≡ some (pipes, t') =
          unfold alloc_pipes in ground arith in
        let (rest, e', same) = add_pipe-some p (alloc_pipes system (suc i) n t1) pipes t' added in
        (p, t1, rest, made, e', same)
  ]

  pub alloc_pipes-ArePipes :
      (i n : ℕ) (t t' : Table) (pipes : List (ℕ × ℕ))
      → alloc_pipes system i n t ≡ some (pipes, t')
      → ArePipes i pipes t' × Extends t t' × (length pipes ≡ n)
  alloc_pipes-ArePipes i zero t t' pipes e =
      let same : ◌≡◌ {A = List (ℕ × ℕ) × Table} ([], t) (pipes, t') =
        same_some (unfold alloc_pipes in e) in
      subst
        (λ (r : List (ℕ × ℕ) × Table).
          ArePipes i (r.0) (r.1) × Extends t (r.1) × (length (r.0) ≡ 0))
        same (tt, (λ fd file h. h), refl)
  alloc_pipes-ArePipes i (suc n) t t' pipes e =
      let (p, t1, rest, made, e', same) = alloc_pipes-cons i n t t' pipes e in
      let (are, more, l) = alloc_pipes-ArePipes (suc i) n t1 t' rest e' in
      let (x1, er, ew) = make_pipe-open i p t t1 made in
      subst (λ (ps : List (ℕ × ℕ)). ArePipes i ps t' × Extends t t' × (length ps ≡ suc n))
        (sym same)
        (
          (more (p.0) _ er, more (p.1) _ ew, are),
          (λ fd file h. more fd file (x1 fd file h)),
          ap suc l,
        )

  pub open_file-opened :
      (path : Bytes) (mode : Mode) (t t' : Table) (fd : ℕ)
      → open_file system path mode t ≡ some (fd, t')
      → Extends t t' × (t' fd ≡ some (opened path mode))
  unfolding open_file
  open_file-opened path mode t t' fd e =
      place_file-open (opened path mode) t t' fd
        (if_some (can_open path mode) (place_file system (opened path mode) t) (fd, t') e)
