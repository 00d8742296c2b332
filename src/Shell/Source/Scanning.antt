-- ===== src/Shell/Source/Scanning.antt =====
-- What the loops over characters take, and where they stop.
use barcelona.Base.{
  ℕ, ◌≤◌, ◌≡◌, inl, inr, refl, ap, ◌∙◌, Bool, true, ◌||◌, some, [], ◌∷◌, ◌==◌, ◌++◌, arith, length,
}
use barcelona.Base.Text.{is_alpha, Bytes}
use barcelona.Base.Number.{drop_while}
use barcelona.Shell.Tokenizer.{is_name, take_while, parse_variable_name}
use barcelona.Shell.Source.{AreAll, HeadFails, IsVariable}

module _ (p : ℕ → Bool) where
  take_while-stop : (s : Bytes) → HeadFails p s → take_while p s ≡ []
  unfolding take_while
  take_while-stop [] h = refl
  take_while-stop (c ∷ s) h = rw h

  pub drop_while-stop : (s : Bytes) → HeadFails p s → drop_while p s ≡ s
  unfolding drop_while
  drop_while-stop [] h = refl
  drop_while-stop (c ∷ s) h = rw h

  pub take_while-all : (w s : Bytes) → AreAll p w → HeadFails p s → take_while p (w ++ s) ≡ w
  unfolding take_while
  take_while-all [] s h e = take_while-stop s e
  take_while-all (c ∷ w) s h e = rw (h.0) (ap (◌∷◌ c) (take_while-all w s h.1 e))

  pub drop_while-all : (w s : Bytes) → AreAll p w → HeadFails p s → drop_while p (w ++ s) ≡ s
  unfolding drop_while
  drop_while-all [] s h e = drop_while-stop s e
  drop_while-all (c ∷ w) s h e = rw (h.0) (drop_while-all w s h.1 e)

  pub length-drop_while : (s : Bytes) → length (drop_while p s) ≤ length s
  unfolding drop_while
  length-drop_while [] = omega arith
  length-drop_while (c ∷ s) = ground (arith, length-drop_while s)

question : (s : Bytes) → parse_variable_name (b'?' ∷ s) ≡ some (b'?' ∷ [], s)
unfolding parse_variable_name
question s = refl

-- The first character of a name is neither a question mark nor refused.
name_start :
    (c : ℕ) (s : Bytes)
    → (is_alpha c || c == b'_') ≡ true
    → parse_variable_name (c ∷ s) ≡ some (c ∷ take_while is_name s, drop_while is_name s)
unfolding parse_variable_name is_alpha
name_start c s h = ground arith

pub parse_variable_name-all :
    (v s : Bytes) → IsVariable v → HeadFails is_name s → parse_variable_name (v ++ s) ≡ some (v, s)
parse_variable_name-all [] s h e = absurd h
parse_variable_name-all (c ∷ v) s (inl (q, n)) e = rw (q, n) (question s)
parse_variable_name-all (c ∷ v) s (inr (first, more)) e =
    name_start c (v ++ s) first
    ∙ (rw (take_while-all is_name v s more e, drop_while-all is_name v s more e) refl)
