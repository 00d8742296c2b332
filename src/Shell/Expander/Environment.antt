-- ===== src/Shell/Expander/Environment.antt =====
-- How a variable is found: by the name in front of the first equals sign of an entry.
use barcelona.Base.{
  ◌≡◌, ◌≢◌, refl, inl, inr, Option-cases, Option, none, some, List, [], ◌∷◌, arith, if◌then◌else◌,
}
use barcelona.Base.Text.{Bytes, equal, starts_with}
use barcelona.Shell.Builtins.{split_assignment}
use barcelona.Shell.Expander.{entry_value, entry_for, getenv_from_envp}

abbrev pub HasNoEquals : Bytes → Type 0
HasNoEquals [] = Unit {0}
HasNoEquals (c ∷ s) = (c ≢ b'=') × HasNoEquals s

-- The value of the first entry whose name is the key.
unfoldable pub lookup : Bytes → List Bytes → Option Bytes
unfolding split_assignment equal
lookup key [] = none
lookup key (entry ∷ envp) = elim (split_assignment entry) [
  | none ↦ lookup key envp
  | some (name, value) ↦ if equal name key then some value else lookup key envp
]

unfoldable pub named : Bytes → Option (Bytes × Bytes) → Option Bytes
unfolding equal
named key none = none
named key (some (name, value)) = if equal name key then some value else none

entry_for-named :
    (key entry : Bytes) → HasNoEquals key → entry_for key entry ≡ named key (split_assignment entry)
unfolding entry_for entry_value named split_assignment starts_with equal
entry_for-named [] [] h = refl
entry_for-named [] (c ∷ s) h = elim (Option-cases (split_assignment s)) [
  | inl e ↦ ground arith
  | inr (p, e) ↦ ground arith
]
entry_for-named (k ∷ key) [] h = refl
entry_for-named (k ∷ key) (c ∷ s) h = elim (Option-cases (split_assignment s)) [
  | inl e ↦ ground (arith, entry_for-named key s h.1)
  | inr (p, e) ↦ ground (arith, entry_for-named key s h.1)
]

getenv_cons :
    (key entry : Bytes) (envp : List Bytes)
    → HasNoEquals key
    → getenv_from_envp key envp ≡ lookup key envp
    → getenv_from_envp key (entry ∷ envp) ≡ lookup key (entry ∷ envp)
unfolding getenv_from_envp lookup named
getenv_cons key entry envp h e = ground (arith, entry_for-named key entry h)

-- Of a key without an equals sign, getenv_from_envp finds the value of the first entry whose text
-- in front of its first equals sign is the key.
pub getenv_from_envp_lem :
    (key : Bytes) (envp : List Bytes)
    → HasNoEquals key
    → getenv_from_envp key envp ≡ lookup key envp
getenv_from_envp_lem key [] h = unfold getenv_from_envp lookup in refl
getenv_from_envp_lem key (entry ∷ envp) h =
    getenv_cons key entry envp h (getenv_from_envp_lem key envp h)
