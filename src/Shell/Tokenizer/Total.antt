-- ===== src/Shell/Tokenizer/Total.antt =====
-- The tokenizer ends, and what its tokens are.
use barcelona.Base.{
  ℕ, zero, suc, ◌≤◌, ◌≡◌, ◌≢◌, refl, ap, sym, ◌∙◌, Bool, true, false, ◌⊎◌, inl, inr, some, List, [],
  ◌∷◌, ◌++◌, arith, length, Option-cases, Bool-cases,
}
use mathlib.Core.Path.{subst}
use barcelona.Base.Text.{Bytes, codes, is_space}
use barcelona.Base.Number.{drop_while}
use barcelona.Shell.{Token, word, squote, eof}
use barcelona.Shell.Tokenizer.{
  TokenizerState, normal, in_dquote, Lexed, lexed, unclosed, Tokens, tokens, failed, take_while,
  new_token, is_name, is_plain, not_quote, parse_variable_name, close_quote, lex_quote,
  lex_variable, behind_one, next_token, link, tokenize_loop, tokenize,
}

abbrev pub IsOrdinary : Token → Type 0
IsOrdinary t = (t.type ≢ eof) × (t.type ≢ squote)

abbrev pub AreOrdinary : List Token → Type 0
AreOrdinary [] = Unit {0}
AreOrdinary (t ∷ ts) = IsOrdinary t × AreOrdinary ts

-- A round leaves no more than the bytes behind its first, and a token of the inner types.
abbrev IsRound : ℕ → Lexed → Type 0
IsRound n (lexed t state rest) = (length rest ≤ n) × (t.type ≢ eof) × (t.type ≢ squote)
IsRound n unclosed = Unit {0}

length-drop_while : (p : ℕ → Bool) (s : Bytes) → length (drop_while p s) ≤ length s
unfolding drop_while
length-drop_while p [] = omega arith
length-drop_while p (c ∷ s) = ground (arith, length-drop_while p s)

close_quote-IsRound :
    (state : TokenizerState) (body s : Bytes) (n : ℕ)
    → length s ≤ n
    → IsRound n (close_quote state body s)
unfolding close_quote
close_quote-IsRound state body [] n h = tt
close_quote-IsRound state body (c ∷ s) n h = (omega arith, (λ e. cc), (λ e. cc))

lex_quote-IsRound : (state : TokenizerState) (s : Bytes) → IsRound (length s) (lex_quote state s)
unfolding lex_quote
lex_quote-IsRound in_dquote s = (omega arith, (λ e. cc), (λ e. cc))
lex_quote-IsRound normal s =
    close_quote-IsRound normal _ (drop_while not_quote s) (length s) (length-drop_while not_quote s)

variable_name-rest :
    (s name rest : Bytes) → parse_variable_name s ≡ some (name, rest) → length rest ≤ length s
unfolding parse_variable_name
variable_name-rest [] name rest e = cc
variable_name-rest (c ∷ s) name rest e = ground (arith, length-drop_while is_name s)

lex_variable-IsRound :
    (state : TokenizerState) (s : Bytes) → IsRound (length s) (lex_variable state s)
lex_variable-IsRound state s = elim (Option-cases (parse_variable_name s)) [
  | inl e ↦ unfold lex_variable in rw (e, lex_variable) (omega arith, (λ h. cc), (λ h. cc))
  | inr ((name, rest), e) ↦
      unfold lex_variable in
      rw (e, lex_variable) (variable_name-rest s name rest e, (λ h. cc), (λ h. cc))
]

length-behind_one : (s : Bytes) → length (behind_one s) ≤ length s
unfolding behind_one
length-behind_one [] = omega arith
length-behind_one (c ∷ s) = omega arith

is_plain-rest :
    (c : ℕ) (s : Bytes) → is_plain c ≡ true → length (drop_while is_plain (c ∷ s)) ≤ length s
is_plain-rest c s h =
    let step : drop_while is_plain (c ∷ s) ≡ drop_while is_plain s = unfold drop_while in rw h in
    rw step (length-drop_while is_plain s)

pub word_start :
    (state : TokenizerState) (c : ℕ) (s : Bytes)
    → is_plain c ≡ true
    → next_token state c s
      ≡ lexed (new_token word (take_while is_plain (c ∷ s))) state (drop_while is_plain (c ∷ s))
unfolding next_token is_plain
word_start state c s h = ground arith

special_start :
    (state : TokenizerState) (c : ℕ) (s : Bytes)
    → is_plain c ≡ false
    → IsRound (length s) (next_token state c s)
unfolding next_token
special_start state c s h = ground (
  arith,
  length-drop_while is_space s,
  length-behind_one s,
  lex_quote-IsRound state s,
  lex_variable-IsRound state s,
)

-- What is no space, no operator, no quote and no dollar sign is a plain character.
next_token-IsRound :
    (state : TokenizerState) (c : ℕ) (s : Bytes) → IsRound (length s) (next_token state c s)
next_token-IsRound state c s = elim (Bool-cases (is_plain c)) [
  | inl e ↦
      rw (word_start state c s e) (unfold new_token in (is_plain-rest c s e, (λ h. cc), (λ h. cc)))
  | inr e ↦ special_start state c s e
]

-- The error, or ordinary tokens and then the one for the end.
abbrev pub IsTokenized : Tokens → Type 0
IsTokenized r =
    (r ≡ failed)
    ⊎ ((ts : List Token) × (r ≡ tokens (ts ++ (record { type = eof; value = codes "EOF" } ∷ [])))
        × AreOrdinary ts)

link-IsTokenized : (t : Token) (r : Tokens) → IsOrdinary t → IsTokenized r → IsTokenized (link t r)
link-IsTokenized t r h (inl e) = inl (ap (link t) e ∙ unfold link in refl)
link-IsTokenized t r h (inr (ts, e, all)) =
    inr (t ∷ ts, ap (link t) e ∙ unfold link in refl, (h, all))

linked :
    (fuel : ℕ) (state : TokenizerState) (c : ℕ) (s : Bytes) (t : Token) (state' : TokenizerState)
    (rest : Bytes)
    → next_token state c s ≡ lexed t state' rest
    → tokenize_loop (suc fuel) state (c ∷ s) ≡ link t (tokenize_loop fuel state' rest)
unfolding tokenize_loop
linked fuel state c s t state' rest e = rw (e, tokenize_loop)

-- A round, and the loop behind it.
loop_round :
    (fuel : ℕ) (state : TokenizerState) (c : ℕ) (s : Bytes) (round : Lexed)
    → next_token state c s ≡ round
    → IsRound (length s) round
    → ((state' : TokenizerState) (rest : Bytes)
        → length rest ≤ length s
        → IsTokenized (tokenize_loop fuel state' rest))
    → IsTokenized (tokenize_loop (suc fuel) state (c ∷ s))
loop_round fuel state c s unclosed e h next = inl (unfold tokenize_loop in rw (e, tokenize_loop))
loop_round fuel state c s (lexed t state' rest) e h next =
    subst IsTokenized (sym (linked fuel state c s t state' rest e))
      (link-IsTokenized t (tokenize_loop fuel state' rest) (h.1, h.2) (next state' rest h.0))

tokenize_loop-IsTokenized :
    (fuel : ℕ) (state : TokenizerState) (s : Bytes)
    → length s ≤ fuel
    → IsTokenized (tokenize_loop fuel state s)
tokenize_loop-IsTokenized fuel state [] l = inr ([], unfold tokenize_loop new_token in refl, tt)
tokenize_loop-IsTokenized zero state (c ∷ s) l = elim l [ ]
tokenize_loop-IsTokenized (suc fuel) state (c ∷ s) l =
    loop_round fuel state c s (next_token state c s) refl (next_token-IsRound state c s)
      λ state' rest h. tokenize_loop-IsTokenized fuel state' rest (omega arith)

-- On every input tokenize gives the error, or tokens of which the last is TOKEN_EOF and no other
-- is, and none is TOKEN_SQUOTE.
pub tokenize-IsTokenized : (s : Bytes) → IsTokenized (tokenize s)
unfolding tokenize
tokenize-IsTokenized s = tokenize_loop-IsTokenized (length s) normal s (omega arith)
