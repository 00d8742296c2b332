-- ===== src/Shell/Source/Lexing.antt =====
-- The tokenizer reads what is written of a command line as the tokens of the line.
use barcelona.Base.{
  ℕ, zero, suc, ◌≤◌, ◌≡◌, refl, ap, ◌∙◌, true, some, List, [], ◌∷◌, ◌++◌, arith, length,
  length-append,
}
use barcelona.Base.Text.{Bytes, is_space}
use barcelona.Base.Number.{drop_while}
use barcelona.Shell.{
  Token, word, variable, RedirectType, input, output, append_output, here_document,
}
use barcelona.Shell.Tokenizer.{
  TokenizerState, normal, lexed, tokens, new_token, is_name, is_plain, not_quote,
  parse_variable_name, close_quote, lex_quote, lex_variable, next_token, toggle, link,
  tokenize_loop, take_while,
}
use barcelona.Shell.Grammar.{space_token, pipe_token, dquote_token, operator}
use barcelona.Shell.Source.{AreAll, HeadFails, IsVariable, IsWord}
use barcelona.Shell.Source.Scanning.{
  take_while-all, drop_while-all, drop_while-stop, parse_variable_name-all,
}

-- With fuel for its bytes, the loop reads an input as these tokens.
abbrev pub Reads : TokenizerState → Bytes → List Token → Type 0
Reads state s ts = (fuel : ℕ) → length s ≤ fuel → tokenize_loop fuel state s ≡ tokens ts

link_step :
    (fuel : ℕ) (state state' : TokenizerState) (c : ℕ) (s rest : Bytes) (t : Token)
    (ts : List Token)
    → next_token state c s ≡ lexed t state' rest
    → tokenize_loop fuel state' rest ≡ tokens ts
    → tokenize_loop (suc fuel) state (c ∷ s) ≡ tokens (t ∷ ts)
unfolding tokenize_loop link
link_step fuel state state' c s rest t ts e r = rw (e, tokenize_loop) (rw r)

-- A round that takes one token.
read_step :
    (state state' : TokenizerState) (c : ℕ) (s rest : Bytes) (t : Token) (ts : List Token)
    → next_token state c s ≡ lexed t state' rest
    → length rest ≤ length s
    → Reads state' rest ts
    → Reads state (c ∷ s) (t ∷ ts)
read_step state state' c s rest t ts e l r zero h = elim h [ ]
read_step state state' c s rest t ts e l r (suc fuel) h =
    link_step fuel state state' c s rest t ts e (r fuel (omega arith))

quote_all :
    (w s : Bytes)
    → AreAll not_quote w
    → next_token normal 39 (w ++ (39 ∷ s)) ≡ lexed (new_token word w) normal s
quote_all w s h =
    unfold next_token lex_quote in
    ap (λ body. close_quote normal body (drop_while not_quote (w ++ (39 ∷ s))))
      (take_while-all not_quote w (39 ∷ s) h (unfold not_quote in refl))
    ∙ ap (close_quote normal w) (drop_while-all not_quote w (39 ∷ s) h (unfold not_quote in refl))
    ∙ unfold close_quote in refl

pub read_quote :
    (w s : Bytes) (ts : List Token)
    → AreAll not_quote w
    → Reads normal s ts
    → Reads normal (39 ∷ (w ++ (39 ∷ s))) (record { type = word; value = w } ∷ ts)
unfolding new_token
read_quote w s ts h r =
    read_step normal normal 39 (w ++ (39 ∷ s)) s _ ts (quote_all w s h)
      (omega (arith, length-append {0} w (39 ∷ s))) r

dollar : (state : TokenizerState) (s : Bytes) → next_token state b'$' s ≡ lex_variable state s
unfolding next_token
dollar state s = refl

variable_all :
    (state : TokenizerState) (v s : Bytes)
    → parse_variable_name (v ++ s) ≡ some (v, s)
    → lex_variable state (v ++ s) ≡ lexed (new_token variable v) state s
unfolding lex_variable
variable_all state v s e = rw (e, lex_variable)

dollar_all :
    (state : TokenizerState) (v s : Bytes)
    → IsVariable v
    → HeadFails is_name s
    → next_token state b'$' (v ++ s) ≡ lexed (new_token variable v) state s
dollar_all state v s h e =
    dollar state (v ++ s) ∙ variable_all state v s (parse_variable_name-all v s h e)

word_start :
    (state : TokenizerState) (c : ℕ) (s : Bytes)
    → is_plain c ≡ true
    → next_token state c s
      ≡ lexed (new_token word (take_while is_plain (c ∷ s))) state (drop_while is_plain (c ∷ s))
unfolding next_token is_plain
word_start state c s h = ground arith

pub read_variable :
    (state : TokenizerState) (v s : Bytes) (ts : List Token)
    → IsVariable v
    → HeadFails is_name s
    → Reads state s ts
    → Reads state (b'$' ∷ (v ++ s)) (record { type = variable; value = v } ∷ ts)
unfolding new_token
read_variable state v s ts h e r =
    read_step state state b'$' (v ++ s) s _ ts (dollar_all state v s h e)
      (omega (arith, length-append {0} v s)) r

pub read_word :
    (state : TokenizerState) (w s : Bytes) (ts : List Token)
    → IsWord w
    → HeadFails is_plain s
    → Reads state s ts
    → Reads state (w ++ s) (record { type = word; value = w } ∷ ts)
read_word state [] s ts h e r = absurd h
read_word state (c ∷ w) s ts h e r =
    read_step state state c (w ++ s) s _ ts
      (word_start state c (w ++ s) h.0
        ∙ rw (take_while-all is_plain (c ∷ w) s h e, drop_while-all is_plain (c ∷ w) s h e)
            (unfold new_token in refl))
      (omega (arith, length-append {0} w s)) r

space_next :
    (state : TokenizerState) (s : Bytes)
    → next_token state b' ' s ≡ lexed space_token state (drop_while is_space s)
unfolding next_token new_token
space_next state s = refl

pub read_space :
    (state : TokenizerState) (s : Bytes) (ts : List Token)
    → HeadFails is_space s
    → Reads state s ts
    → Reads state (b' ' ∷ s) (space_token ∷ ts)
read_space state s ts e r =
    read_step state state b' ' s s _ ts
      (space_next state s ∙ ap (lexed space_token state) (drop_while-stop is_space s e))
      (omega arith) r

pub read_dquote :
    (state : TokenizerState) (s : Bytes) (ts : List Token)
    → Reads (toggle state) s ts
    → Reads state (b'"' ∷ s) (dquote_token ∷ ts)
read_dquote state s ts r =
    read_step state (toggle state) b'"' s s _ ts (unfold next_token new_token in refl) (omega arith)
      r

pub read_pipe :
    (s : Bytes) (ts : List Token) → Reads normal s ts → Reads normal (b'|' ∷ s) (pipe_token ∷ ts)
read_pipe s ts r =
    read_step normal normal b'|' s s _ ts (unfold next_token new_token in refl) (omega arith) r

-- An operator of redirection, in front of a single quote.
pub read_operator :
    (type : RedirectType) (s : Bytes) (ts : List Token)
    → Reads normal (39 ∷ s) ts
    → Reads normal ((operator type).value ++ (39 ∷ s)) (operator type ∷ ts)
unfolding operator
read_operator input s ts r =
    read_step normal normal b'<' (39 ∷ s) (39 ∷ s) _ ts (unfold next_token new_token in refl)
      (omega arith) r
read_operator output s ts r =
    read_step normal normal b'>' (39 ∷ s) (39 ∷ s) _ ts (unfold next_token new_token in refl)
      (omega arith) r
read_operator append_output s ts r =
    read_step normal normal b'>' (b'>' ∷ 39 ∷ s) (39 ∷ s) _ ts (unfold next_token new_token in refl)
      (omega arith) r
read_operator here_document s ts r =
    read_step normal normal b'<' (b'<' ∷ 39 ∷ s) (39 ∷ s) _ ts (unfold next_token new_token in refl)
      (omega arith) r
