-- ===== src/Shell.antt =====
-- project/minishell/include/minishell.h: the tokens, segments, redirections and commands that the
-- stages of the shell hand on. A C string is the list of its bytes in front of the terminator; a
-- linked list is a list.
pub mod Tokenizer
pub mod Parser
pub mod Expander
pub mod Grammar
pub mod Source
pub mod Builtins
pub mod Descriptors
pub mod Search
pub mod Executor
pub mod Repl
mod Tests
mod ChainTests
use barcelona.Base.{Bool, false, Option, none, List, []}
use barcelona.Base.Text.{Bytes}

pub data TokenType : Type 0 where
  word variable pipe redir_in redir_out redir_append heredoc squote dquote space eof : TokenType

pub record Token : Type 0 where
  pub type : TokenType
  pub value : Bytes

pub data SegmentType : Type 0 where
  seg_literal seg_variable seg_squote_literal seg_dquote_literal seg_dquote_var : SegmentType

pub record Segment : Type 0 where
  pub type : SegmentType
  pub value : Bytes

-- An argument is the list of its segments.
abbrev pub Argument : Type 0
Argument = List Segment

pub data RedirectType : Type 0 where
  input output append_output here_document : RedirectType

pub record Redirect : Type 0 where
  pub type : RedirectType
  pub file : Bytes

-- `argv` and `path` are pointers that may be NULL.
pub record Cmd : Type 0 where
  pub args : List Argument
  pub in_redir : List Redirect
  pub out_redir : List Redirect
  pub argv : Option (List Bytes)
  pub path : Option Bytes
  pub is_builtin : Bool

-- What calloc gives.
abbrev pub zero_cmd : Cmd
zero_cmd = record {
  args = [];
  in_redir = [];
  out_redir = [];
  argv = none;
  path = none;
  is_builtin = false;
}
