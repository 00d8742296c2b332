-- ===== src/RequestParser.antt =====
-- lib/http/protocol/src/RequestParser.cc: the incremental request parser, its state and its steps.
-- `Outcome` is what a step leaves behind: a value, a status code, or a fault that C++ does not
-- define or that ends the process. magic_enum's cast to a method is a parameter.
pub mod RequestLine
pub mod Headers
pub mod Chunked
pub mod Loop
pub mod Total
pub mod Progress
pub mod Segments
pub mod Splitting
pub mod LastChunk
pub mod Valid
pub mod Safety
mod Tests
use barcelona.Base.{ℕ, Bool, true, false, List, [], ◌∷◌}
use barcelona.Base.Text.{Bytes}
use barcelona.Http.{Request, default_request}
use barcelona.Http.Status.{StatusCode}

pub data Step : Type 0 where
  request_line headers body chunked_body chunked_trailer completed : Step

pub data ParseResult : Type 0 where
  success incomplete : ParseResult

-- IRequestParser::State
pub data State : Type 0 where
  parsing finished : State

pub record Parser : Type 0 where
  pub chunk_size_remaining : ℕ
  pub step : Step
  pub max_body_size : ℕ
  pub client_wants_keep_alive : Bool
  pub buffer : Bytes
  pub request : Request

-- `back()` of an empty string, or an exception that no handler on the path catches.
pub data Fault : Type 0 where
  back_of_empty uncaught_exception : Fault

pub data Outcome (A : Type 0) : Type 0 where
  ok : A → Parser → Outcome A
  err : StatusCode → Parser → Outcome A
  fault : Fault → Outcome A

infixl 5 ◌>>=◌
abbrev pub ◌>>=◌ : {A B : Type 0} → Outcome A → (A → Parser → Outcome B) → Outcome B
ok a p >>= f = f a p
err c p >>= f = err c p
fault e >>= f = fault e

abbrev pub crlf : Bytes
crlf = 13 ∷ 10 ∷ []

abbrev pub double_crlf : Bytes
double_crlf = 13 ∷ 10 ∷ 13 ∷ 10 ∷ []

-- `reset()`: everything but the limit.
unfoldable pub reset : Parser → Parser
reset p = record {
  chunk_size_remaining = 0;
  step = Step.request_line;
  max_body_size = p.max_body_size;
  client_wants_keep_alive = false;
  buffer = [];
  request = default_request;
}

-- The constructor.
abbrev pub new_parser : ℕ → Parser
new_parser max = record {
  chunk_size_remaining = 0;
  step = Step.request_line;
  max_body_size = max;
  client_wants_keep_alive = false;
  buffer = [];
  request = default_request;
}
