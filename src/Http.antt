-- ===== src/Http.antt =====
-- The HTTP data model: lib/common/include/Status.hpp (Method), lib/http/common (StatusCode, Request,
-- Response). Paths are below project/Webserv.
pub mod Status
use barcelona.Base.{ℕ, List, []}
use barcelona.Base.Text.{Bytes, codes}
use barcelona.Base.Dict.{Dict}
use barcelona.Base.Int.{ℤ, pos}

pub data Method : Type 0 where
  get head delete post put : Method

pub record FileBody : Type 0 where
  pub fd : ℕ
  pub size : ℕ
  pub offset : ℕ

pub data ResponseBody : Type 0 where
  bytes : Bytes → ResponseBody
  file : FileBody → ResponseBody

pub record Request : Type 0 where
  pub method : Method
  pub uri : Bytes
  pub version : Bytes
  pub headers : Dict
  pub body : Bytes

pub record Response : Type 0 where
  pub version : Bytes
  pub status_code : ℤ
  pub reason_phrase : Bytes
  pub headers : Dict
  pub body : ResponseBody

-- `Request {}`
abbrev pub default_request : Request
default_request = record {
  method = get;
  uri = codes "/";
  version = codes "HTTP/1.1";
  headers = [];
  body = [];
}

-- `Response {}`
abbrev pub default_response : Response
default_response = record {
  version = codes "HTTP/1.1";
  status_code = pos 200;
  reason_phrase = codes "OK";
  headers = [];
  body = bytes [];
}
