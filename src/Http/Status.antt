-- ===== src/Http/Status.antt =====
-- http::StatusCode and its numbers, lib/http/common/include/http/common/HttpStatus.hpp.
use barcelona.Base.{ℕ}

pub data StatusCode : Type 0 where
  continue : StatusCode
  switching_protocols : StatusCode
  ok : StatusCode
  created : StatusCode
  accepted : StatusCode
  non_authoritative_information : StatusCode
  no_content : StatusCode
  reset_content : StatusCode
  multiple_choices : StatusCode
  moved_permanently : StatusCode
  found : StatusCode
  see_other : StatusCode
  not_modified : StatusCode
  use_proxy : StatusCode
  temporary_redirect : StatusCode
  permanent_redirect : StatusCode
  bad_request : StatusCode
  unauthorized : StatusCode
  payment_required : StatusCode
  forbidden : StatusCode
  not_found : StatusCode
  method_not_allowed : StatusCode
  not_acceptable : StatusCode
  request_timeout : StatusCode
  conflict : StatusCode
  gone : StatusCode
  length_required : StatusCode
  payload_too_large : StatusCode
  uri_too_long : StatusCode
  unsupported_media_type : StatusCode
  expectation_failed : StatusCode
  upgrade_required : StatusCode
  internal_server_error : StatusCode
  not_implemented : StatusCode
  bad_gateway : StatusCode
  service_unavailable : StatusCode
  gateway_timeout : StatusCode
  http_version_not_supported : StatusCode

-- `magic_enum::enum_integer(code)`, the conversion to the underlying type.
unfoldable pub enum_integer : StatusCode → ℕ
enum_integer continue = 100
enum_integer switching_protocols = 101
enum_integer ok = 200
enum_integer created = 201
enum_integer accepted = 202
enum_integer non_authoritative_information = 203
enum_integer no_content = 204
enum_integer reset_content = 205
enum_integer multiple_choices = 300
enum_integer moved_permanently = 301
enum_integer found = 302
enum_integer see_other = 303
enum_integer not_modified = 304
enum_integer use_proxy = 305
enum_integer temporary_redirect = 307
enum_integer permanent_redirect = 308
enum_integer bad_request = 400
enum_integer unauthorized = 401
enum_integer payment_required = 402
enum_integer forbidden = 403
enum_integer not_found = 404
enum_integer method_not_allowed = 405
enum_integer not_acceptable = 406
enum_integer request_timeout = 408
enum_integer conflict = 409
enum_integer gone = 410
enum_integer length_required = 411
enum_integer payload_too_large = 413
enum_integer uri_too_long = 414
enum_integer unsupported_media_type = 415
enum_integer expectation_failed = 417
enum_integer upgrade_required = 426
enum_integer internal_server_error = 500
enum_integer not_implemented = 501
enum_integer bad_gateway = 502
enum_integer service_unavailable = 503
enum_integer gateway_timeout = 504
enum_integer http_version_not_supported = 505
