-- ===== src/Http/Error.antt =====
-- include/webcrown/server/http/error.hpp. An `std::error_code` that is clear is `none`.
use webcrown.Base.{Bytes, codes, Option, none, some, Bool, true, false}

pub data HttpError : Type 0 where
  unknown incomplete_start_line invalid_request_line incomplete_message_header : HttpError
  invalid_message_header_crlf bad_method bad_target bad_version bad_field : HttpError
  bad_field_value content_type_not_implemented no_boundary_header_for_multipart : HttpError
  need_more : HttpError

abbrev pub ErrorCode : Type 0
ErrorCode = Option HttpError

-- `if (ec)`
unfoldable pub is_set : ErrorCode → Bool
is_set none = false
is_set (some e) = true

-- `make_error`
unfoldable pub make_error : HttpError → ErrorCode
make_error e = some e

-- `http_error_category::message`
unfoldable pub message : HttpError → Bytes
message incomplete_start_line = codes "http incomplete start line"
message invalid_request_line = codes "http invalid request line"
message incomplete_message_header = codes "http incomplete message header"
message invalid_message_header_crlf = codes "http invalid message header crlf"
message bad_method = codes "http bad get_method"
message bad_target = codes "http bad target"
message bad_version = codes "http bad version"
message bad_field = codes "http bad field"
message bad_field_value = codes "http bad field value"
message content_type_not_implemented = codes "http content-type unsupported"
message no_boundary_header_for_multipart = codes "no_boundary_header_for_multipart"
message unknown = codes "unknown webcrown_http http error"
message need_more = codes "unknown webcrown_http http error"
