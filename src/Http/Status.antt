-- ===== src/Http/Status.antt =====
-- include/webcrown/server/http/status.hpp. The `default` of `make_status` serves no enumerator.
use webcrown.Base.{ℕ, Bytes, codes}

pub data HttpStatus : Type 0 where
  continue_ : HttpStatus
  switching_protocols : HttpStatus
  ok : HttpStatus
  created : HttpStatus
  accepted : HttpStatus
  non_authoritative_information : HttpStatus
  no_content : HttpStatus
  reset_content : HttpStatus
  partial_content : HttpStatus
  multiple_choices : HttpStatus
  moved_permanently : HttpStatus
  found : HttpStatus
  see_other : HttpStatus
  not_modified : HttpStatus
  use_proxy : HttpStatus
  temporary_redirect : HttpStatus
  bad_request : HttpStatus
  unauthorized : HttpStatus
  payment_required : HttpStatus
  forbidden : HttpStatus
  not_found : HttpStatus
  method_not_allowed : HttpStatus
  not_acceptable : HttpStatus
  proxy_authentication_required : HttpStatus
  request_time_out : HttpStatus
  conflict : HttpStatus
  gone : HttpStatus
  length_required : HttpStatus
  precondition_failed : HttpStatus
  request_entity_too_large : HttpStatus
  request_uri_too_large : HttpStatus
  unsupported_media_type : HttpStatus
  requested_range_not_satisfiable : HttpStatus
  expectation_failed : HttpStatus
  internal_server_error : HttpStatus
  not_implemented : HttpStatus
  bad_gateway : HttpStatus
  service_unavailable : HttpStatus
  gateway_time_out : HttpStatus
  http_version_not_supported : HttpStatus

-- The enumerators' values.
unfoldable pub status_code : HttpStatus → ℕ
status_code continue_ = 100
status_code switching_protocols = 101
status_code ok = 200
status_code created = 201
status_code accepted = 202
status_code non_authoritative_information = 203
status_code no_content = 204
status_code reset_content = 205
status_code partial_content = 206
status_code multiple_choices = 300
status_code moved_permanently = 301
status_code found = 302
status_code see_other = 303
status_code not_modified = 304
status_code use_proxy = 305
status_code temporary_redirect = 307
status_code bad_request = 400
status_code unauthorized = 401
status_code payment_required = 402
status_code forbidden = 403
status_code not_found = 404
status_code method_not_allowed = 405
status_code not_acceptable = 406
status_code proxy_authentication_required = 407
status_code request_time_out = 408
status_code conflict = 409
status_code gone = 410
status_code length_required = 411
status_code precondition_failed = 412
status_code request_entity_too_large = 413
status_code request_uri_too_large = 414
status_code unsupported_media_type = 415
status_code requested_range_not_satisfiable = 416
status_code expectation_failed = 417
status_code internal_server_error = 500
status_code not_implemented = 501
status_code bad_gateway = 502
status_code service_unavailable = 503
status_code gateway_time_out = 504
status_code http_version_not_supported = 505

-- The code and the reason phrase.
unfoldable pub make_status : HttpStatus → ℕ × Bytes
unfolding status_code
make_status continue_ = (status_code continue_, codes "Continue")
make_status switching_protocols = (status_code switching_protocols, codes "Switching Protocols")
make_status ok = (status_code ok, codes "OK")
make_status created = (status_code created, codes "Created")
make_status accepted = (status_code accepted, codes "Accepted")
make_status non_authoritative_information =
    (status_code non_authoritative_information, codes "Non-Authoritative Information")
make_status no_content = (status_code no_content, codes "No Content")
make_status reset_content = (status_code reset_content, codes "Reset Content")
make_status partial_content = (status_code partial_content, codes "Partial Content")
make_status multiple_choices = (status_code multiple_choices, codes "Multiple Choices")
make_status moved_permanently = (status_code moved_permanently, codes "Moved Permanently")
make_status found = (status_code found, codes "Found")
make_status see_other = (status_code see_other, codes "See Other")
make_status not_modified = (status_code not_modified, codes "Not Modified")
make_status use_proxy = (status_code use_proxy, codes "Use Proxy")
make_status temporary_redirect = (status_code temporary_redirect, codes "Temporary Redirect")
make_status bad_request = (status_code bad_request, codes "Bad Request")
make_status unauthorized = (status_code unauthorized, codes "Unauthorized")
make_status payment_required = (status_code payment_required, codes "Payment Required")
make_status forbidden = (status_code forbidden, codes "Forbidden")
make_status not_found = (status_code not_found, codes "Not Found")
make_status method_not_allowed = (status_code method_not_allowed, codes "Method Not Allowed")
make_status not_acceptable = (status_code not_acceptable, codes "Not Acceptable")
make_status proxy_authentication_required =
    (status_code proxy_authentication_required, codes "Proxy Authentication Required")
make_status request_time_out = (status_code request_time_out, codes "Request Timeout")
make_status conflict = (status_code conflict, codes "Conflict")
make_status gone = (status_code gone, codes "Gone")
make_status length_required = (status_code length_required, codes "Length Required")
make_status precondition_failed = (status_code precondition_failed, codes "Precondition Failed")
make_status request_entity_too_large =
    (status_code request_entity_too_large, codes "Payload Too Large")
make_status request_uri_too_large = (status_code request_uri_too_large, codes "URI Too Long")
make_status unsupported_media_type =
    (status_code unsupported_media_type, codes "Unsupported Media Type")
make_status requested_range_not_satisfiable =
    (status_code requested_range_not_satisfiable, codes "Range Not Satisfiable")
make_status expectation_failed = (status_code expectation_failed, codes "Expectation Failed")
make_status internal_server_error =
    (status_code internal_server_error, codes "Internal Server Error")
make_status not_implemented = (status_code not_implemented, codes "Not Implemented")
make_status bad_gateway = (status_code bad_gateway, codes "Bad Gateway")
make_status service_unavailable = (status_code service_unavailable, codes "Service Unavailable")
make_status gateway_time_out = (status_code gateway_time_out, codes "Gateway Timeout")
make_status http_version_not_supported =
    (status_code http_version_not_supported, codes "HTTP Version Not Supported")
