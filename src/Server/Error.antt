-- ===== src/Server/Error.antt =====
-- include/webcrown/server/error.hpp: the errors of the server, of its service and of its sessions,
-- as codes of asio.
use webcrown.Base.{ℕ, ◌%◌, ◌^◌, Bytes, codes, ◌==◌, if◌then◌else◌, ◌≡◌, refl}
use webcrown.Server.Session.{SessionError}
use webcrown.Server.Registry.{ServerError, ServiceError}

-- The underlying values.
unfoldable pub server_error_value : ServerError → ℕ
server_error_value ServerError.unknown = 0
server_error_value ServerError.server_already_started = 1
server_error_value ServerError.server_not_started = 2
server_error_value ServerError.create_endpoint_fail = 3

unfoldable pub service_error_value : ServiceError → ℕ
service_error_value ServiceError.unknown = 0
service_error_value ServiceError.service_not_started = 1
service_error_value ServiceError.service_already_started = 2

unfoldable pub session_error_value : SessionError → ℕ
session_error_value SessionError.unknown = 0
session_error_value SessionError.sent_bytes_is_zero = 1
session_error_value SessionError.sent_buffer_is_nullptr = 2
session_error_value SessionError.not_connected = 3

pub data ErrorCategory : Type 0 where
  server_category service_category session_category : ErrorCategory

unfoldable pub category_name : ErrorCategory → Bytes
category_name ErrorCategory.server_category = codes "webcrown_server_error"
category_name ErrorCategory.service_category = codes "webcrown_service_error"
category_name ErrorCategory.session_category = codes "webcrown_session_error"

-- The texts of the three categories, for a `uint8_t`.
unfoldable pub server_text : ℕ → Bytes
server_text v =
    if v == 1
    then codes "Server is already started"
    else if v == 2
    then codes "Server is not started"
    else codes "Unknown server error"

unfoldable pub service_text : ℕ → Bytes
service_text v =
    if v == 1
    then codes "Service is not started"
    else if v == 2
    then codes "Service is already started"
    else codes "Unknown service error"

unfoldable pub session_text : ℕ → Bytes
session_text v = if v == 1 then codes "You are sending zero bytes" else codes "Unknown error"

-- `message`, which casts its `int` to the enumeration.
unfoldable pub category_message : ErrorCategory → ℕ → Bytes
unfolding server_text service_text session_text
category_message ErrorCategory.server_category ec = server_text (ec % 2 ^ 8)
category_message ErrorCategory.service_category ec = service_text (ec % 2 ^ 8)
category_message ErrorCategory.session_category ec = session_text (ec % 2 ^ 8)

-- `asio::error_code`
pub record AsioErrorCode : Type 0 where
  pub value : ℕ
  pub category : ErrorCategory

-- For each of the three enumerations the template has the category of the server's errors.
unfoldable pub make_error : ℕ → AsioErrorCode
make_error ec = record { value = ec; category = ErrorCategory.server_category }

abbrev text_of : AsioErrorCode → Bytes
text_of e = category_message e.category e.value

-- A service that is not started says that the server is.
service_not_started_text :
    text_of (make_error (service_error_value ServiceError.service_not_started))
    ≡ codes "Server is already started"
unfolding make_error service_error_value category_message
service_not_started_text = refl

zero_bytes_text :
    text_of (make_error (session_error_value SessionError.sent_bytes_is_zero))
    ≡ codes "Server is already started"
unfolding make_error session_error_value category_message
zero_bytes_text = refl
