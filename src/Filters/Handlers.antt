-- ===== src/Filters/Handlers.antt =====
-- src/core/filters/handlers, base/base-error.handler.ts and interfaces/error-response.interface.ts.
pub mod Codes
pub mod Validation
use nestjs_starter.Prelude.{
  ℕ, String, str_eq, Bool, true, false, ◌&&◌, ◌||◌, Option, none, some, List, [], ◌∷◌, ◌++◌, find,
  leb, or_else, if◌then◌else◌,
}
use nestjs_starter.Cache.Keys.{decimal}
use nestjs_starter.Filters.Handlers.Codes.{
  DbErrorMapping, error_code_map, default_mapping, code_messages,
}

-- a text, or a list of texts
pub data Messages : Type 0 where
  one : String → Messages
  many : List String → Messages

pub data Details : Type 0 where
  text : String → Details
  -- `{ code }`
  code_field_of : Option String → Details

pub record ErrorContext : Type 0 where
  pub timestamp : ℕ
  pub path : Option String
  pub method : Option String
  pub details : Option Details
  pub stack : Option String

pub record ErrorResponse : Type 0 where
  pub status_code : ℕ
  pub error : String
  pub message : Messages
  pub context : Option ErrorContext

-- nested errors of class-validator: the values of `constraints`, none where one is no text
mutual
  pub data ValidationError : Type 0 where
    validation_error : List (Option String) → ValidationErrors → ValidationError

  pub data ValidationErrors : Type 0 where
    no_errors : ValidationErrors
    error_then : ValidationError → ValidationErrors → ValidationErrors

-- what `getResponse` of an HTTP exception returns
pub record Payload : Type 0 where
  pub error : Option String
  pub message : Option Messages
  pub data_field : Option Details
  pub code_field : Option Details

pub data Body : Type 0 where
  string_body : String → Body
  object_body : Payload → Body

pub record DriverError : Type 0 where
  pub code : Option String
  pub errno : Option ℕ

-- what the class of an error adds
pub data Class : Type 0 where
  plain_error : Class
  query_failed : Option DriverError → Class
  -- the status, and the response
  http_exception : ℕ → Body → Class
  -- an HTTP exception with nested errors
  i18n_exception : ℕ → Body → ValidationErrors → Class

pub record ErrorFields : Type 0 where
  pub name : String
  pub message : String
  pub code : Option String
  pub stack : Option String

pub data Exception : Type 0 where
  instance_of_error : ErrorFields → Class → Exception
  other_value : String → Exception

abbrev pub stack_of : Exception → Option String
stack_of (instance_of_error e c) = e.stack
stack_of (other_value s) = none

-- `error instanceof Error ? error.message : String(error)`
abbrev pub text_of : Exception → String
text_of (instance_of_error e c) = e.message
text_of (other_value s) = s

-- `buildResponse`
abbrev pub build_response : ℕ → ℕ → String → Messages → Option Details → ErrorResponse
build_response now status_code error message details = record {
  status_code = status_code;
  error = error;
  message = message;
  context =
      some
        (record { timestamp = now; path = none; method = none; details = details; stack = none });
}

pub data Handler : Type 0 where
  multer jwt typeorm i18n_validation http fallback : Handler

abbrev pub is_jwt_name : String → Bool
is_jwt_name name =
    str_eq name "JsonWebTokenError"
    || str_eq name "TokenExpiredError"
    || str_eq name "NotBeforeError"

abbrev pub is_query_failed : Class → Bool
is_query_failed (query_failed d) = true
is_query_failed _ = false

abbrev pub is_i18n : Class → Bool
is_i18n (i18n_exception s body nested) = true
is_i18n _ = false

-- an `I18nValidationException` is an `HttpException`
abbrev pub is_http : Class → Bool
is_http (i18n_exception s body nested) = true
is_http (http_exception s body) = true
is_http _ = false

abbrev pub can_handle : Handler → Exception → Bool
can_handle fallback e = true
can_handle multer (instance_of_error e c) = str_eq e.name "MulterError"
can_handle jwt (instance_of_error e c) = is_jwt_name e.name
can_handle typeorm (instance_of_error e c) = is_query_failed c
can_handle i18n_validation (instance_of_error e c) = is_i18n c
can_handle http (instance_of_error e c) = is_http c
can_handle _ (other_value s) = false

-- `a || b` on texts
abbrev pub or_text : String → String → String
or_text a b = if str_eq a "" then b else a

-- the entry under a key
abbrev pub entry : {A : Type 0} → String → List (String × A) → Option A
entry key [] = none
entry key ((k, a) ∷ rest) = if str_eq key k then some a else entry key rest

abbrev pub entry_of : {A : Type 0} → Option String → List (String × A) → Option A
entry_of none rows = none
entry_of (some key) rows = entry key rows

abbrev pub handle_multer : ℕ → ErrorFields → ErrorResponse
handle_multer now e =
    build_response now 400 (or_else e.code "UPLOAD_ERROR")
      (one (or_else (entry_of e.code code_messages) (or_text e.message "File upload error"))) none

abbrev pub jwt_code : Bool → String
jwt_code true = "TOKEN_EXPIRED"
jwt_code false = "TOKEN_INVALID"

abbrev pub jwt_message : Bool → String
jwt_message true = "Token has expired"
jwt_message false = "Invalid token signature"

abbrev pub handle_jwt : ℕ → ErrorFields → ErrorResponse
handle_jwt now e =
    let is_expired = str_eq e.name "TokenExpiredError" in
    build_response now 401 (jwt_code is_expired) (one (jwt_message is_expired))
      (some (text (jwt_code is_expired)))

-- `errno?.toString()`
abbrev pub errno_text : Option ℕ → Option String
errno_text none = none
errno_text (some n) = some (decimal n)

abbrev pub either_text : Option String → Option String → Option String
either_text none b = b
either_text (some a) b = some a

-- `driverError?.code ?? driverError?.errno?.toString()`
abbrev pub driver_code : Option DriverError → Option String
driver_code none = none
driver_code (some d) = either_text d.code (errno_text d.errno)

-- `mapping.statusCode >= 500 ? 'DATABASE_ERROR' : mapping.error`
abbrev pub exposed_error : DbErrorMapping → String
exposed_error mapping = if leb 500 mapping.status_code then "DATABASE_ERROR" else mapping.error

abbrev pub handle_typeorm : ℕ → Option DriverError → ErrorResponse
handle_typeorm now driver_error =
    let mapping = or_else (entry_of (driver_code driver_error) error_code_map) default_mapping in
    build_response now mapping.status_code (exposed_error mapping) (one mapping.message)
      (some (code_field_of (driver_code driver_error)))

abbrev pub texts : List (Option String) → List String → List String
texts [] out = out
texts (none ∷ rest) out = texts rest out
texts (some message ∷ rest) out = texts rest (out ++ message ∷ [])

-- `walk`, from the messages so far to the messages behind it
pub walk : ValidationErrors → List String → List String
walk no_errors out = out
walk (error_then (validation_error constraints children) rest) out =
    walk rest (walk children (texts constraints out))

pub flatten_messages : ValidationErrors → List String
flatten_messages nested = walk nested []

-- `messages.length === 1 ? messages[0] : messages`
abbrev pub single : List String → Messages
single (message ∷ []) = one message
single messages = many messages

abbrev pub handle_i18n : ℕ → ℕ → ValidationErrors → ErrorResponse
handle_i18n now status nested =
    build_response now status "BAD_REQUEST" (single (flatten_messages nested)) none

abbrev pub payload_of : Body → Payload
payload_of (object_body payload) = payload
payload_of (string_body raw) = record {
  error = none;
  message = some (one raw);
  data_field = none;
  code_field = none;
}

abbrev pub unwrapped : Messages → Messages
unwrapped (one message) = one message
unwrapped (many messages) = single messages

abbrev pub extract_message : Payload → ErrorFields → Messages
extract_message payload e = unwrapped (or_else payload.message (one e.message))

abbrev pub either_details : Option Details → Option Details → Option Details
either_details none b = b
either_details (some a) b = some a

abbrev pub handle_http : ℕ → ErrorFields → ℕ → Body → ErrorResponse
handle_http now e status body =
    let payload = payload_of body in
    build_response now status (or_else payload.error e.name) (extract_message payload e)
      (either_details payload.data_field payload.code_field)

abbrev pub handle_fallback : ℕ → Exception → ErrorResponse
handle_fallback now e =
    build_response now 500 "INTERNAL_SERVER_ERROR" (one "An unexpected error occurred")
      (some (text (text_of e)))

-- none where the exception is not of the class that the handler takes
abbrev pub handle : ℕ → Handler → Exception → Option ErrorResponse
handle now fallback e = some (handle_fallback now e)
handle now multer (instance_of_error e c) = some (handle_multer now e)
handle now jwt (instance_of_error e c) = some (handle_jwt now e)
handle now typeorm (instance_of_error e (query_failed d)) = some (handle_typeorm now d)
handle now i18n_validation (instance_of_error e (i18n_exception status body nested)) =
    some (handle_i18n now status nested)
handle now http (instance_of_error e (http_exception status body)) =
    some (handle_http now e status body)
handle now http (instance_of_error e (i18n_exception status body nested)) =
    some (handle_http now e status body)
handle now _ _ = none
