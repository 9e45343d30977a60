-- ===== src/Filters.antt =====
-- src/core/filters: from a thrown value to the response. A thrown value is an error, with what its
-- class adds, or any other value, of which only its text counts. A handler's `handle` is none where
-- it would throw. Looking a code up in a table finds the table's own entries only.
pub mod Handlers
pub mod Exposure
mod Tests
use Prim.Native.Char.{code as code_of_char}
use Prim.Native.String.{[] as nil, ◌∷◌ as char_then}
use nestjs_starter.Prelude.{
  ℕ, String, str_eq, Bool, true, false, not, ◌&&◌, Option, none, some, List, [], ◌∷◌, ◌==◌, find,
  or_else, if◌then◌else◌,
}
use nestjs_starter.Filters.Handlers.{
  Exception, ErrorResponse, ErrorContext, Handler, multer, jwt, typeorm, i18n_validation, http,
  fallback, can_handle, handle, text_of, one, text, stack_of,
}

-- `getHandler`
pub get_handler : Exception → Handler
get_handler e =
    or_else (find (λ h. can_handle h e) (multer ∷ jwt ∷ typeorm ∷ i18n_validation ∷ http ∷ []))
      fallback

pub record HttpRequest : Type 0 where
  pub url : String
  pub method : String
  -- the header `x-developer-mode`
  pub developer_mode : Option String

-- the response when the handler itself threw
abbrev pub handler_failed : ℕ → String → ErrorResponse
handler_failed now message = record {
  status_code = 500;
  error = "INTERNAL_SERVER_ERROR";
  message = one "An unexpected error occurred";
  context = some (record {
    timestamp = now;
    path = none;
    method = none;
    details = some (text message);
    stack = none;
  });
}

-- `message` is what the handler would have thrown
pub resolve_response : ℕ → String → Exception → ErrorResponse
resolve_response now message e = or_else (handle now (get_handler e) e) (handler_failed now message)

pub strip_query : String → String
strip_query nil = nil
strip_query (char_then c s) =
    let rest = strip_query s in if code_of_char c == b'?' then nil else char_then c rest

abbrev pub context_or_new : ℕ → Option ErrorContext → ErrorContext
context_or_new now (some context) = context
context_or_new now none = record {
  timestamp = now;
  path = none;
  method = none;
  details = none;
  stack = none;
}

-- `error.stack` where there is a text
abbrev pub or_stack : Option String → Option String → Option String
or_stack none old = old
or_stack (some s) old = if str_eq s "" then old else some s

pub enrich_context : ℕ → HttpRequest → Exception → ErrorResponse → ErrorResponse
enrich_context now request e response =
    let context = context_or_new now response.context in
    record response {
      context = some (record context {
        path = some (strip_query request.url);
        method = some request.method;
        stack = or_stack (stack_of e) context.stack;
      });
    }

-- `isDev` is whether `NODE_ENV` is `development`
abbrev pub is_false : Option String → Bool
is_false none = false
is_false (some header) = str_eq header "false"

pub is_developer_mode : Bool → HttpRequest → Bool
is_developer_mode is_dev request = is_dev && not (is_false request.developer_mode)

-- `delete errorResponse.context` outside developer mode
abbrev pub strip_context : Bool → ErrorResponse → ErrorResponse
strip_context true response = response
strip_context false response = record response { context = none }

-- the response of `catch`; its status is the field `status_code`
pub catch : ℕ → Bool → String → HttpRequest → Exception → ErrorResponse
catch now is_dev message request e =
    strip_context (is_developer_mode is_dev request)
      (enrich_context now request e (resolve_response now message e))
