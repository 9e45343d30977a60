-- ===== src/Filters/Tests.antt =====
-- Runs of src/core/filters.
use nestjs_starter.Prelude.{◌≤◌, ◌≡◌, refl, String, false, Option, none, some, [], ◌∷◌}
use nestjs_starter.Filters.Handlers.{
  ErrorFields, instance_of_error, other_value, query_failed, DriverError, fallback,
  ValidationErrors, validation_error, no_errors, error_then, flatten_messages,
}
use nestjs_starter.Filters.Handlers.Validation.{messages_of, flatten_messages_lem}
use nestjs_starter.Filters.{
  get_handler, HttpRequest, enrich_context, resolve_response, is_developer_mode, catch,
}
use nestjs_starter.Filters.Exposure.{catch-database}

abbrev request : HttpRequest
request = record { url = "/users?code=1234"; method = "GET"; developer_mode = none }

abbrev failure : String → ErrorFields
failure message = record {
  name = "QueryFailedError";
  message = message;
  code = none;
  stack = some "at query";
}

abbrev duplicate : Option DriverError
duplicate = some (record { code = some "23505"; errno = none })

outside : is_developer_mode false request ≡ false
unfolding is_developer_mode
outside = refl

duplicate_status :
    (catch 9 false "" request
      (instance_of_error (failure "users_phone_key") (query_failed duplicate))).status_code
    ≡ 409
unfolding catch is_developer_mode enrich_context resolve_response get_handler
duplicate_status = refl

catch-database_example :
    (catch 9 false "" request (instance_of_error (failure "a") (query_failed duplicate))
      ≡ catch 10 false "" request (instance_of_error (failure "b") (query_failed duplicate)))
    × (500
          ≤ (catch 9 false "" request
              (instance_of_error (failure "a") (query_failed duplicate))).status_code
        → (catch 9 false "" request
            (instance_of_error (failure "a") (query_failed duplicate))).error
          ≡ "DATABASE_ERROR")
catch-database_example =
    catch-database 9 10 false "" "" request request (failure "a") (failure "b") duplicate duplicate
      refl refl refl refl outside outside refl

unknown : get_handler (other_value "boom") ≡ fallback
unfolding get_handler
unknown = refl

abbrev nested : ValidationErrors
nested =
    error_then
      (validation_error (some "name" ∷ none ∷ [])
        (error_then (validation_error (some "street" ∷ []) no_errors) no_errors))
      (error_then (validation_error (some "phone" ∷ []) no_errors) no_errors)

flatten_messages_lem_example : flatten_messages nested ≡ messages_of nested
flatten_messages_lem_example = flatten_messages_lem nested

in_order : messages_of nested ≡ "name" ∷ "street" ∷ "phone" ∷ []
in_order = refl
