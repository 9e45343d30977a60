-- ===== src/Filters/Exposure.antt =====
-- What a client learns of an exception: src/core/filters/global-exception.filter.ts.
use Prim.Native.Char.{code as code_of_char}
use Prim.Native.String.{[] as nil, ◌∷◌ as char_then, ◌++◌ as join}
use Prim.Native.String.append
use nestjs_starter.Prelude.{
  ℕ, ◌≤◌, ◌≡◌, ◌⊎◌, refl, ap, sym, subst, ◌∙◌, inl, inr, String, str_eq, Bool, true, false, Option,
  none, some, Bool-cases, ◌==◌, or_else, arith,
}
use nestjs_starter.Filters.Handlers.Codes.{DbErrorMapping, error_code_map, default_mapping}
use nestjs_starter.Filters.Handlers.{
  Exception, ErrorFields, ErrorResponse, ErrorContext, Class, instance_of_error, other_value,
  plain_error, query_failed, http_exception, i18n_exception, DriverError, typeorm, fallback, handle,
  is_jwt_name, driver_code, exposed_error, entry_of, one,
}
use nestjs_starter.Filters.{
  get_handler, HttpRequest, handler_failed, resolve_response, strip_query, enrich_context,
  is_developer_mode, catch,
}

-- the handler that is chosen handles the exception
answers : (now : ℕ) (e : Exception) → (r : ErrorResponse) × (handle now (get_handler e) e ≡ some r)
unfolding get_handler
answers now (other_value s) = (_, refl)
answers now (instance_of_error f c) = elim (Bool-cases (str_eq f.name "MulterError")) [
  | inl m ↦ simp m (_, refl)
  | inr m ↦ elim (Bool-cases (is_jwt_name f.name)) [
    | inl j ↦ simp (m, j) (_, refl)
    | inr j ↦ go m j c
  ]
]
  where
    go :
        str_eq f.name "MulterError" ≡ false
        → is_jwt_name f.name ≡ false
        → (c : Class)
        → (r : ErrorResponse) × (handle now
              (get_handler (instance_of_error f c))
              (instance_of_error f c)
            ≡ some r)
    go m j plain_error = simp (m, j) (_, refl)
    go m j (query_failed d) = simp (m, j) (_, refl)
    go m j (http_exception status body) = simp (m, j) (_, refl)
    go m j (i18n_exception status body nested) = simp (m, j) (_, refl)

-- The handler that the factory selects takes the exception's class: the answer is its response, and
-- the safe response behind a handler that throws is not needed.
pub handle-get_handler :
    (now : ℕ) (message : String) (e : Exception)
    → handle now (get_handler e) e ≡ some (resolve_response now message e)
unfolding resolve_response
handle-get_handler now message e =
    let (r, a) = answers now e in
    a ∙ ap some (sym (ap (λ o. or_else o (handler_failed now message)) a))

database_handler :
    (f : ErrorFields) (d : Option DriverError)
    → str_eq f.name "MulterError" ≡ false
    → is_jwt_name f.name ≡ false
    → get_handler (instance_of_error f (query_failed d)) ≡ typeorm
unfolding get_handler
database_handler f d m j = simp (m, j) refl

-- The context is in the response exactly in developer mode; there its path is the URL without its
-- query.
pub catch-context :
    (now : ℕ) (is_dev : Bool) (message : String) (request : HttpRequest) (e : Exception)
    → ((is_developer_mode is_dev request ≡ false)
        × ((catch now is_dev message request e).context ≡ none))
      ⊎ ((is_developer_mode is_dev request ≡ true)
          × ((c : ErrorContext) × ((catch now is_dev message request e).context ≡ some c)
              × (c.path ≡ some (strip_query request.url))))
unfolding catch enrich_context
catch-context now is_dev message request e = elim (Bool-cases (is_developer_mode is_dev request)) [
  | inl on ↦ inr (on, simp on (_, refl, refl))
  | inr off ↦ inl (off, simp off refl)
]

mapped : Option String → DbErrorMapping
mapped code = or_else (entry_of code error_code_map) default_mapping

abbrev bare : DbErrorMapping → ErrorResponse
bare m = record {
  status_code = m.status_code;
  error = exposed_error m;
  message = one m.message;
  context = none;
}

hidden : (m : DbErrorMapping) → 500 ≤ m.status_code → exposed_error m ≡ "DATABASE_ERROR"
hidden m h = ground (arith, h)

stripped :
    (now : ℕ) (is_dev : Bool) (message : String) (request : HttpRequest) (f : ErrorFields)
    (d : Option DriverError)
    → str_eq f.name "MulterError" ≡ false
    → is_jwt_name f.name ≡ false
    → is_developer_mode is_dev request ≡ false
    → catch now is_dev message request (instance_of_error f (query_failed d))
      ≡ bare (mapped (driver_code d))
unfolding catch enrich_context resolve_response mapped
stripped now is_dev message request f d m j off = simp (off, database_handler f d m j) refl

-- Outside developer mode the response to a failed query tells nothing but what the driver's code
-- maps to: two failures with one code get one response, whatever their messages, stacks, requests
-- and times; and a response of 500 or above does not name the failure.
pub catch-database :
    (now now' : ℕ) (is_dev : Bool) (message message' : String) (request request' : HttpRequest)
    (f f' : ErrorFields) (d d' : Option DriverError)
    → str_eq f.name "MulterError" ≡ false
    → is_jwt_name f.name ≡ false
    → str_eq f'.name "MulterError" ≡ false
    → is_jwt_name f'.name ≡ false
    → is_developer_mode is_dev request ≡ false
    → is_developer_mode is_dev request' ≡ false
    → driver_code d ≡ driver_code d'
    → let response = catch now is_dev message request (instance_of_error f (query_failed d)) in
      (response ≡ catch now' is_dev message' request' (instance_of_error f' (query_failed d')))
      × (500 ≤ response.status_code → response.error ≡ "DATABASE_ERROR")
unfolding catch enrich_context resolve_response
catch-database now now' is_dev message message' request request' f f' d d' m j m' j' off off' same =
    (
      stripped now is_dev message request f d m j off
          ∙ ap (λ c. bare (mapped c)) same
          ∙ sym (stripped now' is_dev message' request' f' d' m' j' off'),
      λ h.
          ap (λ r. r.error) (stripped now is_dev message request f d m j off)
          ∙ hidden (mapped (driver_code d)) (
              subst (λ n. 500 ≤ n)
                (ap (λ r. r.status_code) (stripped now is_dev message request f d m j off)) h),
    )

-- An exception that no handler knows is answered with one constant response outside developer mode.
pub catch-unknown :
    (now : ℕ) (is_dev : Bool) (message : String) (request : HttpRequest) (e : Exception)
    → get_handler e ≡ fallback
    → is_developer_mode is_dev request ≡ false
    → catch now is_dev message request e ≡ record {
      status_code = 500;
      error = "INTERNAL_SERVER_ERROR";
      message = one "An unexpected error occurred";
      context = none;
    }
unfolding catch enrich_context resolve_response
catch-unknown now is_dev message request e chosen off = simp (off, chosen) refl

-- a text without a question mark
abbrev pub IsPath : String → Type 0
IsPath nil = Unit
IsPath (char_then c s) = ((code_of_char c == b'?') ≡ false) × IsPath s

abbrev pub IsQuery : String → Type 0
IsQuery nil = Unit
IsQuery (char_then c s) = (code_of_char c == b'?') ≡ true

-- What is logged and sent of a URL is its part before the first question mark.
pub strip_query_lem :
    (url : String)
    → IsPath (strip_query url)
      × ((query : String) × (join (strip_query url) query ≡ url) × IsQuery query)
unfolding strip_query
strip_query_lem nil = (tt, (nil, append.nil nil, tt))
strip_query_lem (char_then c s) = elim (Bool-cases (code_of_char c == b'?')) [
  | inl q ↦ simp q (tt, (char_then c s, append.nil (char_then c s), q))
  | inr n ↦
      let (path, (query, parts, begins)) = strip_query_lem s in
      simp n (
        (refl, path),
        (query, append.cons c (strip_query s) query ∙ ap (char_then c) parts, begins),
      )
]
