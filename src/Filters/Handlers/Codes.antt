-- ===== src/Filters/Handlers/Codes.antt =====
-- The tables of src/core/filters/handlers/typeorm-error.handler.ts and multer-error.handler.ts.
use nestjs_starter.Prelude.{ℕ, String, List, [], ◌∷◌}

pub record DbErrorMapping : Type 0 where
  pub status_code : ℕ
  pub error : String
  pub message : String

abbrev pub mapping : ℕ → String → String → DbErrorMapping
mapping status_code error message = record {
  status_code = status_code;
  error = error;
  message = message;
}

abbrev pub default_mapping : DbErrorMapping
default_mapping = mapping 500 "DATABASE_ERROR" "An error occurred while processing your request"

abbrev pub error_code_map : List (String × DbErrorMapping)
error_code_map =
    ("23502", mapping 400 "REQUIRED_FIELD_MISSING" "Required field cannot be empty")
    ∷ ("23503", mapping 400 "INVALID_REFERENCE" "Invalid reference provided")
    ∷ ("23505", mapping 409 "DUPLICATE_RECORD" "This record already exists")
    ∷ ("23514", mapping 400 "INVALID_VALUE" "Invalid value provided")
    ∷ (
      "23001",
      mapping 400 "RESTRICT_VIOLATION"
          "Restrict violation: this record is linked to an existing relation and cannot be modified or removed.",
    )
    ∷ ("42703", mapping 400 "INVALID_DATA" "Invalid data provided")
    ∷ ("42P01", mapping 500 "SERVICE_ERROR" "Service temporarily unavailable")
    ∷ ("42804", mapping 400 "INVALID_FORMAT" "Invalid data format")
    ∷ ("22001", mapping 400 "TEXT_TOO_LONG" "Text value is too long")
    ∷ ("22003", mapping 400 "NUMBER_OUT_OF_RANGE" "Number value is out of range")
    ∷ ("08001", mapping 503 "SERVICE_UNAVAILABLE" "Service temporarily unavailable")
    ∷ ("08006", mapping 503 "CONNECTION_LOST" "Service connection lost")
    ∷ ("1062", mapping 409 "DUPLICATE_RECORD" "This record already exists")
    ∷ ("1452", mapping 400 "INVALID_REFERENCE" "Invalid reference provided")
    ∷ ("1451", mapping 400 "RECORD_IN_USE" "Cannot delete record as it is being used")
    ∷ ("1406", mapping 400 "DATA_TOO_LONG" "Data value is too long")
    ∷ ("1048", mapping 400 "REQUIRED_FIELD_MISSING" "Required field cannot be empty")
    ∷ ("1264", mapping 400 "VALUE_OUT_OF_RANGE" "Value is out of acceptable range")
    ∷ []

abbrev pub code_messages : List (String × String)
code_messages =
    ("LIMIT_PART_COUNT", "Too many parts in upload")
    ∷ ("LIMIT_FILE_SIZE", "File is too large")
    ∷ ("LIMIT_FILE_COUNT", "Too many files uploaded")
    ∷ ("LIMIT_FIELD_KEY", "Field name is too long")
    ∷ ("LIMIT_FIELD_VALUE", "Field value is too long")
    ∷ ("LIMIT_FIELD_COUNT", "Too many fields in upload")
    ∷ ("LIMIT_UNEXPECTED_FILE", "Unexpected field")
    ∷ []
