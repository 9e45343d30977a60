-- ===== src/Storage/Validation.antt =====
-- src/infrastructure/storage/validation: the four validators in the order that `storage.module.ts`
-- registers them, and the service that runs them. What sharp and magic-bytes read from the content
-- is a parameter.
pub mod Accepted
use Prim.Native.Char.{code}
use Prim.Native.String.{[] as nil, ◌∷◌ as char_then}
use nestjs_starter.Prelude.{
  ℕ, String, str_eq, Bool, true, false, not, ◌&&◌, ◌||◌, Option, none, some, List, [], ◌∷◌, map,
  any, ◌==◌, ltb, leb, if◌then◌else◌,
}
use nestjs_starter.Text.{is_empty, has_char, split, strip_start}
use nestjs_starter.Storage.{
  Outcome, done, fail, ◌>>=◌, file_validation_error, type_error, UploadInput,
}
use nestjs_starter.Storage.Names.{
  Member, own, inherited, absent, member, extract_extension, mime_from_extension,
}
use nestjs_starter.Storage.Sizes.{parse_size}

pub record DimensionRule : Type 0 where
  pub min_width : Option ℕ
  pub max_width : Option ℕ
  pub min_height : Option ℕ
  pub max_height : Option ℕ

pub record ValidationPolicy : Type 0 where
  pub required : Bool
  pub allowed_extensions : List String
  pub max_size : String
  -- `none` for `undefined`
  pub per_type_max_size : Option (List (String × String))
  pub dimensions : Option DimensionRule
  pub enforce_magic_bytes : Bool

abbrev pub Check : Type 0
Check = Outcome (Unit {0})

-- `if (bad) throw new FileValidationError(…)`
abbrev pub reject_if : Bool → String → Check
reject_if true c = fail (file_validation_error c)
reject_if false c = done tt

infixl 5 ◌>>◌
abbrev pub ◌>>◌ : Check → Check → Check
m >> n = m >>= λ _. n

abbrev pub includes : List String → String → Bool
includes l s = any (λ t. str_eq t s) l

-- What a library reads from the bytes.
pub record Content (Buffer : Type 0) : Type 0 where
  -- `sharp(buffer).metadata()`: `none` where it throws, a dimension that is missing is 0
  pub metadata : Buffer → Option (ℕ × ℕ)
  -- the MIME types that `magicBytes(buffer)` finds, `none` for a type without one
  pub magic_bytes : Buffer → List (Option String)

-- `mime.split('/')[1]`, and `undefined` where there is no slash
abbrev pub second_part : List String → Option String
second_part [] = none
second_part (p ∷ []) = none
second_part (p ∷ q ∷ ps) = some q

abbrev pub subtype_of : Option String → Option String
subtype_of none = none
subtype_of (some mime) = second_part (split b'/' mime)

-- `.filter(Boolean)`
abbrev pub present : List (Option String) → List String
present [] = []
present (none ∷ l) = present l
present (some s ∷ l) = let rest = present l in if is_empty s then rest else s ∷ rest

abbrev pub is_nil : List (Option String) → Bool
is_nil [] = true
is_nil (x ∷ l) = false

-- `!expectedSubtype || !detectedSubtypes.includes(expectedSubtype)`
abbrev pub is_mismatch : List String → Option String → Bool
is_mismatch detected none = true
is_mismatch detected (some expected) = is_empty expected || not (includes detected expected)

-- `rule.minWidth && width < rule.minWidth`, where 0 is no bound
abbrev pub below_bound : ℕ → Option ℕ → Bool
below_bound n none = false
below_bound n (some m) = not (m == 0) && ltb n m

abbrev pub above_bound : ℕ → Option ℕ → Bool
above_bound n none = false
above_bound n (some m) = not (m == 0) && ltb m n

abbrev pub is_prefix : String → String → Bool
is_prefix p s = go (strip_start p s)
  where
    go : Option String → Bool
    go none = false
    go (some rest) = true

-- the class of `ALLOWED_NAME_PATTERN`: the Arabic block, letters, digits and `_.-() `
abbrev pub is_name_char : ℕ → Bool
is_name_char c =
    leb 0x600 c && leb c 0x6ff
    || (leb b'a' c && leb c b'z'
        || (leb b'A' c && leb c b'Z'
            || (leb b'0' c && leb c b'9'
                || (c == b'_'
                    || (c == b'.' || (c == b'-' || (c == b'(' || (c == b')' || c == b' '))))))))

abbrev pub all_name_chars : String → Bool
all_name_chars nil = true
all_name_chars (char_then c s) = is_name_char (code c) && all_name_chars s

module _ (to_lower_case : String → String) {Buffer : Type 0} (R : Content Buffer)
    (input : UploadInput Buffer) (policy : ValidationPolicy) where
  abbrev pub ext : String
  ext = extract_extension to_lower_case input.original_name

  -- the limit of one type; `parseSize` of what is no string throws a TypeError
  abbrev pub check_type_limit : Member → Check
  check_type_limit absent = done tt
  check_type_limit inherited = fail type_error
  check_type_limit (own limit) =
      if is_empty limit
      then done tt
      else (parse_size limit >>= λ n. reject_if (ltb n input.size) "FILE_TYPE_TOO_LARGE")

  abbrev pub check_types : Option (List (String × String)) → Check
  check_types none = done tt
  check_types (some limits) = check_type_limit (member ext limits)

  -- `SizeValidator.validate`
  unfoldable pub validate_size : Check
  validate_size =
      reject_if (input.size == 0) "FILE_EMPTY"
      >> (parse_size policy.max_size >>= λ max. reject_if (ltb max input.size) "FILE_TOO_LARGE")
      >> check_types policy.per_type_max_size

  abbrev pub check_signature : Member → Check
  check_signature (own mime) =
      reject_if
        (is_mismatch (present (map subtype_of (R.magic_bytes input.buffer)))
          (second_part (split b'/' mime)))
        "FILE_SIGNATURE_MISMATCH"
  check_signature inherited = fail type_error
  check_signature absent = fail type_error

  abbrev pub is_text : Bool
  is_text = is_prefix "text/" input.mime_type || str_eq ext "txt"

  -- `MimeTypeValidator.validate`
  unfoldable pub validate_mime_type : Check
  validate_mime_type =
      reject_if (is_empty ext) "FILE_EXTENSION_MISSING"
      >> reject_if (not (includes (map to_lower_case policy.allowed_extensions) ext))
          "FILE_TYPE_NOT_ALLOWED"
      >> (if not policy.enforce_magic_bytes || is_text
          then done tt
          else reject_if (is_nil (R.magic_bytes input.buffer)) "FILE_SIGNATURE_UNKNOWN"
            >> check_signature (mime_from_extension to_lower_case input.original_name))

  -- `FilenameValidator.validate`
  unfoldable pub validate_filename : Check
  validate_filename =
      reject_if (is_empty input.original_name || has_char 0 input.original_name) "FILE_NAME_INVALID"
      >> reject_if (not (all_name_chars input.original_name)) "FILE_NAME_DISALLOWED_CHARS"

  abbrev pub check_bounds : DimensionRule → Option (ℕ × ℕ) → Check
  check_bounds rule none = fail (file_validation_error "IMAGE_METADATA_UNREADABLE")
  check_bounds rule (some (width, height)) =
      reject_if (width == 0 || height == 0) "IMAGE_DIMENSIONS_UNKNOWN"
      >> reject_if (below_bound width rule.min_width) "IMAGE_TOO_NARROW"
      >> reject_if (above_bound width rule.max_width) "IMAGE_TOO_WIDE"
      >> reject_if (below_bound height rule.min_height) "IMAGE_TOO_SHORT"
      >> reject_if (above_bound height rule.max_height) "IMAGE_TOO_TALL"

  abbrev pub check_dimensions : Option DimensionRule → Check
  check_dimensions none = done tt
  check_dimensions (some rule) =
      if not (is_prefix "image/" input.mime_type)
      then done tt
      else check_bounds rule (R.metadata input.buffer)

  -- `DimensionsValidator.validate`
  unfoldable pub validate_dimensions : Check
  validate_dimensions = check_dimensions policy.dimensions

module _ (to_lower_case : String → String) {Buffer : Type 0} (R : Content Buffer) where
  -- `FileValidationService.validate`
  unfoldable pub validate : UploadInput Buffer → ValidationPolicy → Check
  validate input policy =
      validate_size to_lower_case R input policy
      >> validate_mime_type to_lower_case R input policy
      >> validate_filename to_lower_case R input policy
      >> validate_dimensions to_lower_case R input policy

  unfoldable pub validate_many : List (UploadInput Buffer) → ValidationPolicy → Check
  validate_many [] policy = done tt
  validate_many (input ∷ inputs) policy = validate input policy >> validate_many inputs policy
