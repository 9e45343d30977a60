-- ===== src/Storage/Compression.antt =====
-- src/infrastructure/storage/processing: the policy and `SharpImageProcessor`. The calls of sharp are
-- a parameter, with the dimensions, which the code computes from a square root of floating point.
pub mod Quality
use Prim.Native.String.{◌++◌ as append}
use nestjs_starter.Prelude.{
  ℕ, zero, suc, ◌-◌, String, str_eq, Bool, true, false, not, ◌&&◌, Option, none, some, List, [],
  ◌∷◌, any, ltb, if◌then◌else◌,
}
use nestjs_starter.Storage.{
  Outcome, done, fail, ◌>>=◌, StorageFault, storage_error, file_validation_error,
  file_not_found_error, storage_provider_error, type_error, UploadInput,
}
use nestjs_starter.Storage.Names.{extract_base_name, extract_extension}
use nestjs_starter.Storage.Sizes.{parse_size}

pub record CompressionPolicy : Type 0 where
  pub enabled : Bool
  pub quality : ℕ
  pub min_quality : ℕ
  pub max_output_size : String
  pub output_format : String

pub record Sharp (Buffer : Type 0) : Type 0 where
  -- `buffer.length`
  pub size_of : Buffer → ℕ
  -- `optimalDimensions`: the width and the height for a number of bytes
  pub optimal_dimensions : Buffer → ℕ → Outcome (ℕ × ℕ)
  -- resize and encode in a format at a quality; sharp refuses a quality below 1
  pub encode : Buffer → ℕ × ℕ → String → ℕ → Outcome Buffer

abbrev pub supported : List String
supported = "jpeg" ∷ "jpg" ∷ "png" ∷ "webp" ∷ "gif" ∷ "tiff" ∷ "tif" ∷ "avif" ∷ "heif" ∷ []

-- `e.message`
abbrev pub message_of : StorageFault → String
message_of (storage_error m) = m
message_of (file_validation_error c) = c
message_of (file_not_found_error key) = append "File not found in storage: " key
message_of (storage_provider_error m) = m
message_of type_error = "TypeError"

abbrev pub compression_failed : {A : Type 0} → Outcome A → Outcome A
compression_failed (done a) = done a
compression_failed (fail e) =
    fail (storage_provider_error (append "Image compression failed: " (message_of e)))

-- One turn of the loop: its test, what the encoding gives, and the turns after it.
module _ {Buffer : Type 0} where
  abbrev pub step :
      Bool
      → Outcome Buffer
      → ℕ
      → Buffer
      → (Buffer → Option (Outcome (ℕ × Buffer)))
      → Option (Outcome (ℕ × Buffer))
  step false r quality current again = some (done (quality, current))
  step true (fail e) quality current again = some (fail e)
  step true (done smaller) quality current again = again smaller

module _ {Buffer : Type 0} (S : Sharp Buffer) (policy : CompressionPolicy) (buffer : Buffer)
    (target_bytes : ℕ) (dimensions : ℕ × ℕ) where
  -- `currentBuffer.length > targetBytes && quality > policy.minQuality`
  abbrev pub goes_on : ℕ → Buffer → Bool
  goes_on quality current = ltb target_bytes (S.size_of current) && ltb policy.min_quality quality

  abbrev pub encode_at : ℕ → Outcome Buffer
  encode_at = S.encode buffer dimensions policy.output_format

  -- The loop, with the quality that the buffer was encoded at; `none` is a loop that was cut off.
  -- Below 1 a quality is refused, at 0 as at any negative number.
  unfoldable pub lower_quality : ℕ → ℕ → Buffer → Option (Outcome (ℕ × Buffer))
  lower_quality zero quality current = none
  lower_quality (suc fuel) quality current =
      step (goes_on quality current) (encode_at (quality - 5)) quality current
        (λ smaller. lower_quality fuel (quality - 5) smaller)

module _ {Buffer : Type 0} (S : Sharp Buffer) where
  abbrev pub encoded : Option (Outcome (ℕ × Buffer)) → Outcome Buffer
  encoded none = fail type_error
  encoded (some r) = r >>= λ p. done p.1

  -- One more step than the quality has units is enough.
  unfoldable pub compress : Buffer → CompressionPolicy → Outcome Buffer
  compress buffer policy = parse_size policy.max_output_size >>= λ target_bytes.
      S.optimal_dimensions buffer target_bytes >>= λ dimensions.
      S.encode buffer dimensions policy.output_format policy.quality >>= λ first. encoded (
        lower_quality S policy buffer target_bytes dimensions (suc policy.quality) policy.quality
          first)

  abbrev pub compressed : UploadInput Buffer → CompressionPolicy → Buffer → UploadInput Buffer
  compressed input policy buffer = record {
    buffer = buffer;
    original_name =
        append (extract_base_name input.original_name) (append "." policy.output_format);
    mime_type = append "image/" policy.output_format;
    size = S.size_of buffer;
  }

  unfoldable pub process :
      (String → String) → UploadInput Buffer → CompressionPolicy → Outcome (UploadInput Buffer)
  process to_lower_case input policy =
      let ext = extract_extension to_lower_case input.original_name in
      if not policy.enabled
      then done input
      else if not (any (λ t. str_eq t ext) supported)
      then done input
      else compression_failed
          (compress input.buffer policy >>= λ buffer. done (compressed input policy buffer))
