-- ===== src/Storage/Samples.antt =====
-- Settings and files for the tests of the storage component.
use Prim.Native.String.{◌++◌ as append}
use nestjs_starter.Prelude.{ℕ, String, true, false, none, some, [], ◌∷◌, ◌≡◌, refl}
use nestjs_starter.Text.{has_char}
use nestjs_starter.Cache.Keys.{decimal}
use nestjs_starter.Storage.{Visibility, private, done, UploadInput, SaveTarget}
use nestjs_starter.Storage.Validation.{ValidationPolicy, Content}
use nestjs_starter.Storage.Compression.{CompressionPolicy, Sharp}
use nestjs_starter.Storage.Service.{StorageConfig, unset, UploadOptions, Stamp}
use nestjs_starter.Storage.Service.Upload.{IsSafeText}
use nestjs_starter.Storage.Names.Clean.{Unsafe, nul, slash_char, backslash}

-- names that are in lower case already
abbrev pub in_lower_case : String → String
in_lower_case s = s

-- A content is its size in bytes: 100 pixels each way, and a PNG file.
abbrev pub reader : Content ℕ
reader = record { metadata = λ b. some (100, 100); magic_bytes = λ b. some "image/png" ∷ [] }

-- encoding at a quality gives that many bytes
abbrev pub sharp : Sharp ℕ
sharp = record {
  size_of = λ b. b;
  optimal_dimensions = λ b n. done (10, 10);
  encode = λ b d f q. done q;
}

abbrev pub policy : ValidationPolicy
policy = record {
  required = true;
  allowed_extensions = "png" ∷ [];
  max_size = "1KB";
  per_type_max_size = some (("png", "512B") ∷ []);
  dimensions = some (record {
    min_width = some 10;
    max_width = some 200;
    min_height = none;
    max_height = some 0;
  });
  enforce_magic_bytes = true;
}

abbrev pub lossy : CompressionPolicy
lossy = record {
  enabled = true;
  quality = 80;
  min_quality = 50;
  max_output_size = "62B";
  output_format = "jpeg";
}

abbrev pub config : StorageConfig
config = record {
  signed_url_ttl_seconds = 3600;
  default_validation = policy;
  default_compression = lossy;
}

abbrev pub photo : UploadInput ℕ
photo = record { buffer = 300; original_name = "my photo.png"; mime_type = "image/png"; size = 300 }

abbrev pub options : UploadOptions
options = record {
  visibility = private;
  folder = some "avatars/7";
  validation = unset;
  compression = unset;
}

abbrev pub stamp : Stamp
stamp = record { timestamp = "20250101"; random = "1234" }

without_separators :
    {n : ℕ} → Unsafe n → (has_char n "20250101" ≡ false) × (has_char n "1234" ≡ false)
without_separators nul = (refl, refl)
without_separators slash_char = (refl, refl)
without_separators backslash = (refl, refl)

pub safe_stamp : IsSafeText in_lower_case stamp
safe_stamp = record {
  lower = λ u s h. h;
  timestamp_safe = λ u. (without_separators u).0;
  random_safe = λ u. (without_separators u).1;
}

abbrev pub no_signature : String → ℕ → String
no_signature key expires_at = append key (decimal expires_at)

abbrev pub target : Visibility → String → SaveTarget
target v key = record { key = key; visibility = v; content_type = none }
