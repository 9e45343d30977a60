-- ===== src/Storage/Tests.antt =====
-- Runs of the storage component on a disk and on buckets in memory.
use nestjs_starter.Prelude.{◌≡◌, refl, [], ◌∷◌}
use nestjs_starter.Storage.{done, fail}
use nestjs_starter.Storage.Paths.{sanitize_key, strip_prefix, join_key, invalid_key}
use nestjs_starter.Storage.Names.{
  safe_name, safe_base, extract_base_name, extract_extension, unique_file_name, mime_from_extension,
}
use nestjs_starter.Storage.Sizes.{parse_size}
use nestjs_starter.Storage.Samples.{in_lower_case, reader, sharp, policy, lossy, photo}
use nestjs_starter.Storage.Validation.{
  validate, validate_size, validate_mime_type, validate_filename, validate_dimensions,
}
use nestjs_starter.Storage.Compression.{lower_quality, compress}

sanitized : sanitize_key "\\avatars\\1.png\\" ≡ done "avatars/1.png"
unfolding sanitize_key
sanitized = refl

traversal : sanitize_key "a/../b" ≡ fail invalid_key
unfolding sanitize_key
traversal = refl

joined : join_key ("/avatars/" ∷ "" ∷ "/1/" ∷ []) ≡ "avatars/1"
unfolding join_key
joined = refl

stripped : strip_prefix "public/avatars/1.png" "public" ≡ done "avatars/1.png"
unfolding strip_prefix sanitize_key
stripped = refl

sized : parse_size " 1.5kb" ≡ done 1536
unfolding parse_size
sized = refl

named : unique_file_name in_lower_case "..\\my  photo.png" "" "2025" "17" ≡ "-my-photo-2025-17.png"
unfolding unique_file_name safe_name safe_base extract_base_name extract_extension
named = refl

accepted : validate in_lower_case reader photo policy ≡ done tt
unfolding validate validate_size validate_mime_type validate_filename validate_dimensions parse_size
    extract_extension mime_from_extension
accepted = refl

lowered : compress sharp 300 lossy ≡ done 60
unfolding compress lower_quality parse_size
lowered = refl
