-- ===== src/Storage/Examples.antt =====
-- The theorems on the storage component at concrete inputs.
use nestjs_starter.Prelude.{
  ℕ, String, true, ◌≡◌, ◌≢◌, refl, eq_iff, arith, All, none, some, List, [], ◌∷◌, ◌++◌, inr, map,
}
use nestjs_starter.Storage.{public, private, Outcome, done, StoredFile, AccessUrl}
use nestjs_starter.Storage.Paths.{sanitize_key, strip_prefix, join_key}
use nestjs_starter.Storage.Names.{
  safe_name, safe_base, extract_base_name, extract_extension, unique_file_name, mime_from_extension,
}
use nestjs_starter.Storage.Sizes.{parse_size}
use nestjs_starter.Cache.Keys.{decimal}
use nestjs_starter.Storage.Samples.{
  in_lower_case, reader, sharp, lossy, config, photo, options, stamp, safe_stamp, no_signature,
  target,
}
use nestjs_starter.Storage.Validation.{
  validate, validate_size, validate_mime_type, validate_filename, validate_dimensions,
}
use nestjs_starter.Storage.Compression.{lower_quality, compress, process}
use nestjs_starter.Storage.Compression.Quality.{IsLowered, lower_quality-total}
use nestjs_starter.Storage.Local.{
  walk, path_join, save, delete, read, join_url, public_url, signed_url, local_provider, Location,
}
use nestjs_starter.Storage.Local.Disk.{Disk, disk}
use nestjs_starter.Storage.Local.Confinement.{path_join-confined}
use nestjs_starter.Storage.Local.Refinement.{
  stored, local_object_store, read-after_writes, signed_url_all-each,
}
use nestjs_starter.Storage.Provider.{Provider}
use nestjs_starter.Storage.Provider.Runs.{
  Write, IsFiledWrite, save_write, delete_write, run, run_spec,
}
use nestjs_starter.Storage.Supabase.{supabase_provider, visibility_from_key, path_for}
use nestjs_starter.Storage.Supabase as Supabase
use nestjs_starter.Storage.Supabase.Buckets.{Objects, buckets}
use nestjs_starter.Storage.Supabase.Refinement.{held, download-after_writes}
use nestjs_starter.Storage.Service.{
  build_save_target, upload, visibility_of, get_access_url, get_access_urls,
}
use nestjs_starter.Storage.Service.Batch.{one_by_one, get_access_urls-one_by_one}
use nestjs_starter.Storage.Service.Stored.{IsUploaded, upload-IsUploaded}

abbrev root : Location
root = "uploads" ∷ "srv" ∷ []

abbrev key_a : String
key_a = "public/a.png"

abbrev key_b : String
key_b = "private/b.png"

sanitized_a : sanitize_key "/public/a.png" ≡ done key_a
unfolding sanitize_key
sanitized_a = refl

sanitized_b : sanitize_key "private\\b.png" ≡ done key_b
unfolding sanitize_key
sanitized_b = refl

path_join-confined_example :
    ((below : Location) × (below ≢ []) × (path_join root key_a ≡ below ++ root))
    × (path_join root key_a ≡ path_join root key_b → key_a ≡ key_b)
path_join-confined_example =
    path_join-confined root "/public/a.png" "private\\b.png" key_a key_b sanitized_a sanitized_b

abbrev empty_disk : Disk ℕ
empty_disk = λ p. none

-- A file is stored, another one stored and deleted.
abbrev writes : List (Write ℕ)
writes =
    save_write photo (target private "private/a.png")
    ∷ save_write photo (target public "public/b.png")
    ∷ delete_write "public/b.png"
    ∷ []

filed_writes : All IsFiledWrite writes
filed_writes = (
  ((refl, refl, refl), refl),
  (((refl, refl, refl), refl), ((public, ((refl, refl, refl), refl)), tt)),
)

abbrev on_disk : Disk ℕ
on_disk = (run (local_provider (disk ℕ) root "" no_signature) writes empty_disk).1

disk_run : (run (local_provider (disk ℕ) root "" no_signature) writes empty_disk).0 ≡ true
unfolding run save delete sanitize_key path_join walk
disk_run = refl

disk_read : read (disk ℕ) root "private/a.png" on_disk ≡ done 300
unfolding run save delete read sanitize_key path_join walk
disk_read = refl

read-after_writes_example :
    run_spec writes (stored (disk ℕ) root empty_disk) "private/a.png" ≡ some 300
read-after_writes_example =
    read-after_writes (disk ℕ) root "" no_signature writes empty_disk private "private/a.png" 300
      filed_writes ((refl, refl, refl), refl) disk_run disk_read

abbrev no_objects : Objects
no_objects = λ b p. none

abbrev in_buckets : Objects
in_buckets = (run (supabase_provider buckets "open" "closed") writes no_objects).1

two_buckets : ◌≢◌ {A = String} "open" "closed"
two_buckets = ground (arith, eq_iff "open" "closed")

bucket_run : (run (supabase_provider buckets "open" "closed") writes no_objects).0 ≡ true
unfolding run Supabase.save Supabase.delete path_for visibility_from_key sanitize_key strip_prefix
bucket_run = refl

bucket_read : Supabase.read buckets "open" "closed" "private/a.png" in_buckets ≡ done 300
unfolding run Supabase.save Supabase.delete Supabase.read path_for visibility_from_key sanitize_key
    strip_prefix
bucket_read = refl

download-after_writes_example :
    run_spec writes (held buckets "open" "closed" two_buckets no_objects) "private/a.png" ≡ some 300
download-after_writes_example =
    download-after_writes buckets "open" "closed" two_buckets writes no_objects private
      "private/a.png" 300 filed_writes ((refl, refl, refl), refl) bucket_run bucket_read

abbrev shop_url : String
shop_url = "https://shop.example"

abbrev shop : Provider ℕ
shop = local_provider (disk ℕ) root shop_url no_signature

abbrev keys : List String
keys = "public/a.png" ∷ "private/a.png" ∷ "public/b.png" ∷ []

abbrev urls : List AccessUrl
urls =
    record { url = "https://shop.example/storage/public/a.png"; expires_at = none }
    ∷ record {
      url = "https://shop.example/storage/private/a.png?token=private/a.png3601&exp=3601";
      expires_at = some 3601000;
    }
    ∷ record { url = "https://shop.example/storage/public/b.png"; expires_at = none }
    ∷ []

singles : one_by_one in_lower_case shop reader sharp config none 1500 empty_disk keys ≡ done urls
unfolding decimal get_access_url visibility_of public_url signed_url sanitize_key join_url
singles = refl

get_access_urls-one_by_one_example :
    get_access_urls in_lower_case shop reader sharp config keys none 1500 empty_disk
    ≡ done (map some urls)
get_access_urls-one_by_one_example =
    get_access_urls-one_by_one in_lower_case shop reader sharp config none 1500 empty_disk keys urls
      (λ ks. signed_url_all-each (disk ℕ) root shop_url no_signature ks 3600 1500 empty_disk)
      singles

lower_quality-total_example :
    (o : Outcome (ℕ × ℕ)) × (lower_quality sharp lossy 300 62 (10, 10) 81 80 80 ≡ some o)
    × ((q last : ℕ) → o ≡ done (q, last) → IsLowered sharp lossy 300 62 (10, 10) 80 80 q last)
lower_quality-total_example = lower_quality-total sharp lossy 300 62 (10, 10) 80 80

abbrev uploaded : Disk ℕ
uploaded = (upload in_lower_case shop reader sharp config photo options stamp empty_disk).1

abbrev photo_file : StoredFile
photo_file = record {
  key = "private/avatars/7/my-photo-20250101-1234.jpeg";
  visibility = private;
  size = 60;
  mime_type = "image/jpeg";
}

photo_upload :
    upload in_lower_case shop reader sharp config photo options stamp empty_disk
    ≡ (done photo_file, uploaded)
unfolding upload validate validate_size validate_mime_type validate_filename validate_dimensions
    parse_size extract_extension mime_from_extension process compress lower_quality
    extract_base_name build_save_target unique_file_name safe_name safe_base join_key save
    sanitize_key path_join walk
photo_upload = refl

upload-IsUploaded_example :
    IsUploaded in_lower_case shop reader sharp config
      (local_object_store (disk ℕ) root shop_url no_signature)
      options
      stamp
      safe_stamp
      (inr (refl, refl, refl))
      photo
      empty_disk
      uploaded
upload-IsUploaded_example =
    upload-IsUploaded in_lower_case shop reader sharp config
      (local_object_store (disk ℕ) root shop_url no_signature) options stamp safe_stamp
      (inr (refl, refl, refl)) photo photo_file empty_disk uploaded photo_upload
