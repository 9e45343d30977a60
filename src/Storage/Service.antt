-- ===== src/Storage/Service.antt =====
-- src/infrastructure/storage/service/storage.service.ts. The clock, in milliseconds, and the digits
-- that `uniqueFileName` takes from the clock and the random source are arguments.

pub mod Batch
pub mod Upload
pub mod Stored
use Prim.Native.String.{◌++◌ as append}
use nestjs_starter.Prelude.{
  ℕ, zero, suc, ◌+◌, String, str_eq, Bool, true, false, Option, none, some, List, [], ◌∷◌, ◌++◌,
  map, length, or_else, if◌then◌else◌,
}
use nestjs_starter.Text.{trim_start, split, first_part}
use nestjs_starter.Storage.{
  Visibility, public, private, visibility_value, Outcome, done, fail, ◌>>=◌, with_done, promise_all,
  both_done, storage_error, UploadInput, SaveTarget, StoredFile, AccessUrl,
}
use nestjs_starter.Storage.Paths.{join_key}
use nestjs_starter.Storage.Names.{unique_file_name}
use nestjs_starter.Storage.Validation.{ValidationPolicy, Check, Content, validate, validate_many}
use nestjs_starter.Storage.Compression.{CompressionPolicy, Sharp, process}
use nestjs_starter.Storage.Provider.{Provider}
use nestjs_starter.Storage.Supabase.{set_at, new_array}

pub record StorageConfig : Type 0 where
  pub signed_url_ttl_seconds : ℕ
  pub default_validation : ValidationPolicy
  pub default_compression : CompressionPolicy

-- `Partial<A> | false | undefined`: the fields of a partial object replace those of a default.
pub data Override (A : Type 0) : Type 0 where
  off unset : Override A
  fields : (A → A) → Override A

pub record UploadOptions : Type 0 where
  pub visibility : Visibility
  pub folder : Option String
  pub validation : Override ValidationPolicy
  pub compression : Override CompressionPolicy

pub record Stamp : Type 0 where
  pub timestamp : String
  pub random : String

abbrev pub resolve_validation :
    ValidationPolicy → Override ValidationPolicy → Option ValidationPolicy
resolve_validation default_ off = none
resolve_validation default_ unset = some default_
resolve_validation default_ (fields f) = some (f default_)

abbrev pub if_enabled : CompressionPolicy → Option CompressionPolicy
if_enabled merged = if merged.enabled then some merged else none

abbrev pub resolve_compression :
    CompressionPolicy → Override CompressionPolicy → Option CompressionPolicy
resolve_compression default_ off = none
resolve_compression default_ unset = if_enabled default_
resolve_compression default_ (fields f) = if_enabled (f default_)

unfoldable pub visibility_of : String → Outcome Visibility
visibility_of key =
    let prefix = first_part (split b'/' (trim_start b'/' key)) in
    if str_eq prefix "public"
    then done public
    else if str_eq prefix "private"
    then done private
    else fail (storage_error (append "Cannot determine visibility from key: " key))

unfoldable pub build_save_target :
    {Buffer : Type 0} → (String → String) → UploadInput Buffer → UploadOptions → Stamp → SaveTarget
build_save_target to_lower_case input options stamp =
    let filename =
      unique_file_name to_lower_case input.original_name "" stamp.timestamp stamp.random in
    record {
      key =
          join_key
            (visibility_value options.visibility ∷ or_else options.folder "" ∷ filename ∷ []);
      visibility = options.visibility;
      content_type = some input.mime_type;
    }

-- `result[entry.index] = signed[i]`, in order
abbrev pub put_at : ℕ → Option AccessUrl → List (Option AccessUrl) → List (Option AccessUrl)
put_at i a [] = []
put_at zero a (x ∷ xs) = a ∷ xs
put_at (suc i) a (x ∷ xs) = x ∷ put_at i a xs

abbrev pub scatter :
    List (String × ℕ) → List (Option AccessUrl) → List (Option AccessUrl) → List (Option AccessUrl)
scatter [] signed result = result
scatter (e ∷ entries) [] result = scatter entries [] (put_at e.1 none result)
scatter (e ∷ entries) (u ∷ signed) result = scatter entries signed (put_at e.1 u result)

module _ {Buffer : Type 0} (P : Provider Buffer) where
  abbrev pub sign_each : List String → ℕ → ℕ → P.State → Outcome (List (Option AccessUrl))
  sign_each [] ttl now s = done []
  sign_each (k ∷ keys) ttl now s =
      both_done (P.signed_url k ttl now s >>= λ u. done (some u)) (sign_each keys ttl now s)

  abbrev pub sign_with :
      Option (List String → ℕ → ℕ → P.State → Outcome (List (Option AccessUrl)))
      → List String
      → ℕ
      → ℕ
      → P.State
      → Outcome (List (Option AccessUrl))
  sign_with (some signed_urls) = signed_urls
  sign_with none = sign_each

module _ (to_lower_case : String → String) {Buffer : Type 0} (P : Provider Buffer)
    (R : Content Buffer) (S : Sharp Buffer) (config : StorageConfig) where
  abbrev pub check_with : Option ValidationPolicy → UploadInput Buffer → Check
  check_with none input = done tt
  check_with (some policy) input = validate to_lower_case R input policy

  abbrev pub check_many_with : Option ValidationPolicy → List (UploadInput Buffer) → Check
  check_many_with none inputs = done tt
  check_many_with (some policy) inputs = validate_many to_lower_case R inputs policy

  abbrev pub process_with :
      Option CompressionPolicy → UploadInput Buffer → Outcome (UploadInput Buffer)
  process_with none input = done input
  process_with (some policy) input = process S to_lower_case input policy

  abbrev pub process_all_with :
      Option CompressionPolicy → List (UploadInput Buffer) → Outcome (List (UploadInput Buffer))
  process_all_with policy [] = done []
  process_all_with policy (i ∷ inputs) =
      both_done (process_with policy i) (process_all_with policy inputs)

  unfoldable pub upload :
      UploadInput Buffer → UploadOptions → Stamp → P.State → Outcome StoredFile × P.State
  upload input options stamp =
      let checked =
        check_with (resolve_validation config.default_validation options.validation) input in
      let policy = resolve_compression config.default_compression options.compression in
      with_done (checked >>= λ _. process_with policy input)
        (λ final. P.save final (build_save_target to_lower_case final options stamp))

  abbrev pub upload_items :
      UploadOptions
      → List Stamp
      → List (UploadInput Buffer)
      → List (UploadInput Buffer × SaveTarget)
  upload_items options stamps [] = []
  upload_items options [] (i ∷ inputs) = []
  upload_items options (stamp ∷ stamps) (i ∷ inputs) =
      (i, build_save_target to_lower_case i options stamp) ∷ upload_items options stamps inputs

  abbrev pub save_items :
      Option
        (List (UploadInput Buffer × SaveTarget) → P.State → Outcome (List StoredFile) × P.State)
      → List (UploadInput Buffer × SaveTarget)
      → P.State
      → Outcome (List StoredFile) × P.State
  save_items (some save_many) items = save_many items
  save_items none items = promise_all (map (λ i. P.save i.0 i.1) items)

  -- A stamp for each input.
  unfoldable pub upload_many :
      List (UploadInput Buffer)
      → UploadOptions
      → List Stamp
      → P.State
      → Outcome (List StoredFile) × P.State
  upload_many inputs options stamps =
      let checked =
        check_many_with (resolve_validation config.default_validation options.validation) inputs in
      let policy = resolve_compression config.default_compression options.compression in
      with_done (checked >>= λ _. process_all_with policy inputs)
        (λ processed. save_items P.save_many (upload_items options stamps processed))

  abbrev pub delete_ : String → P.State → Outcome (Unit {0}) × P.State
  delete_ key = P.delete key

  -- `.catch(() => undefined)`
  abbrev pub forgiven : Outcome (Unit {0}) × P.State → Outcome (Unit {0}) × P.State
  forgiven (r, s) = (done tt, s)

  abbrev pub delete_keys :
      Option (List String → P.State → Outcome (Unit {0}) × P.State)
      → List String
      → P.State
      → Outcome (Unit {0}) × P.State
  delete_keys (some delete_many) keys s = delete_many keys s
  delete_keys none keys s =
      let (rs, s') = promise_all (map (λ k s. forgiven (P.delete k s)) keys) s in
      (rs >>= λ _. done tt, s')

  unfoldable pub delete_many : List String → P.State → Outcome (Unit {0}) × P.State
  delete_many = delete_keys P.delete_many

  abbrev pub exists : String → P.State → Outcome Bool
  exists key = P.exists key

  abbrev pub read : String → P.State → Outcome Buffer
  read key = P.read key

  abbrev pub public_access : String → Outcome AccessUrl
  public_access key = P.public_url key >>= λ url. done (record { url = url; expires_at = none })

  abbrev pub ttl_of : Option ℕ → ℕ
  ttl_of ttl_seconds = or_else ttl_seconds config.signed_url_ttl_seconds

  abbrev pub access_by : Visibility → String → Option ℕ → ℕ → P.State → Outcome AccessUrl
  access_by public key ttl_seconds now s = public_access key
  access_by private key ttl_seconds now s = P.signed_url key (ttl_of ttl_seconds) now s

  unfoldable pub get_access_url : String → Option ℕ → ℕ → P.State → Outcome AccessUrl
  get_access_url key ttl_seconds now s =
      visibility_of key >>= λ v. access_by v key ttl_seconds now s

  -- The first loop of `getAccessUrls`, from an index on: the array and the private entries.
  abbrev pub place_public : ℕ → String → List (Option AccessUrl) → Outcome (List (Option AccessUrl))
  place_public i key result = public_access key >>= λ u. done (set_at i u result)

  unfoldable pub sort_keys :
      ℕ
      → List String
      → List (Option AccessUrl)
      → List (String × ℕ)
      → Outcome (List (Option AccessUrl) × List (String × ℕ))
  sort_keys i [] result private_entries = done (result, private_entries)
  sort_keys i (key ∷ keys) result private_entries =
      sort_key key i result private_entries (visibility_of key) >>= λ p.
      sort_keys (suc i) keys p.0 p.1
    where
      sort_key :
          String
          → ℕ
          → List (Option AccessUrl)
          → List (String × ℕ)
          → Outcome Visibility
          → Outcome (List (Option AccessUrl) × List (String × ℕ))
      sort_key key i result private_entries (fail e) = fail e
      sort_key key i result private_entries (done public) =
          place_public i key result >>= λ r. done (r, private_entries)
      sort_key key i result private_entries (done private) =
          done (result, private_entries ++ ((key, i) ∷ []))

  abbrev pub sign_entries :
      List (String × ℕ)
      → ℕ
      → ℕ
      → P.State
      → List (Option AccessUrl)
      → Outcome (List (Option AccessUrl))
  sign_entries [] ttl now s result = done result
  sign_entries (e ∷ entries) ttl now s result =
      sign_with P P.signed_urls (map (λ e. e.0) (e ∷ entries)) ttl now s >>= λ signed.
      done (scatter (e ∷ entries) signed result)

  unfoldable pub get_access_urls :
      List String → Option ℕ → ℕ → P.State → Outcome (List (Option AccessUrl))
  get_access_urls keys ttl_seconds now s = sort_keys 0 keys (new_array (length keys)) [] >>= λ p.
      sign_entries p.1 (ttl_of ttl_seconds) now s p.0
