-- ===== src/Storage/Supabase.antt =====
-- src/infrastructure/storage/providers/supabase/supabase.provider.ts. The client of the Supabase
-- storage API is a parameter; its laws are what an upload with `upsert` and a removal promise.
pub mod Refinement
pub mod Buckets
use Prim.Native.String.{◌++◌ as append}
use nestjs_starter.Prelude.{
  ℕ, zero, suc, ◌+◌, ◌*◌, String, str_eq, Bool, true, false, ◌≡◌, ◌≢◌, ◌⊎◌, inl, inr, Option, none,
  some, List, [], ◌∷◌, ◌++◌, map, length, or_else, if◌then◌else◌, All,
}
use nestjs_starter.Text.{split, first_part}
use nestjs_starter.Storage.{
  Visibility, public, private, visibility_value, Outcome, done, fail, ◌>>=◌, with_done, promise_all,
  file_not_found_error, storage_provider_error, type_error, UploadInput, SaveTarget, StoredFile,
  AccessUrl,
}
use nestjs_starter.Storage.Paths.{sanitize_key, strip_prefix}
use nestjs_starter.Storage.Provider.{Provider}

-- The reply for one path: the URL, or what went wrong with it.
pub data Signed : Type 0 where
  signed refused : String → Signed

pub record SupabaseClient (Buffer : Type 0) : Type 1 where
  pub State : Type 0
  -- the objects by bucket and path
  pub objects : State → String → String → Option Buffer
  -- an error's message, where there is one
  pub upload : String → String → Buffer → String → State → Option String × State
  pub remove : String → List String → State → Option String × State
  pub has : String → String → State → Bool
  -- `none` for an error of any kind
  pub download : String → String → State → Option Buffer
  pub get_public_url : String → String → String
  pub create_signed_url : String → String → ℕ → State → Signed
  pub create_signed_urls : String → List String → ℕ → State → List Signed ⊎ String
  pub objects-upload_ok :
      (b p : String) (content : Buffer) (mime : String) (s : State)
      → (upload b p content mime s).0 ≡ none
      → objects (upload b p content mime s).1 b p ≡ some content
  pub objects-upload_other :
      (b p b' p' : String) (content : Buffer) (mime : String) (s : State)
      → (b ≢ b') ⊎ (p ≢ p')
      → objects (upload b p content mime s).1 b' p' ≡ objects s b' p'
  pub objects-remove_ok :
      (b p : String) (s : State)
      → (remove b (p ∷ []) s).0 ≡ none
      → objects (remove b (p ∷ []) s).1 b p ≡ none
  pub objects-remove_other :
      (b : String) (ps : List String) (b' p' : String) (s : State)
      → (b ≢ b') ⊎ All (λ p. p ≢ p') ps
      → objects (remove b ps s).1 b' p' ≡ objects s b' p'
  pub download_ok :
      (b p : String) (content : Buffer) (s : State)
      → download b p s ≡ some content
      → objects s b p ≡ some content

unfoldable pub visibility_from_key : String → Outcome Visibility
visibility_from_key key = sanitize_key key >>= λ normalized.
    done (if str_eq (first_part (split b'/' normalized)) "private" then private else public)

unfoldable pub path_for : String → Outcome String
path_for key = visibility_from_key key >>= λ v. strip_prefix key (visibility_value v)

-- `if (error) throw new StorageProviderError(…)`
abbrev pub raise_error : {A : Type 0} → String → A → Option String → Outcome A
raise_error message a none = done a
raise_error message a (some m) = fail (storage_provider_error (append message m))

abbrev pub downloaded : {Buffer : Type 0} → String → Option Buffer → Outcome Buffer
downloaded key none = fail (file_not_found_error key)
downloaded key (some b) = done b

abbrev pub signed_at : ℕ → ℕ → Signed → Outcome AccessUrl
signed_at ttl_seconds now (signed url) =
    done (record { url = url; expires_at = some (now + ttl_seconds * 1000) })
signed_at ttl_seconds now (refused m) =
    fail (storage_provider_error (append "Failed to sign URL: " m))

-- A `Map` from buckets to lists, in the order of the first insertion.
module _ {A : Type 0} where
  abbrev pub push_group : String → A → List (String × List A) → List (String × List A)
  push_group b a [] = (b, a ∷ []) ∷ []
  push_group b a ((c, l) ∷ groups) =
      let rest = push_group b a groups in
      if str_eq c b then (c, l ++ (a ∷ [])) ∷ groups else (c, l) ∷ rest

-- `result[i] = a`, inside the array
abbrev pub set_at : {A : Type 0} → ℕ → A → List (Option A) → List (Option A)
set_at i a [] = []
set_at zero a (x ∷ xs) = some a ∷ xs
set_at (suc i) a (x ∷ xs) = x ∷ set_at i a xs

-- `new Array(n)`
abbrev pub new_array : {A : Type 0} → ℕ → List (Option A)
new_array zero = []
new_array (suc n) = none ∷ new_array n

-- The loop over one bucket's replies.
abbrev pub fill_group :
    ℕ
    → List (String × ℕ)
    → List Signed
    → List (Option AccessUrl)
    → Outcome (List (Option AccessUrl))
fill_group expires_at [] replies result = done result
fill_group expires_at ((path, i) ∷ entries) [] result = fail type_error
fill_group expires_at ((path, i) ∷ entries) (refused m ∷ replies) result =
    fail (storage_provider_error (append "Failed to sign URL for " (append path (append ": " m))))
fill_group expires_at ((path, i) ∷ entries) (signed url ∷ replies) result =
    fill_group expires_at entries replies
      (set_at i (record { url = url; expires_at = some expires_at }) result)

module _ {Buffer : Type 0} (C : SupabaseClient Buffer) (public_bucket private_bucket : String) where
  abbrev pub bucket_for : Visibility → String
  bucket_for private = private_bucket
  bucket_for public = public_bucket

  unfoldable pub save : UploadInput Buffer → SaveTarget → C.State → Outcome StoredFile × C.State
  save input target = with_done (path_for target.key) (λ path s.
      let mime = or_else target.content_type input.mime_type in
      let (error, s') = C.upload (bucket_for target.visibility) path input.buffer mime s in
      let file : StoredFile = (record {
        key = target.key;
        visibility = target.visibility;
        size = input.size;
        mime_type = input.mime_type;
      }) in
      (raise_error "Failed to upload to Supabase: " file error, s'))

  unfoldable pub save_many :
      List (UploadInput Buffer × SaveTarget) → C.State → Outcome (List StoredFile) × C.State
  save_many items = promise_all (map (λ i. save i.0 i.1) items)

  -- the bucket and the path of a key
  abbrev pub address_of : String → Outcome (String × String)
  address_of key =
      visibility_from_key key >>= λ v. path_for key >>= λ path. done (bucket_for v, path)

  unfoldable pub delete : String → C.State → Outcome (Unit {0}) × C.State
  delete key = with_done (address_of key) (λ address s.
      let (error, s') = C.remove address.0 (address.1 ∷ []) s in
      (raise_error "Failed to delete from Supabase: " tt error, s'))

  -- The loop over the keys of `deleteMany`.
  abbrev pub group_paths :
      List String → List (String × List String) → Outcome (List (String × List String))
  group_paths [] grouped = done grouped
  group_paths (key ∷ keys) grouped =
      address_of key >>= λ a. group_paths keys (push_group a.0 a.1 grouped)

  abbrev pub remove_group : String × List String → C.State → Outcome (Unit {0}) × C.State
  remove_group (bucket, paths) s =
      let (error, s') = C.remove bucket paths s in
      (raise_error "Failed to delete from Supabase: " tt error, s')

  unfoldable pub delete_many : List String → C.State → Outcome (Unit {0}) × C.State
  delete_many keys = with_done (group_paths keys []) (λ grouped s.
      let (rs, s') = promise_all (map remove_group grouped) s in (rs >>= λ _. done tt, s'))

  unfoldable pub exists : String → C.State → Outcome Bool
  exists key s = address_of key >>= λ a. done (C.has a.0 a.1 s)

  unfoldable pub read : String → C.State → Outcome Buffer
  read key s = address_of key >>= λ a. downloaded key (C.download a.0 a.1 s)

  unfoldable pub public_url : String → Outcome String
  public_url key = visibility_from_key key >>= go
    where
      go : Visibility → Outcome String
      go private = fail (storage_provider_error "publicUrl called for a non-public key")
      go public = path_for key >>= λ path. done (C.get_public_url public_bucket path)

  unfoldable pub signed_url : String → ℕ → ℕ → C.State → Outcome AccessUrl
  signed_url key ttl_seconds now s =
      address_of key >>= λ a. signed_at ttl_seconds now (C.create_signed_url a.0 a.1 ttl_seconds s)

  -- The loop over the keys of `signedUrls`, from an index on.
  abbrev pub index_paths :
      ℕ
      → List String
      → List (String × List (String × ℕ))
      → Outcome (List (String × List (String × ℕ)))
  index_paths i [] by_bucket = done by_bucket
  index_paths i (key ∷ keys) by_bucket =
      address_of key >>= λ a. index_paths (i + 1) keys (push_group a.0 (a.1, i) by_bucket)

  abbrev pub fill_replies :
      ℕ
      → List (String × ℕ)
      → List Signed ⊎ String
      → List (Option AccessUrl)
      → Outcome (List (Option AccessUrl))
  fill_replies expires_at entries (inl replies) result =
      fill_group expires_at entries replies result
  fill_replies expires_at entries (inr m) result =
      fail (storage_provider_error (append "Failed to sign URLs: " m))

  -- The calls for the buckets write to places of their own in one array.
  abbrev pub sign_groups :
      ℕ
      → ℕ
      → List (String × List (String × ℕ))
      → C.State
      → List (Option AccessUrl)
      → Outcome (List (Option AccessUrl))
  sign_groups ttl_seconds expires_at [] s result = done result
  sign_groups ttl_seconds expires_at ((bucket, entries) ∷ groups) s result =
      fill_replies expires_at entries
        (C.create_signed_urls bucket (map (λ e. e.0) entries) ttl_seconds s) result
      >>= λ filled. sign_groups ttl_seconds expires_at groups s filled

  unfoldable pub signed_urls : List String → ℕ → ℕ → C.State → Outcome (List (Option AccessUrl))
  signed_urls keys ttl_seconds now s = index_paths 0 keys [] >>= λ by_bucket.
      sign_groups ttl_seconds (now + ttl_seconds * 1000) by_bucket s (new_array (length keys))

  abbrev pub supabase_provider : Provider Buffer
  supabase_provider = record {
    State = C.State;
    save = save;
    save_many = some save_many;
    delete = delete;
    delete_many = some delete_many;
    exists = exists;
    read = read;
    public_url = public_url;
    signed_url = signed_url;
    signed_urls = some signed_urls;
  }
