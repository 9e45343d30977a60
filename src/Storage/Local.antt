-- ===== src/Storage/Local.antt =====
-- src/infrastructure/storage/providers/local/local.provider.ts. A place in the file system is the
-- list of its segments, the deepest first. The calls of `fs/promises` are a parameter.
pub mod Confinement
pub mod Refinement
pub mod Disk
use Prim.Native.String.{◌++◌ as append}
use nestjs_starter.Prelude.{
  ℕ, ◌+◌, ◌*◌, ◌/◌, String, str_eq, Bool, true, false, not, ◌||◌, ◌≡◌, ◌≢◌, Option, none, some,
  List, [], ◌∷◌, map, if◌then◌else◌,
}
use nestjs_starter.Text.{trim_end, split, join, first_part, filter_nonempty, is_empty}
use nestjs_starter.Cache.Keys.{decimal}
use nestjs_starter.Storage.{
  Outcome, done, fail, ◌>>=◌, with_done, file_not_found_error, storage_provider_error, UploadInput,
  SaveTarget, StoredFile, AccessUrl,
}
use nestjs_starter.Storage.Paths.{trim_slashes, sanitize_key}
use nestjs_starter.Storage.Provider.{Provider}

abbrev pub Location : Type 0
Location = List String

abbrev pub parent : Location → Location
parent [] = []
parent (s ∷ p) = p

-- One segment of `path.join`: `.` and an empty segment stay, `..` goes up.
abbrev pub step_into : Location → String → Location
step_into p s = if str_eq s "" || str_eq s "." then p else if str_eq s ".." then parent p else s ∷ p

unfoldable pub walk : Location → List String → Location
walk p [] = p
walk p (s ∷ ss) = walk (step_into p s) ss

-- `path.join(base, key)` below an absolute base
unfoldable pub path_join : Location → String → Location
path_join base key = walk base (split b'/' key)

pub data FsCode : Type 0 where
  enoent other_code : FsCode

pub data FsResult (A : Type 0) : Type 0 where
  fs_ok : A → FsResult A
  fs_error : FsCode → String → FsResult A

pub record FileSystem (Buffer : Type 0) : Type 1 where
  pub Fs : Type 0
  -- the contents of the files, where there is a file
  pub files : Fs → Location → Option Buffer
  -- with `{ recursive: true }`
  pub mkdir : Location → Fs → FsResult (Unit {0}) × Fs
  pub write_file : Location → Buffer → Fs → FsResult (Unit {0}) × Fs
  pub unlink : Location → Fs → FsResult (Unit {0}) × Fs
  pub read_file : Location → Fs → FsResult Buffer
  pub access : Location → Fs → FsResult (Unit {0})
  pub files-mkdir : (p q : Location) (s : Fs) → files (mkdir p s).1 q ≡ files s q
  pub files-write_ok :
      (p : Location) (b : Buffer) (s : Fs)
      → (write_file p b s).0 ≡ fs_ok tt
      → files (write_file p b s).1 p ≡ some b
  pub files-write_other :
      (p q : Location) (b : Buffer) (s : Fs) → q ≢ p → files (write_file p b s).1 q ≡ files s q
  pub files-unlink_ok :
      (p : Location) (s : Fs) → (unlink p s).0 ≡ fs_ok tt → files (unlink p s).1 p ≡ none
  pub files-unlink_enoent :
      (p : Location) (s : Fs) (m : String)
      → (unlink p s).0 ≡ fs_error enoent m
      → files (unlink p s).1 p ≡ none
  pub files-unlink_other : (p q : Location) (s : Fs) → q ≢ p → files (unlink p s).1 q ≡ files s q
  pub read_file_ok :
      (p : Location) (b : Buffer) (s : Fs) → read_file p s ≡ fs_ok b → files s p ≡ some b
  pub read_file_enoent :
      (p : Location) (m : String) (s : Fs) → read_file p s ≡ fs_error enoent m → files s p ≡ none
  pub access-file :
      (p : Location) (b : Buffer) (s : Fs) → files s p ≡ some b → access p s ≡ fs_ok tt

-- `joinUrl`
unfoldable pub join_url : String → List String → String
join_url base segments =
    let cleaned_base = trim_end b'/' base in
    let cleaned_segments = filter_nonempty (map trim_slashes segments) in
    if is_empty cleaned_base
    then append "/" (join "/" cleaned_segments)
    else join "/" (cleaned_base ∷ cleaned_segments)

-- The `catch` blocks.
abbrev pub saved : StoredFile → FsResult (Unit {0}) → Outcome StoredFile
saved file (fs_ok _) = done file
saved file (fs_error c m) = fail (storage_provider_error (append "Failed to save file: " m))

abbrev pub deleted : FsResult (Unit {0}) → Outcome (Unit {0})
deleted (fs_ok _) = done tt
deleted (fs_error enoent m) = done tt
deleted (fs_error other_code m) = fail (storage_provider_error (append "Failed to delete file: " m))

abbrev pub accessed : FsResult (Unit {0}) → Bool
accessed (fs_ok _) = true
accessed (fs_error c m) = false

abbrev pub contents : {Buffer : Type 0} → String → FsResult Buffer → Outcome Buffer
contents key (fs_ok b) = done b
contents key (fs_error enoent m) = fail (file_not_found_error key)
contents key (fs_error other_code m) =
    fail (storage_provider_error (append "Failed to read file: " m))

module _ {Buffer : Type 0} (F : FileSystem Buffer) (base : Location) where
  -- The two calls in the `try` of `save`.
  abbrev pub write_below :
      Location → Buffer → FsResult (Unit {0}) × F.Fs → FsResult (Unit {0}) × F.Fs
  write_below p b (fs_ok _, s) = F.write_file p b s
  write_below p b (fs_error c m, s) = (fs_error c m, s)

  unfoldable pub save : UploadInput Buffer → SaveTarget → F.Fs → Outcome StoredFile × F.Fs
  save input target = with_done (sanitize_key target.key) (λ key s.
      let full_path = path_join base key in
      let (r, s') = write_below full_path input.buffer (F.mkdir (parent full_path) s) in
      (
        saved
            (record {
              key = key;
              visibility = target.visibility;
              size = input.size;
              mime_type = input.mime_type;
            })
            r,
        s',
      ))

  unfoldable pub delete : String → F.Fs → Outcome (Unit {0}) × F.Fs
  delete key =
      with_done (sanitize_key key)
        (λ normalized s. let (r, s') = F.unlink (path_join base normalized) s in (deleted r, s'))

  unfoldable pub exists : String → F.Fs → Outcome Bool
  exists key s =
      sanitize_key key >>= λ normalized. done (accessed (F.access (path_join base normalized) s))

  unfoldable pub read : String → F.Fs → Outcome Buffer
  read key s =
      sanitize_key key >>= λ normalized. contents key (F.read_file (path_join base normalized) s)

module _ (public_base_url : String) where
  unfoldable pub public_url : String → Outcome String
  public_url key =
      if not (str_eq (first_part (split b'/' key)) "public")
      then fail (storage_provider_error "publicUrl called for a non-public key")
      else (sanitize_key key >>= λ normalized.
          done (join_url public_base_url ("storage" ∷ normalized ∷ [])))

  -- `sign` is the method of the signing service, `now` is in milliseconds.
  unfoldable pub signed_url : (String → ℕ → String) → String → ℕ → ℕ → Outcome AccessUrl
  signed_url sign key ttl_seconds now = sanitize_key key >>= λ normalized.
      let expires_at = now / 1000 + ttl_seconds in
      let token = sign normalized expires_at in
      done (record {
        url =
            append (join_url public_base_url ("storage" ∷ normalized ∷ []))
              (append "?token=" (append token (append "&exp=" (decimal expires_at))));
        expires_at = some (expires_at * 1000);
      })

  -- `Promise.all` of calls that touch no state: the first failure, or all results in order.
  abbrev pub signed_url_all :
      (String → ℕ → String) → List String → ℕ → ℕ → Outcome (List (Option AccessUrl))
  signed_url_all sign [] ttl_seconds now = done []
  signed_url_all sign (k ∷ ks) ttl_seconds now = signed_url sign k ttl_seconds now >>= λ u.
      signed_url_all sign ks ttl_seconds now >>= λ us. done (some u ∷ us)

abbrev pub local_provider :
    {Buffer : Type 0}
    → FileSystem Buffer
    → Location
    → String
    → (String → ℕ → String)
    → Provider Buffer
local_provider F base public_base_url sign = record {
  State = F.Fs;
  save = save F base;
  save_many = none;
  delete = delete F base;
  delete_many = none;
  exists = exists F base;
  read = read F base;
  public_url = public_url public_base_url;
  signed_url = λ key ttl now s. signed_url public_base_url sign key ttl now;
  signed_urls = some (λ keys ttl now s. signed_url_all public_base_url sign keys ttl now);
}
