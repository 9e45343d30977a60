-- ===== src/Storage/Provider.antt =====
-- src/infrastructure/storage/providers/storage-provider.interface.ts, and the abstract store that a
-- provider stands for: a function from keys to contents.
pub mod Runs
use nestjs_starter.Prelude.{ℕ, String, Bool, Option, some, none, List, ◌≡◌, ◌≢◌}
use nestjs_starter.Text.{split, first_part}
use nestjs_starter.Storage.Paths.Sanitized.{IsKey}
use nestjs_starter.Storage.{
  Visibility, visibility_value, Outcome, done, UploadInput, SaveTarget, StoredFile, AccessUrl,
}

pub record Provider (Buffer : Type 0) : Type 1 where
  pub State : Type 0
  pub save : UploadInput Buffer → SaveTarget → State → Outcome StoredFile × State
  pub save_many :
      Option (List (UploadInput Buffer × SaveTarget) → State → Outcome (List StoredFile) × State)
  pub delete : String → State → Outcome (Unit {0}) × State
  pub delete_many : Option (List String → State → Outcome (Unit {0}) × State)
  pub exists : String → State → Outcome Bool
  pub read : String → State → Outcome Buffer
  pub public_url : String → Outcome String
  -- given the seconds to live and the time in milliseconds
  pub signed_url : String → ℕ → ℕ → State → Outcome AccessUrl
  -- an element of the array that was never set is `none`
  pub signed_urls : Option (List String → ℕ → ℕ → State → Outcome (List (Option AccessUrl)))

-- A key below the segment of its visibility, as `buildSaveTarget` makes it.
abbrev pub IsFiled : Visibility → String → Type 0
IsFiled v key = IsKey key × (first_part (split b'/' key) ≡ visibility_value v)

-- The stored contents as a function of the key.
pub record IsObjectStore {Buffer : Type 0} (P : Provider Buffer) : Type 0 where
  pub view : P.State → String → Option Buffer
  pub view-save_done :
      (input : UploadInput Buffer) (target : SaveTarget) (file : StoredFile) (s s' : P.State)
      → IsFiled target.visibility target.key
      → P.save input target s ≡ (done file, s')
      → view s' target.key ≡ some input.buffer
  pub view-save_other :
      (input : UploadInput Buffer) (target : SaveTarget) (v : Visibility) (key : String)
      (s : P.State)
      → IsFiled target.visibility target.key
      → IsFiled v key
      → key ≢ target.key
      → view (P.save input target s).1 key ≡ view s key
  pub view-delete_done :
      (v : Visibility) (key : String) (s s' : P.State)
      → IsFiled v key
      → P.delete key s ≡ (done tt, s')
      → view s' key ≡ none
  pub view-delete_other :
      (v w : Visibility) (key other : String) (s : P.State)
      → IsFiled v key
      → IsFiled w other
      → other ≢ key
      → view (P.delete key s).1 other ≡ view s other
  pub view-read :
      (v : Visibility) (key : String) (content : Buffer) (s : P.State)
      → IsFiled v key
      → P.read key s ≡ done content
      → view s key ≡ some content
