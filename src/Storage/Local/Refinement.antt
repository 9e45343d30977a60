-- ===== src/Storage/Local/Refinement.antt =====
-- The local provider is an object store: src/infrastructure/storage/providers/local/local.provider.ts.
use nestjs_starter.Prelude.{
  ℕ, String, ◌≡◌, ◌≢◌, refl, sym, ap, ◌∙◌, Option, none, some, true, List, [], ◌∷◌, All,
}
use nestjs_starter.Storage.{
  Outcome, done, fail, ◌>>=◌, both_done, AccessUrl, Visibility, UploadInput, SaveTarget, StoredFile,
  file_not_found_error,
}
use nestjs_starter.Storage.Paths.Sanitized.{IsKey, sanitize_key-IsKey}
use nestjs_starter.Storage.Provider.{IsFiled, IsObjectStore}
use nestjs_starter.Storage.Provider.Runs.{Write, IsFiledWrite, run, run_spec, read-run}
use nestjs_starter.Storage.Local.{
  Location, FileSystem, FsResult, fs_ok, fs_error, enoent, other_code, path_join, parent,
  write_below, saved, deleted, contents, save, delete, exists, read, signed_url, local_provider,
}
use nestjs_starter.Storage.Service.{sign_with, sign_each}
use nestjs_starter.Storage.Local.Confinement.{path_join-confined}

module _ {Buffer : Type 0} (F : FileSystem Buffer) (base : Location) where
  unfoldable pub stored : F.Fs → String → Option Buffer
  stored s key = F.files s (path_join base key)

  apart :
      (key other : String)
      → IsKey key
      → IsKey other
      → other ≢ key
      → path_join base other ≢ path_join base key
  apart key other h h' n e =
      let same =
        path_join-confined base other key other key (sanitize_key-IsKey other h')
          (sanitize_key-IsKey key h) in
      n (same.1 e)

  files-write_below_ok :
      (p : Location) (b : Buffer) (r : FsResult (Unit {0}) × F.Fs)
      → (write_below F base p b r).0 ≡ fs_ok tt
      → F.files (write_below F base p b r).1 p ≡ some b
  files-write_below_ok p b (fs_ok _, s) e = F.files-write_ok p b s e
  files-write_below_ok p b (fs_error c m, s) e = absurd (cc)

  files-write_below_other :
      (p q : Location) (b : Buffer) (r : FsResult (Unit {0}) × F.Fs)
      → q ≢ p
      → F.files (write_below F base p b r).1 q ≡ F.files r.1 q
  files-write_below_other p q b (fs_ok _, s) n = F.files-write_other p q b s n
  files-write_below_other p q b (fs_error c m, s) n = refl

  saved_done :
      (file file' : StoredFile) (r : FsResult (Unit {0})) → saved file r ≡ done file' → r ≡ fs_ok tt
  saved_done file file' (fs_ok _) e = refl
  saved_done file file' (fs_error c m) e = absurd (cc)

  contents_done :
      (key : String) (b : Buffer) (r : FsResult Buffer) → contents key r ≡ done b → r ≡ fs_ok b
  contents_done key b (fs_ok a) e = cc
  contents_done key b (fs_error enoent m) e = absurd (cc)
  contents_done key b (fs_error other_code m) e = absurd (cc)

  contents_missing :
      (key : String) (r : FsResult Buffer)
      → contents key r ≡ fail (file_not_found_error key)
      → (m : String) × (r ≡ fs_error enoent m)
  contents_missing key (fs_ok a) e = absurd (cc)
  contents_missing key (fs_error enoent m) e = (m, refl)
  contents_missing key (fs_error other_code m) e = absurd (cc)

  stored-deleted :
      (p : Location) (s : F.Fs) (r : FsResult (Unit {0}))
      → (F.unlink p s).0 ≡ r
      → deleted r ≡ done tt
      → F.files (F.unlink p s).1 p ≡ none
  stored-deleted p s (fs_ok _) e d = F.files-unlink_ok p s e
  stored-deleted p s (fs_error enoent m) e d = F.files-unlink_enoent p s m e
  stored-deleted p s (fs_error other_code m) e d = absurd (cc)

  -- The two writes of a saved key.
  written : Location → Buffer → F.Fs → FsResult (Unit {0}) × F.Fs
  written p b s = write_below F base p b (F.mkdir (parent p) s)

  abbrev file_of : UploadInput Buffer → SaveTarget → StoredFile
  file_of input target = record {
    key = target.key;
    visibility = target.visibility;
    size = input.size;
    mime_type = input.mime_type;
  }

  save-IsKey :
      (input : UploadInput Buffer) (target : SaveTarget) (s : F.Fs)
      → IsKey target.key
      → let w = written (path_join base target.key) input.buffer s in
        save F base input target s ≡ (saved (file_of input target) w.0, w.1)
  unfolding save written
  save-IsKey input target s h = rw (sanitize_key-IsKey target.key h) refl

  delete-IsKey :
      (key : String) (s : F.Fs)
      → IsKey key
      → let w = F.unlink (path_join base key) s in delete F base key s ≡ (deleted w.0, w.1)
  unfolding delete
  delete-IsKey key s h = rw (sanitize_key-IsKey key h) refl

  read-IsKey :
      (key : String) (s : F.Fs)
      → IsKey key
      → read F base key s ≡ contents key (F.read_file (path_join base key) s)
  unfolding read
  read-IsKey key s h = rw (sanitize_key-IsKey key h) refl

  files-written_other :
      (p q : Location) (b : Buffer) (s : F.Fs) → q ≢ p → F.files (written p b s).1 q ≡ F.files s q
  unfolding written
  files-written_other p q b s n =
      files-write_below_other p q b (F.mkdir (parent p) s) n ∙ F.files-mkdir (parent p) q s

  -- A file that is there is found, and read unless the system fails; one that is reported missing
  -- is missing.
  pub read-stored :
      (key : String) (s : F.Fs)
      → IsKey key
      → (read F base key s ≡ fail (file_not_found_error key) → stored s key ≡ none)
        × ((b : Buffer) → stored s key ≡ some b → exists F base key s ≡ done true)
  unfolding stored exists
  read-stored key s h = (
    λ e.
        let (m, missing) =
          contents_missing key (F.read_file (path_join base key) s)
            (sym (read-IsKey key s h) ∙ e) in
        F.read_file_enoent (path_join base key) m s missing,
    λ b e. rw (sanitize_key-IsKey key h, F.access-file (path_join base key) b s e) refl,
  )

  module _ (url : String) (sign : String → ℕ → String) where
    -- The provider keeps one content for each key.
    pub local_object_store : IsObjectStore (local_provider F base url sign)
    unfolding stored written
    local_object_store = record {
      view = stored;
      view-save_done = λ input target file s s' (h, _) e.
          let w = written (path_join base target.key) input.buffer s in
          let both = sym (save-IsKey input target s h) ∙ e in
          ap (λ t. F.files t (path_join base target.key)) (sym (ap (λ r. r.1) both))
          ∙ files-write_below_ok (path_join base target.key) input.buffer
              (F.mkdir (parent (path_join base target.key)) s)
              (saved_done (file_of input target) file w.0 (ap (λ r. r.0) both));
      view-save_other = λ input target v key s (h, _) (h', _) n.
          ap (λ r. F.files r.1 (path_join base key)) (save-IsKey input target s h)
          ∙ files-written_other (path_join base target.key) (path_join base key) input.buffer s
              (apart target.key key h h' n);
      view-delete_done = λ v key s s' (h, _) e.
          let both = sym (delete-IsKey key s h) ∙ e in
          ap (λ t. F.files t (path_join base key)) (sym (ap (λ r. r.1) both))
          ∙ stored-deleted (path_join base key) s (F.unlink (path_join base key) s).0 refl
              (ap (λ r. r.0) both);
      view-delete_other = λ v w key other s (h, _) (h', _) n.
          ap (λ r. F.files r.1 (path_join base other)) (delete-IsKey key s h)
          ∙ F.files-unlink_other (path_join base key) (path_join base other) s
              (apart key other h h' n);
      view-read = λ v key content s (h, _) e. F.read_file_ok (path_join base key) content s (
          contents_done key content (F.read_file (path_join base key) s)
            (sym (read-IsKey key s h) ∙ e));
    }

    -- From any state of the disk, after writes that each were good, `read` of a filed key answers
    -- the content that the writes spell, or fails; and where they spell none, it fails.
    pub read-after_writes :
        (ws : List (Write Buffer)) (s : F.Fs) (v : Visibility) (key : String) (content : Buffer)
        → All IsFiledWrite ws
        → IsFiled v key
        → (run (local_provider F base url sign) ws s).0 ≡ true
        → read F base key (run (local_provider F base url sign) ws s).1 ≡ done content
        → run_spec ws (stored s) key ≡ some content
    unfolding stored local_object_store
    read-after_writes = read-run (local_provider F base url sign) local_object_store

    -- The provider's own batch is a call of `signedUrl` for each key.
    pub signed_url_all-each :
        (keys : List String) (ttl_seconds now : ℕ) (s : F.Fs)
        → sign_with
            (local_provider F base url sign)
            ((local_provider F base url sign).signed_urls)
            keys
            ttl_seconds
            now
            s
          ≡ sign_each (local_provider F base url sign) keys ttl_seconds now s
    signed_url_all-each [] ttl_seconds now s = refl
    signed_url_all-each (k ∷ keys) ttl_seconds now s =
        ap (λ r. signed_url url sign k ttl_seconds now >>= λ u. r >>= λ us. done (some u ∷ us))
          (signed_url_all-each keys ttl_seconds now s)
        ∙ one (signed_url url sign k ttl_seconds now)
            (sign_each (local_provider F base url sign) keys ttl_seconds now s)
      where
        one :
            (r : Outcome AccessUrl) (rs : Outcome (List (Option AccessUrl)))
            → (r >>= λ u. rs >>= λ us. done (some u ∷ us)) ≡ both_done (r >>= λ u. done (some u)) rs
        one (done u) rs = refl
        one (fail e) rs = refl
