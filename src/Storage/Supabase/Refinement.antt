-- ===== src/Storage/Supabase/Refinement.antt =====
-- The Supabase provider is an object store, if its two buckets are two:
-- src/infrastructure/storage/providers/supabase/supabase.provider.ts.
use nestjs_starter.Prelude.{
  String, true, false, ◌≡◌, ◌≢◌, refl, sym, ap, ◌∙◌, Option, none, some, or_else, ◌⊎◌, inl, inr,
  if◌then◌else◌, List, [], ◌∷◌, All,
}
use nestjs_starter.Text.{is_empty}
use nestjs_starter.Storage.{
  Visibility, public, private, visibility_value, Outcome, done, fail, UploadInput, SaveTarget,
  StoredFile,
}
use nestjs_starter.Storage.Paths.{trim_slashes}
use nestjs_starter.Storage.Paths.Sanitized.{sanitize_key-IsKey}
use nestjs_starter.Storage.Paths.Prefixes.{below, key-cases, strip_prefix_whole, strip_prefix_below}
use nestjs_starter.Storage.Provider.{IsFiled, IsObjectStore}
use nestjs_starter.Storage.Provider.Runs.{Write, IsFiledWrite, run, run_spec, read-run}
use nestjs_starter.Storage.Supabase.{
  SupabaseClient, visibility_from_key, path_for, address_of, bucket_for, save, delete, read,
  raise_error, downloaded, supabase_provider,
}

visibility_from_key-filed :
    (v : Visibility) (key : String) → IsFiled v key → visibility_from_key key ≡ done v
unfolding visibility_from_key
visibility_from_key-filed public key (h, e) = rw (sanitize_key-IsKey key h, e) refl
visibility_from_key-filed private key (h, e) = rw (sanitize_key-IsKey key h, e) refl

-- the key of a path under a visibility
key_at : Visibility → String → String
key_at v path = if is_empty path then visibility_value v else below (visibility_value v) path

value-trimmed : (v : Visibility) → trim_slashes (visibility_value v) ≡ visibility_value v
value-trimmed public = refl
value-trimmed private = refl

value-present : (v : Visibility) → is_empty (visibility_value v) ≡ false
value-present public = refl
value-present private = refl

path_for-filed :
    (v : Visibility) (key : String)
    → IsFiled v key
    → (path : String) × (path_for key ≡ done path) × (key ≡ key_at v path)
unfolding path_for key_at
path_for-filed v key (h, e) = elim (key-cases key (visibility_value v) h e) [
  | inl whole ↦ (
    "",
    rw (visibility_from_key-filed v key (h, e))
        (strip_prefix_whole key (visibility_value v) h (value-trimmed v) (value-present v) whole),
    whole,
  )
  | inr (rest, e', full) ↦ (
    rest,
    rw (visibility_from_key-filed v key (h, e)) (
        strip_prefix_below key (visibility_value v) h (value-trimmed v) (value-present v) rest e'
          full),
    rw full e',
  )
]

module _ {Buffer : Type 0} (C : SupabaseClient Buffer) (public_bucket private_bucket : String)
    (two : public_bucket ≢ private_bucket) where
  abbrev bucket : Visibility → String
  bucket = bucket_for C public_bucket private_bucket

  at_address : C.State → Outcome (String × String) → Option Buffer
  at_address s (fail e) = none
  at_address s (done a) = C.objects s a.0 a.1

  unfoldable pub held : C.State → String → Option Buffer
  unfolding at_address
  held s key = at_address s (address_of C public_bucket private_bucket key)

  address-filed :
      (v : Visibility) (key path : String)
      → IsFiled v key
      → path_for key ≡ done path
      → address_of C public_bucket private_bucket key ≡ done (bucket v, path)
  address-filed v key path h e = rw (visibility_from_key-filed v key h, e) refl

  held-filed :
      (v : Visibility) (key path : String) (s : C.State)
      → IsFiled v key
      → path_for key ≡ done path
      → held s key ≡ C.objects s (bucket v) path
  unfolding held at_address
  held-filed v key path s h e = ap (at_address s) (address-filed v key path h e)

  apart :
      (v w : Visibility) (key other path path' : String)
      → key ≡ key_at v path
      → other ≡ key_at w path'
      → other ≢ key
      → (bucket v ≢ bucket w) ⊎ (path ≢ path')
  apart public public key other path path' e e' n =
      inr (λ same. n (e' ∙ ap (key_at public) (sym same) ∙ sym e))
  apart private private key other path path' e e' n =
      inr (λ same. n (e' ∙ ap (key_at private) (sym same) ∙ sym e))
  apart public private key other path path' e e' n = inl two
  apart private public key other path path' e e' n = inl (λ same. two (sym same))

  raise_error_done :
      {A : Type 0} (m : String) (a b : A) (r : Option String)
      → raise_error m a r ≡ done b
      → r ≡ none
  raise_error_done m a b none e = refl
  raise_error_done m a b (some t) e = absurd (cc)

  downloaded_done :
      (key : String) (b : Buffer) (r : Option Buffer) → downloaded key r ≡ done b → r ≡ some b
  downloaded_done key b none e = absurd (cc)
  downloaded_done key b (some a) e = cc

  file_of : UploadInput Buffer → SaveTarget → StoredFile
  file_of input target = record {
    key = target.key;
    visibility = target.visibility;
    size = input.size;
    mime_type = input.mime_type;
  }

  uploaded : UploadInput Buffer → SaveTarget → String → C.State → Option String × C.State
  uploaded input target path =
      C.upload (bucket target.visibility) path input.buffer
        (or_else target.content_type input.mime_type)

  save-filed :
      (input : UploadInput Buffer) (target : SaveTarget) (path : String) (s : C.State)
      → path_for target.key ≡ done path
      → let w = uploaded input target path s in
        save C public_bucket private_bucket input target s
        ≡ (raise_error "Failed to upload to Supabase: " (file_of input target) w.0, w.1)
  unfolding save uploaded file_of
  save-filed input target path s e = rw e refl

  removed : Visibility → String → C.State → Option String × C.State
  removed v path = C.remove (bucket v) (path ∷ [])

  delete-filed :
      (v : Visibility) (key path : String) (s : C.State)
      → IsFiled v key
      → path_for key ≡ done path
      → let w = removed v path s in
        delete C public_bucket private_bucket key s
        ≡ (raise_error "Failed to delete from Supabase: " tt w.0, w.1)
  unfolding delete removed
  delete-filed v key path s h e = rw (address-filed v key path h e) refl

  read-filed :
      (v : Visibility) (key path : String) (s : C.State)
      → IsFiled v key
      → path_for key ≡ done path
      → read C public_bucket private_bucket key s ≡ downloaded key (C.download (bucket v) path s)
  unfolding read
  read-filed v key path s h e = rw (address-filed v key path h e) refl

  -- The provider keeps one content for each filed key.
  pub supabase_object_store : IsObjectStore (supabase_provider C public_bucket private_bucket)
  unfolding uploaded removed
  supabase_object_store = record {
    view = held;
    view-save_done = λ input target file s s' h e.
        let (path, at, _) = path_for-filed target.visibility target.key h in
        let both = sym (save-filed input target path s at) ∙ e in
        held-filed target.visibility target.key path s' h at
        ∙ ap (λ t. C.objects t (bucket target.visibility) path) (sym (ap (λ r. r.1) both))
        ∙ C.objects-upload_ok (bucket target.visibility) path input.buffer
            (or_else target.content_type input.mime_type) s
            (raise_error_done "Failed to upload to Supabase: " (file_of input target) file
              (uploaded input target path s).0 (ap (λ r. r.0) both));
    view-save_other = λ input target v key s h h' n.
        let (path, at, whole) = path_for-filed target.visibility target.key h in
        let (path', at', whole') = path_for-filed v key h' in
        held-filed v key path' (save C public_bucket private_bucket input target s).1 h' at'
        ∙ ap (λ r. C.objects r.1 (bucket v) path') (save-filed input target path s at)
        ∙ C.objects-upload_other (bucket target.visibility) path (bucket v) path' input.buffer
            (or_else target.content_type input.mime_type) s
            (apart target.visibility v target.key key path path' whole whole' n)
        ∙ sym (held-filed v key path' s h' at');
    view-delete_done = λ v key s s' h e.
        let (path, at, _) = path_for-filed v key h in
        let both = sym (delete-filed v key path s h at) ∙ e in
        held-filed v key path s' h at
        ∙ ap (λ t. C.objects t (bucket v) path) (sym (ap (λ r. r.1) both))
        ∙ C.objects-remove_ok (bucket v) path s (
            raise_error_done "Failed to delete from Supabase: " tt tt (removed v path s).0
              (ap (λ r. r.0) both));
    view-delete_other = λ v w key other s h h' n.
        let (path, at, whole) = path_for-filed v key h in
        let (path', at', whole') = path_for-filed w other h' in
        held-filed w other path' (delete C public_bucket private_bucket key s).1 h' at'
        ∙ ap (λ r. C.objects r.1 (bucket w) path') (delete-filed v key path s h at)
        ∙ C.objects-remove_other (bucket v) (path ∷ []) (bucket w) path' s
            (elim (apart v w key other path path' whole whole' n) [
              | inl b ↦ inl b
              | inr p ↦ inr (p, tt)
            ])
        ∙ sym (held-filed w other path' s h' at');
    view-read = λ v key content s h e.
        let (path, at, _) = path_for-filed v key h in
        held-filed v key path s h at
        ∙ C.download_ok (bucket v) path content s (
            downloaded_done key content (C.download (bucket v) path s)
              (sym (read-filed v key path s h at) ∙ e));
  }

  -- From any state of the buckets, after writes that each were good, `read` of a filed key answers
  -- the content that the writes spell, or fails; and where they spell none, it fails.
  pub download-after_writes :
      (ws : List (Write Buffer)) (s : C.State) (v : Visibility) (key : String) (content : Buffer)
      → All IsFiledWrite ws
      → IsFiled v key
      → (run (supabase_provider C public_bucket private_bucket) ws s).0 ≡ true
      → read C public_bucket private_bucket key
          (run (supabase_provider C public_bucket private_bucket) ws s).1
        ≡ done content
      → run_spec ws (held s) key ≡ some content
  unfolding held supabase_object_store
  download-after_writes =
      read-run (supabase_provider C public_bucket private_bucket) supabase_object_store
