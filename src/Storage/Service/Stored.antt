-- ===== src/Storage/Service/Stored.antt =====
-- What an upload that succeeds has done: src/infrastructure/storage/service/storage.service.ts.
use nestjs_starter.Prelude.{String, ◌≡◌, ◌≢◌, refl, sym, ap, ◌∙◌, subst, some, or_else}
use nestjs_starter.Storage.{
  Visibility, Outcome, done, fail, ◌>>=◌, with_done, UploadInput, StoredFile,
}
use nestjs_starter.Storage.Provider.{Provider, IsFiled, IsObjectStore}
use nestjs_starter.Storage.Validation.{ValidationPolicy, Content}
use nestjs_starter.Storage.Validation.Accepted.{IsAccepted, validate-IsAccepted}
use nestjs_starter.Storage.Compression.{Sharp}
use nestjs_starter.Storage.Service.{
  StorageConfig, UploadOptions, Stamp, resolve_validation, resolve_compression, build_save_target,
  check_with, process_with, upload,
}
use nestjs_starter.Storage.Service.Upload.{IsFolder, IsSafeText, build_save_target-IsFiled}

with_done-cases :
    {S A B : Type 0} (r : Outcome A) (f : A → S → Outcome B × S) (s s' : S) (b : B)
    → with_done r f s ≡ (done b, s')
    → (a : A) × (r ≡ done a) × (f a s ≡ (done b, s'))
with_done-cases (done a) f s s' b e = (a, refl, e)
with_done-cases (fail x) f s s' b e = absurd (cc (ap (λ p. p.0) e))

bind-cases :
    {A B : Type 0} (r : Outcome A) (f : A → Outcome B) (b : B)
    → r >>= f ≡ done b
    → (a : A) × (r ≡ done a) × (f a ≡ done b)
bind-cases (fail e) f b h = absurd (cc)
bind-cases (done a) f b h = (a, refl, h)

module _ (to_lower_case : String → String) {Buffer : Type 0} (P : Provider Buffer)
    (R : Content Buffer) (S : Sharp Buffer) (config : StorageConfig) (store : IsObjectStore P)
    (options : UploadOptions) (stamp : Stamp) (safe : IsSafeText to_lower_case stamp)
    (folder : IsFolder (or_else options.folder "")) where
  -- The file that came in met the policy, unless validation is off; what the compression made of it
  -- is what the store holds under a key of the wanted visibility; every other filed key keeps its
  -- content.
  abbrev pub IsUploaded : UploadInput Buffer → P.State → P.State → Type 0
  IsUploaded input s s' =
      (final : UploadInput Buffer) × ((policy : ValidationPolicy)
        → resolve_validation config.default_validation options.validation ≡ some policy
        → IsAccepted to_lower_case R input policy)
      × (process_with to_lower_case P R S config
            (resolve_compression config.default_compression options.compression) input
          ≡ done final)
      × (let key = (build_save_target to_lower_case final options stamp).key in
          IsFiled options.visibility key
          × (store.view s' key ≡ some final.buffer)
          × ((v : Visibility) (other : String)
              → IsFiled v other
              → other ≢ key
              → store.view s' other ≡ store.view s other))

  -- If an upload succeeds, to a folder that is none or a key, and neither the clock nor
  -- `toLowerCase` makes a separator, the file has been uploaded.
  pub upload-IsUploaded :
      (input : UploadInput Buffer) (file : StoredFile) (s s' : P.State)
      → upload to_lower_case P R S config input options stamp s ≡ (done file, s')
      → IsUploaded input s s'
  unfolding upload
  upload-IsUploaded input file s s' e =
      let policy = resolve_compression config.default_compression options.compression in
      let checked =
        check_with to_lower_case P R S config
          (resolve_validation config.default_validation options.validation) input in
      let (final, made, saved) =
        with_done-cases (checked >>= λ _. process_with to_lower_case P R S config policy input)
          (λ final. P.save final (build_save_target to_lower_case final options stamp)) s s' file
          e in
      let (_, passed, processed) =
        bind-cases checked (λ _. process_with to_lower_case P R S config policy input) final made in
      let target = build_save_target to_lower_case final options stamp in
      let (same, filed) = build_save_target-IsFiled to_lower_case final options stamp safe folder in
      let filed_target = subst (λ v. IsFiled v target.key) (sym same) filed in
      (
        final,
        λ policy given.
            validate-IsAccepted to_lower_case R input policy
              (ap (λ o. check_with to_lower_case P R S config o input) (sym given) ∙ passed),
        processed,
        (
          filed,
          store.view-save_done final target file s s' filed_target saved,
          λ v other h n.
              ap (λ r. store.view r.1 other) (sym saved)
              ∙ store.view-save_other final target v other s filed_target h n,
        ),
      )
