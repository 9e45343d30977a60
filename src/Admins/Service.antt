-- ===== src/Admins/Service.antt =====
-- `updateMe` of src/modules/admins/services/admin.service.ts and `login` of admin-auth.service.ts.
-- bcrypt is two parameters, so is the signing of an access token, and so is what `getAccessUrl` of
-- the storage service answers for the photo's key when the response of a login is built. The unique
-- index on the username, the upload of photos, and the comparison that only spends time are left
-- out.
pub mod Updates
pub mod Credentials
pub mod Saved
pub mod Logins
mod Tests
use nestjs_starter.Prelude.{
  ℕ, String, str_eq, Bool, true, false, ◌&&◌, ◌||◌, not, Option, none, some, is_some, or_else,
  if◌then◌else◌,
}
use nestjs_starter.Exec.{
  Exec, HttpException, ok, unauthorized, conflict, tr, pure, raise, gets, modify, throw_if,
  or_throw, ◌>>=◌, ◌>>◌,
}
use nestjs_starter.Text.{is_empty}
use nestjs_starter.Storage.{Outcome, done, AccessUrl, map_done}
use nestjs_starter.Database.{Table}
use nestjs_starter.Domain.{Role, admin}
use nestjs_starter.Cache.{CacheDriver}
use nestjs_starter.Cache.Keys.{auth_user}
use nestjs_starter.Guards.{Principal}
use nestjs_starter.RefreshTokens.{RefreshTokenEntity}
use nestjs_starter.RefreshTokens.Service.{issue, revoke_all_for_user}
use nestjs_starter.Lookups.{changed, present_or, taken_by_other}
use nestjs_starter.Admins.{AdminEntity, has_id, hash_password_on_save, find_by_id, find_by_username}

-- A field that is absent stays; the phone may become null. The validation demands
-- `currentPassword` where the service reads it.
pub record UpdateMeDto : Type 0 where
  pub first_name : Option String
  pub last_name : Option String
  pub phone : Option (Option String)
  pub username : Option String
  pub password : Option String
  pub current_password : String

pub record AdminLoginDto : Type 0 where
  pub username : String
  pub password : String

-- `AdminResponseDto.fromEntity(admin, photoUrl)`
pub record AdminResponseDto : Type 0 where
  pub entity : AdminEntity
  pub photo_url : Option String

pub record AdminLoginResponseDto : Type 0 where
  pub access_token : String
  pub refresh_token : String
  pub admin : AdminResponseDto

pub record UpdateTimes : Type 0 where
  pub salt : String
  pub hashed_at : ℕ
  pub revoked_at : ℕ

pub record LoginTimes : Type 0 where
  pub token_expiry : ℕ
  pub token_insertion : ℕ

abbrev pub invalid_credentials : HttpException
invalid_credentials = unauthorized (tr "admin.errors.invalid_credentials")

abbrev pub is_changing_credentials : UpdateMeDto → Bool
is_changing_credentials dto = is_some dto.username || is_some dto.password

-- `repo.merge(entity, changes)`
abbrev pub merge : UpdateMeDto → AdminEntity → AdminEntity
merge dto entity = record entity {
  first_name = present_or dto.first_name entity.first_name;
  last_name = present_or dto.last_name entity.last_name;
  phone = or_else dto.phone entity.phone;
  username = present_or dto.username entity.username;
  password = present_or dto.password entity.password;
}

module _ (T : Table AdminEntity) (K : Table RefreshTokenEntity) (D : CacheDriver Principal)
    (sha256 : String → String) (ttl_seconds : ℕ) (bcrypt_hash : String → String → String)
    (bcrypt_compare : String → String → Bool) (create_access_token : ℕ → Role → String) where
  pub record World : Type 0 where
    pub admins : T.Db
    pub tokens : K.Db
    pub cache : D.Store

  abbrev pub on_tokens : {A : Type 0} → Exec K.Db A → Exec World A
  on_tokens m w = let (r, tokens) = m w.tokens in (r, record w { tokens = tokens })

  abbrev pub check_password : String → AdminEntity → Bool
  check_password plain_password entity = bcrypt_compare plain_password entity.password

  -- the merged entity, as its hook leaves it
  abbrev pub merged : UpdateTimes → UpdateMeDto → AdminEntity → AdminEntity
  merged t dto current = hash_password_on_save bcrypt_hash t.salt t.hashed_at (merge dto current)

  unfoldable pub merge_and_save : UpdateTimes → AdminEntity → UpdateMeDto → Exec World AdminEntity
  merge_and_save t current dto w = (
    ok (merged t dto current),
    record w { admins = T.update (has_id current.id) (λ row. merged t dto current) w.admins },
  )

  unfoldable pub check_username : AdminEntity → Option String → Exec World (Unit {0})
  check_username current none = pure tt
  check_username current (some username) = do
    existing ← gets (λ w. find_by_username T username w.admins)
    throw_if (taken_by_other (has_id current.id) existing)
        (conflict (tr "admin.errors.username_taken"))

  -- rotated credentials kill every active session
  abbrev pub revoke_if : Bool → ℕ → ℕ → World → World
  revoke_if false now id w = w
  revoke_if true now id w = record w {
    tokens = revoke_all_for_user K sha256 ttl_seconds now id admin w.tokens;
  }

  abbrev pub invalidate_auth_cache : ℕ → World → World
  invalidate_auth_cache id w = record w { cache = D.delete (auth_user admin id) w.cache }

  unfoldable pub update_me : UpdateTimes → ℕ → UpdateMeDto → Exec World AdminEntity
  update_me t id dto = do
    found ← gets (λ w. find_by_id T id w.admins)
    current ← or_throw found invalid_credentials
    throw_if (is_changing_credentials dto && not (check_password dto.current_password current))
        (unauthorized (tr "admin.errors.current_password_incorrect"))
    check_username current (changed dto.username current.username)
    saved ← merge_and_save t current dto
    modify (revoke_if (is_changing_credentials dto) t.revoked_at id)
    modify (invalidate_auth_cache id)
    pure saved

  module _ (get_access_url : String → Outcome AccessUrl) where
    -- of admin.service.ts, from the entity's key
    abbrev pub resolve_photo_url : Option String → Outcome (Option String)
    resolve_photo_url none = done none
    resolve_photo_url (some key) =
        if is_empty key
        then done none
        else map_done (λ access. some access.url) (get_access_url key)

    abbrev pub build_response_dto : AdminEntity → Outcome AdminResponseDto
    build_response_dto entity =
        map_done (λ photo_url. record { entity = entity; photo_url = photo_url })
          (resolve_photo_url entity.photo_key)

    -- The token is the random text that the refresh-token service generates. An exception of the
    -- storage is no HTTP exception: it comes back as the outcome's failure.
    unfoldable pub login :
        LoginTimes → String → AdminLoginDto → Exec World (Outcome AdminLoginResponseDto)
    login t token dto = do
      found ← gets (λ w. find_by_username T dto.username w.admins)
      entity ← or_throw found invalid_credentials
      throw_if (not (check_password dto.password entity)) invalid_credentials
      refresh ←
          on_tokens
            (issue K sha256 ttl_seconds t.token_expiry t.token_insertion token entity.id admin)
      pure (
          map_done
            (λ dto. record {
              access_token = create_access_token entity.id admin;
              refresh_token = refresh.token;
              admin = dto;
            })
            (build_response_dto entity))
