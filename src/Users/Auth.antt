-- ===== src/Users/Auth.antt =====
-- src/modules/users/services/user-auth.service.ts: a login by phone runs on the codes and on what
-- the users service runs on. The signing of an access token is a parameter, and so is what
-- `getAccessUrl` of the storage service answers for the photo's key when the response is built.
pub mod Logins
mod Tests
use nestjs_starter.Prelude.{ℕ, String, Bool, not, Option, none, some, if◌then◌else◌}
use nestjs_starter.Text.{is_empty}
use nestjs_starter.Storage.{Outcome, done, AccessUrl, map_done}
use nestjs_starter.Exec.{Result, Exec, pure, ◌>>=◌, ◌>>◌}
use nestjs_starter.Database.{Table}
use nestjs_starter.Domain.{Role, user}
use nestjs_starter.Cache.{CacheDriver}
use nestjs_starter.Guards.{Principal}
use nestjs_starter.Otp.{OtpEntity, user_login}
use nestjs_starter.Otp.Service.{
  OtpConfig, Dispatch, OtpIssueResult, IssueTimes, VerifyTimes, issue, verify,
}
use nestjs_starter.RefreshTokens.{RefreshTokenEntity}
use nestjs_starter.RefreshTokens.Service.{RefreshTokenIssueResult, issue as issue_token}
use nestjs_starter.Users.{UserEntity}
use nestjs_starter.Users.Service.{World, find_one_or_create_by_phone}

-- `UserResponseDto.fromEntity(user, photoUrl)`
pub record UserResponseDto : Type 0 where
  pub entity : UserEntity
  pub photo_url : Option String

pub record UserLoginResponseDto : Type 0 where
  pub access_token : String
  pub refresh_token : String
  pub user : UserResponseDto
  pub requires_profile_completion : Bool

pub record LoginTimes : Type 0 where
  pub verification : VerifyTimes
  pub token_expiry : ℕ
  pub token_insertion : ℕ

module _ (O : Table OtpEntity) (T : Table UserEntity) (K : Table RefreshTokenEntity)
    (D : CacheDriver Principal) (sha256 : String → String) (send_otp : String → String → Dispatch)
    (c : OtpConfig) (ttl_seconds : ℕ) (city_exists : ℕ → Bool)
    (create_access_token : ℕ → Role → String) (get_access_url : String → Outcome AccessUrl) where
  pub record LoginState : Type 0 where
    pub otps : O.Db
    pub world : World T K D sha256 ttl_seconds city_exists

  -- a call of another service, on its part of the state
  abbrev pub on_otps : {A : Type 0} → Exec O.Db A → Exec LoginState A
  on_otps m s = let (r, otps) = m s.otps in (r, record s { otps = otps })

  abbrev pub on_users :
      {A : Type 0} → Exec (World T K D sha256 ttl_seconds city_exists) A → Exec LoginState A
  on_users m s = let (r, world) = m s.world in (r, record s { world = world })

  abbrev pub on_tokens : {A : Type 0} → Exec K.Db A → Exec LoginState A
  on_tokens m s =
      let (r, tokens) = m s.world.tokens in
      (r, record s { world = record s.world { tokens = tokens } })

  -- of user.service.ts, from the entity's key
  abbrev pub resolve_photo_url : Option String → Outcome (Option String)
  resolve_photo_url none = done none
  resolve_photo_url (some key) =
      if is_empty key then done none else map_done (λ access. some access.url) (get_access_url key)

  abbrev pub build_response_dto : UserEntity → Outcome UserResponseDto
  build_response_dto entity =
      map_done (λ photo_url. record { entity = entity; photo_url = photo_url })
        (resolve_photo_url entity.photo_key)

  pub request_otp : IssueTimes → String → String → Exec LoginState OtpIssueResult
  request_otp t phone generated = on_otps (issue O sha256 send_otp c t phone user_login generated)

  -- The token is the random text that the refresh-token service generates. An exception of the
  -- storage is no HTTP exception: it comes back as the outcome's failure.
  pub verify_otp :
      LoginTimes → String → String → String → Exec LoginState (Outcome UserLoginResponseDto)
  verify_otp t phone code token = do
    on_otps (verify O sha256 send_otp c t.verification phone user_login code)
    entity ← on_users (find_one_or_create_by_phone T K D sha256 ttl_seconds city_exists phone)
    refresh ←
        on_tokens
          (issue_token K sha256 ttl_seconds t.token_expiry t.token_insertion token entity.id user)
    pure (
        map_done
          (λ dto. record {
            access_token = create_access_token entity.id user;
            refresh_token = refresh.token;
            user = dto;
            requires_profile_completion = not entity.is_profile_completed;
          })
          (build_response_dto entity))
