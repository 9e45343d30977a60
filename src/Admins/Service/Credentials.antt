-- ===== src/Admins/Service/Credentials.antt =====
-- What a change of an admin's credentials by src/modules/admins/services/admin.service.ts brings.
use nestjs_starter.Prelude.{ℕ, ◌≡◌, refl, subst, String, Bool, true, none, some}
use nestjs_starter.Exec.{Result, ok}
use nestjs_starter.Database.{Table}
use nestjs_starter.Domain.{Role, admin}
use nestjs_starter.Cache.{CacheDriver}
use nestjs_starter.Cache.Keys.{auth_user}
use nestjs_starter.Guards.{Principal}
use nestjs_starter.RefreshTokens.{RefreshTokenEntity}
use nestjs_starter.RefreshTokens.Service.{
  RotateTimes, RefreshTokenRotateResult, rotate, revoke_all_for_user,
}
use nestjs_starter.RefreshTokens.Service.Revocation.{revoke_all-rotate}
use nestjs_starter.Admins.{AdminEntity, find_by_id}
use nestjs_starter.Admins.Service.{UpdateMeDto, UpdateTimes, is_changing_credentials}
use nestjs_starter.Admins.Service.Updates.{
  W, update, Update, refused, updated, settled, update_me-Update,
}

module _ (T : Table AdminEntity) (K : Table RefreshTokenEntity) (D : CacheDriver Principal)
    (sha256 : String → String) (ttl_seconds : ℕ) (bcrypt_hash : String → String → String)
    (bcrypt_compare : String → String → Bool) (create_access_token : ℕ → Role → String) where
  abbrev World' : Type 0
  World' = W T K D sha256 ttl_seconds bcrypt_hash bcrypt_compare create_access_token

  abbrev Update' : UpdateTimes → ℕ → UpdateMeDto → World' → Result AdminEntity → World' → Type 0
  Update' = Update T K D sha256 ttl_seconds bcrypt_hash bcrypt_compare create_access_token

  module _ (t : UpdateTimes) (id : ℕ) (dto : UpdateMeDto) (w : World') where
    -- the current password was given, no session is left, and no principal is cached
    abbrev pub IsRekeyed : World' → Type 0
    IsRekeyed w' =
        ((current : AdminEntity) × (find_by_id T id w.admins ≡ some current)
          × (bcrypt_compare dto.current_password current.password ≡ true))
        × ((rt : RotateTimes) (presented new_token : String) (result : RefreshTokenRotateResult)
            → (rotate K sha256 ttl_seconds rt presented new_token w'.tokens).0 ≡ ok result
            → ¬ ((result.user_id ≡ id) × (result.role ≡ admin)))
        × ((now : ℕ) → D.get now (auth_user admin id) w'.cache ≡ none)

    revoked :
        (w' : World')
        → is_changing_credentials dto ≡ true
        → (settled T K D sha256 ttl_seconds bcrypt_hash bcrypt_compare create_access_token t id dto
            w w').tokens
          ≡ revoke_all_for_user K sha256 ttl_seconds t.revoked_at id admin w'.tokens
    revoked w' k = rw k refl

    updated-IsRekeyed :
        (r : Result AdminEntity) (w' : World') (saved : AdminEntity)
        → Update' t id dto w r w'
        → r ≡ ok saved
        → is_changing_credentials dto ≡ true
        → IsRekeyed w'
    updated-IsRekeyed r w' saved (refused e) s k = absurd (cc)
    updated-IsRekeyed r w' saved (updated current f knows free) s k = (
      (current, f, knows k),
      λ rt presented new_token result e.
          revoke_all-rotate K sha256 ttl_seconds t.revoked_at id admin rt presented new_token
            w.tokens result
            (subst
              (λ tokens. (rotate K sha256 ttl_seconds rt presented new_token tokens).0 ≡ ok result)
              (revoked (record w { admins = _ }) k) e),
      λ now. D.get-delete now (auth_user admin id) _,
    )

    -- An `updateMe` that succeeded and changed the username or the password was given the current
    -- password; no refresh token given out before refreshes a session of that admin, and no
    -- principal of that admin is cached.
    pub update_me-IsRekeyed :
        (saved : AdminEntity)
        → (update T K D sha256 ttl_seconds bcrypt_hash bcrypt_compare create_access_token t id dto
            w).0
          ≡ ok saved
        → is_changing_credentials dto ≡ true
        → IsRekeyed
            (update T K D sha256 ttl_seconds bcrypt_hash bcrypt_compare create_access_token t id dto
              w).1
    update_me-IsRekeyed saved s k =
        updated-IsRekeyed _ _ saved
          (update_me-Update T K D sha256 ttl_seconds bcrypt_hash bcrypt_compare create_access_token
            t id dto w)
          s k
