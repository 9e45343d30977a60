-- ===== src/Admins/Service/Updates.antt =====
-- The branches of `updateMe` of src/modules/admins/services/admin.service.ts.
use nestjs_starter.Prelude.{
  ℕ, ◌≡◌, refl, String, Bool, true, false, not, ◌&&◌, Option, none, some, Bool-cases, Option-cases,
  ◌⊎◌, inl, inr, arith,
}
use nestjs_starter.Exec.{Result, HttpException, ok, throw, conflict, unauthorized, tr}
use nestjs_starter.Database.{Table}
use nestjs_starter.Domain.{Role}
use nestjs_starter.Cache.{CacheDriver}
use nestjs_starter.Guards.{Principal}
use nestjs_starter.RefreshTokens.{RefreshTokenEntity}
use nestjs_starter.Lookups.{changed, taken_by_other}
use nestjs_starter.Admins.{AdminEntity, has_id, find_by_id, find_by_username}
use nestjs_starter.Admins.Service.{
  UpdateMeDto, UpdateTimes, World, is_changing_credentials, merged, check_username, update_me,
  merge_and_save, revoke_if, invalidate_auth_cache, invalid_credentials,
}

module _ (T : Table AdminEntity) (K : Table RefreshTokenEntity) (D : CacheDriver Principal)
    (sha256 : String → String) (ttl_seconds : ℕ) (bcrypt_hash : String → String → String)
    (bcrypt_compare : String → String → Bool) (create_access_token : ℕ → Role → String) where
  abbrev pub W : Type 0
  W = World T K D sha256 ttl_seconds bcrypt_hash bcrypt_compare create_access_token

  abbrev pub update : UpdateTimes → ℕ → UpdateMeDto → W → Result AdminEntity × W
  update = update_me T K D sha256 ttl_seconds bcrypt_hash bcrypt_compare create_access_token

  module _ (t : UpdateTimes) (id : ℕ) (dto : UpdateMeDto) (w : W) where
    abbrev pub written : AdminEntity → AdminEntity
    written = merged T K D sha256 ttl_seconds bcrypt_hash bcrypt_compare create_access_token t dto

    abbrev pub settled : W → W
    settled w' =
        invalidate_auth_cache T K D sha256 ttl_seconds bcrypt_hash bcrypt_compare
          create_access_token id
          (revoke_if T K D sha256 ttl_seconds bcrypt_hash bcrypt_compare create_access_token
            (is_changing_credentials dto) t.revoked_at id w')

    -- the answer, and the state after
    pub data Update : Result AdminEntity → W → Type 0 where
      refused : (e : HttpException) → Update (throw e) w
      updated :
          (current : AdminEntity)
          → find_by_id T id w.admins ≡ some current
          → (is_changing_credentials dto ≡ true
              → bcrypt_compare dto.current_password current.password ≡ true)
          → ((name : String)
              → changed dto.username current.username ≡ some name
              → taken_by_other (has_id current.id) (find_by_username T name w.admins) ≡ false)
          → Update (ok (written current)) (
              settled (record w {
                admins = T.update (has_id current.id) (λ row. written current) w.admins;
              }))

    name_checked :
        (current : AdminEntity) (given : Option String)
        → ((check_username T K D sha256 ttl_seconds bcrypt_hash bcrypt_compare create_access_token
                current given w
              ≡ (ok tt, w))
            × ((name : String)
                → given ≡ some name
                → taken_by_other (has_id current.id) (find_by_username T name w.admins) ≡ false))
          ⊎ (check_username T K D sha256 ttl_seconds bcrypt_hash bcrypt_compare create_access_token
                current given w
              ≡ (throw (conflict (tr "admin.errors.username_taken")), w))
    unfolding check_username
    name_checked current none = inl (refl, λ name e. absurd (cc))
    name_checked current (some name) =
        elim (Bool-cases (taken_by_other (has_id current.id) (find_by_username T name w.admins))) [
          | inl t ↦ inr (rw t refl)
          | inr f ↦ inl (rw f refl, λ other e. cc)
        ]

    pub update_me-Update : Update (update t id dto w).0 (update t id dto w).1
    unfolding update_me merge_and_save
    update_me-Update = elim (Option-cases (find_by_id T id w.admins)) [
      | inl n ↦ simp n (refused invalid_credentials)
      | inr (current, f) ↦
          elim (Bool-cases (
            is_changing_credentials dto
            && not (bcrypt_compare dto.current_password current.password))) [
              | inl bad ↦
                  simp (f, bad)
                    (refused (unauthorized (tr "admin.errors.current_password_incorrect")))
              | inr good ↦ elim (name_checked current (changed dto.username current.username)) [
                | inl (c, free) ↦
                    let knows : is_changing_credentials dto ≡ true
                        → bcrypt_compare dto.current_password current.password ≡ true =
                      (λ k. ground (arith, good, k)) in
                    simp (f, good, c) (updated current f knows free)
                | inr c ↦ simp (f, good, c) (refused (conflict (tr "admin.errors.username_taken")))
              ]
            ]
    ]
