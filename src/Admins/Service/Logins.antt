-- ===== src/Admins/Service/Logins.antt =====
-- Logins by password: src/modules/admins/services/admin-auth.service.ts.
use nestjs_starter.Prelude.{
  ℕ, ◌≡◌, refl, sym, Option, ap, ◌∙◌, subst, String, Bool, true, false, some, Bool-cases, inl, inr,
  ◌↔◌,
}
use nestjs_starter.Exec.{Result, ok}
use nestjs_starter.Storage.{Outcome, done, fail, AccessUrl, map_done}
use nestjs_starter.Database.{Table}
use nestjs_starter.Domain.{Role, admin}
use nestjs_starter.Cache.{CacheDriver}
use nestjs_starter.Guards.{Principal}
use nestjs_starter.RefreshTokens.{RefreshTokenEntity}
use nestjs_starter.Admins.{AdminEntity, find_by_username}
use nestjs_starter.Admins.Service.{
  UpdateMeDto, UpdateTimes, World, AdminLoginDto, AdminLoginResponseDto, LoginTimes, login,
  resolve_photo_url,
}
use nestjs_starter.RefreshTokens.Service.Sessions.{issue-ok}
use nestjs_starter.Text.{is_empty}
use nestjs_starter.Admins.Passwords.{trim, is_password_hashed}
use nestjs_starter.Admins.Service.Updates.{update, update_me-Update}
use nestjs_starter.Admins.Service.Saved.{IsDistinct, found_after, password_after}

map_done-map_done :
    {A B C : Type 0} (g : A → B) (f : B → C) (o : Outcome A)
    → map_done f (map_done g o) ≡ map_done (λ x. f (g x)) o
map_done-map_done g f (done x) = refl
map_done-map_done g f (fail x) = refl

module _ (T : Table AdminEntity) (K : Table RefreshTokenEntity) (D : CacheDriver Principal)
    (sha256 : String → String) (ttl_seconds : ℕ) (bcrypt_hash : String → String → String)
    (bcrypt_compare : String → String → Bool) (create_access_token : ℕ → Role → String) where
  abbrev World' : Type 0
  World' = World T K D sha256 ttl_seconds bcrypt_hash bcrypt_compare create_access_token

  module _ (get_access_url : String → Outcome AccessUrl) where
    abbrev pub log_in :
        LoginTimes
        → String
        → AdminLoginDto
        → World'
        → Result (Outcome AdminLoginResponseDto) × World'
    log_in =
        login T K D sha256 ttl_seconds bcrypt_hash bcrypt_compare create_access_token get_access_url

    -- the URL of the photo in the response, `none` where there is no photo
    abbrev pub photo_url : AdminEntity → Outcome (Option String)
    photo_url entity =
        resolve_photo_url T K D sha256 ttl_seconds bcrypt_hash bcrypt_compare create_access_token
          get_access_url entity.photo_key

    response_for : AdminEntity → String → Option String → AdminLoginResponseDto
    response_for entity token url = record {
      access_token = create_access_token entity.id admin;
      refresh_token = token;
      admin = record { entity = entity; photo_url = url };
    }

    answered :
        AdminEntity → String → Outcome (Option String) → Result (Outcome AdminLoginResponseDto)
    answered entity token o = ok (map_done (response_for entity token) o)

    answered-done :
        (entity : AdminEntity) (token : String) (o : Outcome (Option String))
        (r : AdminLoginResponseDto)
        → answered entity token o ≡ ok (done r)
        → (url : Option String) × (o ≡ done url)
    unfolding answered
    answered-done entity token (done url) r e = (url, refl)
    answered-done entity token (fail x) r e = absurd (cc e)

    -- what is answered to a password that is right
    log_in-answered :
        (t : LoginTimes) (token : String) (dto : AdminLoginDto) (w : World') (entity : AdminEntity)
        → find_by_username T dto.username w.admins ≡ some entity
        → bcrypt_compare dto.password entity.password ≡ true
        → (log_in t token dto w).0 ≡ answered entity token (photo_url entity)
    unfolding login answered response_for
    log_in-answered t token dto w entity f k =
        let e : (log_in t token dto w).0
            ≡ ok (
                map_done
                  (λ x. record {
                    access_token = create_access_token entity.id admin;
                    refresh_token = token;
                    admin = x;
                  })
                  (map_done (λ url. record { entity = entity; photo_url = url })
                    (photo_url entity))) =
          (simp (f, k, issue-ok K sha256 ttl_seconds) refl) in
        e
        ∙ ap (λ (o : Outcome AdminLoginResponseDto). ok o)
            (map_done-map_done (λ url. record { entity = entity; photo_url = url })
              (λ x. record {
                access_token = create_access_token entity.id admin;
                refresh_token = token;
                admin = x;
              })
              (photo_url entity))

    -- A login succeeds exactly when the password is that of the account and its photo has a URL.
    login_iff :
        (t : LoginTimes) (token : String) (dto : AdminLoginDto) (w : World') (entity : AdminEntity)
        → find_by_username T dto.username w.admins ≡ some entity
        → ((r : AdminLoginResponseDto) × ((log_in t token dto w).0 ≡ ok (done r))) ↔ (
            (bcrypt_compare dto.password entity.password ≡ true)
            × ((url : Option String) × (photo_url entity ≡ done url)))
    unfolding login answered
    login_iff t token dto w entity f =
        elim (Bool-cases (bcrypt_compare dto.password entity.password)) [
          | inl k ↦ (
            λ (r, s). (
              k,
              answered-done entity token (photo_url entity) r
                  (sym (log_in-answered t token dto w entity f k) ∙ s),
            ),
            λ (k', (url, shown)). (
              response_for entity token url,
              log_in-answered t token dto w entity f k ∙ ap (answered entity token) shown,
            ),
          )
          | inr k ↦ (λ s. absurd (cc (simp (f, k) at s.1)), λ s. absurd (cc (k, s.0)))
        ]

    -- After an `updateMe` that succeeded and set a password, one that is not empty nor looks like a
    -- hash, a login under the saved username succeeds exactly when bcrypt accepts what is given for
    -- the hash of the trimmed password, and the saved photo, if there is one, gets its URL, if
    -- usernames are distinct.
    pub login-update_me_iff :
        (t : UpdateTimes) (id : ℕ) (dto : UpdateMeDto) (w : World') (saved : AdminEntity)
        (password : String)
        → (update T K D sha256 ttl_seconds bcrypt_hash bcrypt_compare create_access_token t id dto
            w).0
          ≡ ok saved
        → dto.password ≡ some password
        → is_empty password ≡ false
        → is_password_hashed password ≡ false
        → IsDistinct T K D sha256 ttl_seconds bcrypt_hash bcrypt_compare create_access_token
            w.admins
        → (lt : LoginTimes) (token given : String)
        → ((r : AdminLoginResponseDto) × ((log_in lt token
                (record { username = saved.username; password = given })
                (update T K D sha256 ttl_seconds bcrypt_hash bcrypt_compare create_access_token t id
                  dto w).1).0
              ≡ ok (done r)))
          ↔ ((bcrypt_compare given (bcrypt_hash t.salt (trim password)) ≡ true)
              × ((url : Option String) × (photo_url saved ≡ done url)))
    login-update_me_iff t id dto w saved password s p full plain distinct lt token given =
        let u =
          update_me-Update T K D sha256 ttl_seconds bcrypt_hash bcrypt_compare create_access_token t
            id dto w in
        subst
          (λ stored.
            ((r : AdminLoginResponseDto) × ((log_in lt token
                  (record { username = saved.username; password = given })
                  (update T K D sha256 ttl_seconds bcrypt_hash bcrypt_compare create_access_token t
                    id dto w).1).0
                ≡ ok (done r)))
            ↔ ((bcrypt_compare given stored ≡ true)
                × ((url : Option String) × (photo_url saved ≡ done url))))
          (password_after T K D sha256 ttl_seconds bcrypt_hash bcrypt_compare create_access_token t
            id dto w _ _ saved password u s p full plain)
          (login_iff lt token (record { username = saved.username; password = given }) _ saved
            (found_after T K D sha256 ttl_seconds bcrypt_hash bcrypt_compare create_access_token t
              id dto w _ _ saved u s distinct))
