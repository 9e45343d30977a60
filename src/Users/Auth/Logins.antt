-- ===== src/Users/Auth/Logins.antt =====
-- What `verifyOtp` of src/modules/users/services/user-auth.service.ts needs and gives.
use nestjs_starter.Prelude.{
  ℕ, ◌≡◌, ◌↔◌, refl, ap, String, Bool, false, not, some, ◌≢◌, ◌∙◌, sym, subst, [], none, ◌+◌, ◌*◌,
  Option,
}
use nestjs_starter.Exec.{Result, ok, throw, HttpException}
use nestjs_starter.Database.{Table}
use nestjs_starter.Domain.{Role, user}
use nestjs_starter.Cache.{CacheDriver}
use nestjs_starter.Guards.{Principal}
use nestjs_starter.Otp.{OtpEntity, user_login}
use nestjs_starter.Otp.Service.{OtpConfig, Dispatch, verify, VerifyTimes}
use nestjs_starter.Otp.Service.Codes.{Accepts, verify_iff}
use nestjs_starter.RefreshTokens.{RefreshTokenEntity, find_by_token}
use nestjs_starter.RefreshTokens.Service.Sessions.{issue-ok, issue-found}
use nestjs_starter.Users.{UserEntity, find_by_phone}
use nestjs_starter.Users.Service.{find_one_or_create_by_phone, World}
use nestjs_starter.Users.Service.Profiles.{find_or_create-idempotent, find_or_create-existing}
use nestjs_starter.Users.Auth.{
  UserResponseDto, UserLoginResponseDto, LoginTimes, LoginState, build_response_dto, verify_otp,
  resolve_photo_url,
}
use nestjs_starter.Storage.{Outcome, done, fail, StorageFault, AccessUrl, map_done}
use nestjs_starter.RefreshTokens.Service.{issue}
use nestjs_starter.Otp.Service.Runs.{run}
use nestjs_starter.Otp.Service.Once.{verify_once}
use nestjs_starter.Otp.Service.Validity.{IsValid}

module _ (O : Table OtpEntity) (T : Table UserEntity) (K : Table RefreshTokenEntity)
    (D : CacheDriver Principal) (sha256 : String → String) (send_otp : String → String → Dispatch)
    (c : OtpConfig) (ttl_seconds : ℕ) (city_exists : ℕ → Bool)
    (create_access_token : ℕ → Role → String) (get_access_url : String → Outcome AccessUrl)
    (t : LoginTimes) (phone code token : String)
    (s : LoginState O T K D sha256 send_otp c ttl_seconds city_exists create_access_token
      get_access_url) where
  abbrev login :
      Result (Outcome UserLoginResponseDto)
      × LoginState O T K D sha256 send_otp c ttl_seconds city_exists create_access_token
          get_access_url
  login =
      verify_otp O T K D sha256 send_otp c ttl_seconds city_exists create_access_token
        get_access_url t phone code token s

  abbrev verified : Result (Unit {0}) × O.Db
  verified = verify O sha256 send_otp c t.verification phone user_login code s.otps

  abbrev account : Result UserEntity × World T K D sha256 ttl_seconds city_exists
  account = find_one_or_create_by_phone T K D sha256 ttl_seconds city_exists phone s.world

  -- the user's part of the response
  abbrev user_dto : UserEntity → Outcome UserResponseDto
  user_dto =
      build_response_dto O T K D sha256 send_otp c ttl_seconds city_exists create_access_token
        get_access_url

  abbrev response_for : UserEntity → UserResponseDto → UserLoginResponseDto
  response_for entity dto = record {
    access_token = create_access_token entity.id user;
    refresh_token = token;
    user = dto;
    requires_profile_completion = not entity.is_profile_completed;
  }

  -- The row of the token in a table of sessions: a live session of the account, with the expiry of a
  -- new one.
  pub record IsSession (entity : UserEntity) (tokens : K.Db) : Type 0 where
    pub row : RefreshTokenEntity
    pub found : find_by_token K sha256 token tokens ≡ some row
    pub owner : row.user_id ≡ entity.id
    pub as_user : row.role ≡ user
    pub live : row.revoked_at ≡ none
    pub until : row.expires_at ≡ t.token_expiry + ttl_seconds * 1000

  issued-IsSession :
      (entity : UserEntity) (tokens : K.Db)
      → IsSession entity
          (issue K sha256 ttl_seconds t.token_expiry t.token_insertion token entity.id user
            tokens).1
  issued-IsSession entity tokens =
      let (row, found, owner, as_user, live, until) =
        issue-found K sha256 ttl_seconds t.token_expiry t.token_insertion token entity.id user
          tokens in
      record {
        row = row;
        found = found;
        owner = owner;
        as_user = as_user;
        live = live;
        until = until;
      }

  -- What an accepted code leads to: the answer, the codes, and the session.
  logged_in :
      (entity : UserEntity)
      → verified.0 ≡ ok tt
      → account.0 ≡ ok entity
      → (login.0 ≡ ok (map_done (response_for entity) (user_dto entity)))
        × (login.1.otps ≡ verified.1)
        × IsSession entity login.1.world.tokens
  unfolding verify_otp
  logged_in entity v f =
      simp (v, f, issue-ok K sha256 ttl_seconds)
        (refl, refl, issued-IsSession entity account.1.tokens)

  turned_down :
      (e : HttpException) → verified.0 ≡ throw e → (login.0 ≡ throw e) × (login.1.world ≡ s.world)
  unfolding verify_otp
  turned_down e v = simp v (refl, refl)

  abbrev pub photo_url : UserEntity → Outcome (Option String)
  photo_url entity =
      resolve_photo_url O T K D sha256 send_otp c ttl_seconds city_exists create_access_token
        get_access_url entity.photo_key

  -- The photo of the account that the login finds or makes has a URL, or there is no photo.
  pub record IsShown : Type 0 where
    pub entity : UserEntity
    pub is_account : account.0 ≡ ok entity
    pub url : Option String
    pub shown : photo_url entity ≡ done url

  answered-done :
      (entity : UserEntity) (o : Outcome (Option String)) (r : UserLoginResponseDto)
      → photo_url entity ≡ o
      → map_done (response_for entity) (user_dto entity) ≡ done r
      → (url : Option String) × (photo_url entity ≡ done url)
  answered-done entity (done url) r e h = (url, e)
  answered-done entity (fail x) r e h = absurd (cc (e, h))

  succeeds-Accepts :
      (v : Result (Unit {0})) (r : UserLoginResponseDto)
      → verified.0 ≡ v
      → login.0 ≡ ok (done r)
      → Accepts O sha256 send_otp c t.verification phone user_login code s.otps × IsShown
  succeeds-Accepts (throw x) r v e = absurd (cc (e, (turned_down x v).0))
  succeeds-Accepts (ok u) r v e =
      let (entity, f, again) =
        find_or_create-idempotent T K D sha256 ttl_seconds city_exists phone s.world in
      let same : map_done (response_for entity) (user_dto entity) ≡ done r =
        (cc (e, (logged_in entity v f).0)) in
      let (url, shown) = answered-done entity (photo_url entity) r refl same in
      (
        (verify_iff O sha256 send_otp c t.verification phone user_login code s.otps).0 v,
        record { entity = entity; is_account = f; url = url; shown = shown },
      )

  -- the answer to an accepted code, where the photo has a URL
  shown_response : UserEntity → Option String → UserLoginResponseDto
  shown_response entity url = response_for entity (record { entity = entity; photo_url = url })

  Accepts-succeeds :
      Accepts O sha256 send_otp c t.verification phone user_login code s.otps
      → (shown : IsShown) → login.0 ≡ ok (done (shown_response shown.entity shown.url))
  unfolding shown_response
  Accepts-succeeds a shown =
      let v = (verify_iff O sha256 send_otp c t.verification phone user_login code s.otps).1 a in
      (logged_in shown.entity v shown.is_account).0 ∙ simp (shown.shown) refl

  -- A login succeeds exactly when the code is accepted and the photo of the account, if there is one,
  -- gets its URL. Where the code is accepted and the storage refuses the URL, the call fails with the
  -- storage's error, but the code is spent (no code of the phone is accepted then) and the session of
  -- the token that nobody was given is live.
  pub verify_otp_iff :
      (((r : UserLoginResponseDto) × (login.0 ≡ ok (done r)))
        ↔ (Accepts O sha256 send_otp c t.verification phone user_login code s.otps × IsShown))
      × (Accepts O sha256 send_otp c t.verification phone user_login code s.otps
          → IsValid O s.otps
          → (entity : UserEntity) (e : StorageFault) → account.0 ≡ ok entity
          → photo_url entity ≡ fail e
          → (login.0 ≡ ok (fail e))
            × IsSession entity login.1.world.tokens
            × ((t' : VerifyTimes) (code' : String)
                → (verify O sha256 send_otp c t' phone user_login code' login.1.otps).0 ≢ ok tt))
  verify_otp_iff = (
    (
      λ (r, e). succeeds-Accepts verified.0 r refl e,
      λ (a, shown). (shown_response shown.entity shown.url, Accepts-succeeds a shown),
    ),
    λ a valid entity e f failed.
        let v = (verify_iff O sha256 send_otp c t.verification phone user_login code s.otps).1 a in
        let (answer, otps, session) = logged_in entity v f in
        (
          answer ∙ simp failed refl,
          session,
          λ t' code' again.
              verify_once O sha256 send_otp c phone user_login t.verification t' code code' s.otps
                [] valid v tt
                (subst (λ db. (verify O sha256 send_otp c t' phone user_login code' db).0 ≡ ok tt)
                  (otps ∙ sym (unfold run in refl)) again),
        ),
  )

  -- A login whose code is refused is answered with that refusal, and makes no user, no session and
  -- no entry of the cache.
  pub verify_otp-verify :
      (e : HttpException)
      → (verify O sha256 send_otp c t.verification phone user_login code s.otps).0 ≡ throw e
      → (login.0 ≡ throw e) × (login.1.world ≡ s.world)
  verify_otp-verify = turned_down

  -- A disabled user with an accepted code, and with no photo or one that gets its URL, is logged in:
  -- the answer has an access token of the account and the new refresh token, and that token leads to
  -- a live session of the account.
  pub verify_otp_disabled :
      (entity : UserEntity) (url : Option String)
      → (verify O sha256 send_otp c t.verification phone user_login code s.otps).0 ≡ ok tt
      → find_by_phone T phone s.world.users ≡ some entity
      → entity.is_active ≡ false
      → photo_url entity ≡ done url
      → (r : UserLoginResponseDto) × (login.0 ≡ ok (done r))
        × (r.user.entity.is_active ≡ false)
        × (r.access_token ≡ create_access_token entity.id user)
        × (r.refresh_token ≡ token)
        × IsSession entity login.1.world.tokens
  unfolding shown_response
  verify_otp_disabled entity url v f off shown =
      let found =
        find_or_create-existing T K D sha256 ttl_seconds city_exists phone s.world entity f in
      let (answer, _, session) = logged_in entity v (ap (λ x. x.0) found) in
      (shown_response entity url, answer ∙ simp shown refl, off, refl, refl, session)
