-- ===== src/Users/Service/Races.antt =====
-- A request at the guard that overlaps a deactivation: `getOrSet` of
-- src/infrastructure/cache/cache.service.ts against `deactivateByAdmin` of
-- src/modules/users/services/user.service.ts.
use nestjs_starter.Prelude.{
  ℕ, ◌+◌, ◌*◌, ◌<◌, ◌≡◌, ap, ◌∙◌, sym, String, Bool, true, false, Option, some,
}
use nestjs_starter.Exec.{ok}
use nestjs_starter.Database.{Table}
use nestjs_starter.Domain.{Role, user}
use nestjs_starter.Cache.{CacheDriver, fill, auth_user_seconds}
use nestjs_starter.Cache.Keys.{auth_user}
use nestjs_starter.Cache.Redis.{RedisClient, redis_driver}
use nestjs_starter.Guards.{
  Principal, plain, Request, Endpoint, DecodedAccessTokenPayload, GuardTimes, can_activate,
}
use nestjs_starter.Guards.Cases.{Caller}
use nestjs_starter.Guards.Staleness.{cached_guard}
use nestjs_starter.RefreshTokens.{RefreshTokenEntity}
use nestjs_starter.Users.{UserEntity, as_principal, find_by_id}
use nestjs_starter.Users.Service.{
  World, principal_of, find_by_id_for_auth, registry, deactivate_by_admin,
}
use nestjs_starter.Users.Service.Soundness.{IsSound}
use nestjs_starter.Users.Service.Disabling.{IsDisabled}
use nestjs_starter.Users.Service.Access.{deactivated}

module _ (T : Table UserEntity) (K : Table RefreshTokenEntity) (R : RedisClient) (prefix : String)
    (stringify : Principal → String) (parse : String → Principal) (sha256 : String → String)
    (ttl_seconds : ℕ) (city_exists : ℕ → Bool)
    (verify_access_token : String → Option DecodedAccessTokenPayload)
    (admins : ℕ → Option Principal) where
  abbrev driver : CacheDriver Principal
  driver = redis_driver R prefix stringify parse

  abbrev resolvers' : Role → Option (ℕ → T.Db → Option Principal)
  resolvers' = registry T K driver sha256 ttl_seconds city_exists admins

  -- A guard that read the account before the deactivation and writes its entry after it: until the
  -- entry expires the account is disabled in the table, and its requests are admitted.
  pub stale_after_deactivation :
      (now written : ℕ) (t : GuardTimes) (endpoint : Endpoint) (request : Request)
      (w : World T K driver sha256 ttl_seconds city_exists) (entity updated : UserEntity)
      (c : Caller driver verify_access_token resolvers' endpoint request)
      → ((p : Principal) → parse (stringify p) ≡ plain p)
      → IsSound T K driver sha256 ttl_seconds city_exists verify_access_token admins w
      → endpoint.is_public ≡ false
      → c.role ≡ user
      → find_by_id T c.payload.user_id w.users ≡ some entity
      → entity.is_active ≡ true
      → (deactivate_by_admin T K driver sha256 ttl_seconds city_exists now c.payload.user_id w).0
        ≡ ok updated
      → t.cache_read < written + auth_user_seconds * 1000
      → let after =
          (deactivate_by_admin T K driver sha256 ttl_seconds city_exists now c.payload.user_id
            w).1 in
        IsDisabled T K driver sha256 ttl_seconds city_exists verify_access_token admins
          c.payload.user_id after
        × ((can_activate driver verify_access_token resolvers' t endpoint request after.users (
              fill driver written
                (auth_user user c.payload.user_id)
                auth_user_seconds
                (find_by_id_for_auth T K driver sha256 ttl_seconds city_exists c.payload.user_id
                  w.users)
                after.cache)).0
            ≡ ok (record request { user = some (plain (as_principal entity)) }))
  unfolding find_by_id_for_auth
  stale_after_deactivation now written t endpoint request w entity updated c copies sound private
        role found active e fresh =
      let after =
        (deactivate_by_admin T K driver sha256 ttl_seconds city_exists now c.payload.user_id w).1 in
      (
        deactivated T K driver sha256 ttl_seconds city_exists verify_access_token admins now
            c.payload.user_id w updated sound e,
        ap
              (λ o.
                (can_activate driver verify_access_token resolvers' t endpoint request after.users (
                  fill driver written (auth_user user c.payload.user_id) auth_user_seconds o
                    after.cache)).0)
              (ap principal_of found)
            ∙ ap
                (λ r.
                  (can_activate driver verify_access_token resolvers' t endpoint request after.users
                    (fill driver written (auth_user r c.payload.user_id) auth_user_seconds
                      (some (as_principal entity)) after.cache)).0)
                (sym role)
            ∙ cached_guard R prefix stringify parse verify_access_token resolvers' t written
                endpoint request after.users after.cache (as_principal entity) c copies private
                active fresh,
      )
