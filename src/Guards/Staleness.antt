-- ===== src/Guards/Staleness.antt =====
-- Where a cached principal and the account differ: src/core/guards behind the Redis driver of
-- src/infrastructure/cache.
use nestjs_starter.Prelude.{
  ℕ, ◌+◌, ◌*◌, ◌<◌, ◌≡◌, refl, ap, ◌∙◌, String, true, false, Option, none, some,
}
use nestjs_starter.Exec.{Result, ok, throw, forbidden, tr}
use nestjs_starter.Domain.{Role, user}
use nestjs_starter.Cache.{CacheDriver, fill, auth_user_seconds}
use nestjs_starter.Cache.Keys.{auth_user}
use nestjs_starter.Cache.ReadThrough.{fill-some, get_or_set_hit, get_or_set_miss}
use nestjs_starter.Cache.Redis.{RedisClient, redis_driver, redis_get, redis_get-set_fresh}
use nestjs_starter.Guards.{
  Principal, plain, Request, Endpoint, DecodedAccessTokenPayload, GuardTimes, can_activate,
  profile_completed,
}
use nestjs_starter.Guards.Cases.{Caller, read_through, let_in}

module _ {Db : Type 0} (R : RedisClient) (prefix : String) (stringify : Principal → String)
    (parse : String → Principal) (verify_access_token : String → Option DecodedAccessTokenPayload)
    (resolvers : Role → Option (ℕ → Db → Option Principal)) where
  abbrev driver : CacheDriver Principal
  driver = redis_driver R prefix stringify parse

  abbrev guard : GuardTimes → Endpoint → Request → Db → R.Data → Result Request × R.Data
  guard = can_activate driver verify_access_token resolvers

  -- A principal that was written is what the guard hands on until the entry expires, whatever the
  -- database holds by then.
  pub cached_guard :
      (t : GuardTimes) (written : ℕ) (endpoint : Endpoint) (request : Request) (db : Db)
      (s : R.Data) (account : Principal)
      (c : Caller driver verify_access_token resolvers endpoint request)
      → ((p : Principal) → parse (stringify p) ≡ plain p)
      → endpoint.is_public ≡ false
      → account.is_active ≡ true
      → t.cache_read < written + auth_user_seconds * 1000
      → (guard t endpoint request db (
          fill driver written
            (auth_user c.role c.payload.user_id)
            auth_user_seconds
            (some account)
            s)).0
        ≡ ok (record request { user = some (plain account) })
  cached_guard t written endpoint request db s account c copies private active fresh =
      let key = auth_user c.role c.payload.user_id in
      let s' = fill driver written key auth_user_seconds (some account) s in
      let hit : redis_get R prefix stringify parse t.cache_read key s' ≡ some (plain account) =
        (ap (redis_get R prefix stringify parse t.cache_read key)
            (fill-some driver written key auth_user_seconds account s)
          ∙ redis_get-set_fresh R prefix stringify parse t.cache_read written auth_user_seconds key
              account s fresh
          ∙ ap some (copies account)) in
      let found =
        get_or_set_hit driver t.cache_read t.cache_write key (c.resolver c.payload.user_id db)
          auth_user_seconds s' (plain account) hit in
      ap (λ r. r.0)
        (let_in driver verify_access_token resolvers t endpoint request db s' c (plain account)
          private (ap (λ r. r.0) found) active)

  abbrev IsIncompleteUser : Principal → Type 0
  IsIncompleteUser p =
      (p.role ≡ some user) × (p.is_profile_completed ≡ some false) × (p.is_active ≡ true)

  -- Of two requests of a user with an incomplete profile, the first finds no entry in the cache and
  -- is refused by the completion guard; the second, before the entry expires, passes it.
  pub completion_bypassed :
      (t t' : GuardTimes) (endpoint : Endpoint) (request : Request) (db : Db) (s : R.Data)
      (account : Principal) (c : Caller driver verify_access_token resolvers endpoint request)
      → ((p : Principal) → parse (stringify p) ≡ plain p)
      → endpoint.is_public ≡ false
      → IsIncompleteUser account
      → c.resolver c.payload.user_id db ≡ some account
      → redis_get R prefix stringify parse t.cache_read (auth_user c.role c.payload.user_id) s
        ≡ none
      → t'.cache_read < t.cache_write + auth_user_seconds * 1000
      → let first = guard t endpoint request db s in
        let second = guard t' endpoint request db first.1 in
        (r r' : Request) × (first.0 ≡ ok r)
        × (profile_completed r ≡ throw (forbidden (tr "user.errors.profile_not_completed")))
        × (second.0 ≡ ok r')
        × (profile_completed r' ≡ ok tt)
  unfolding profile_completed
  completion_bypassed t t' endpoint request db s account c copies private (role, completed, active)
        stored miss fresh =
      let key = auth_user c.role c.payload.user_id in
      let found : read_through driver verify_access_token resolvers t endpoint request db s c
          ≡ (some account, fill driver t.cache_write key auth_user_seconds (some account) s) =
        (get_or_set_miss driver t.cache_read t.cache_write key (c.resolver c.payload.user_id db)
            auth_user_seconds s miss
          ∙ ap (λ o. (o, fill driver t.cache_write key auth_user_seconds o s)) stored) in
      let first =
        let_in driver verify_access_token resolvers t endpoint request db s c account private
          (ap (λ r. r.0) found) active in
      let left : (guard t endpoint request db s).1
          ≡ fill driver t.cache_write key auth_user_seconds (some account) s =
        (ap (λ r. r.1) first ∙ ap (λ r. r.1) found) in
      (
        record request { user = some account },
        record request { user = some (plain account) },
        ap (λ r. r.0) first,
        simp (role, completed) refl,
        ap (λ x. (guard t' endpoint request db x).0) left
            ∙ cached_guard t' t.cache_write endpoint request db s account c copies private active
                fresh,
        refl,
      )
