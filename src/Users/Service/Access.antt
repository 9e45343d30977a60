-- ===== src/Users/Service/Access.antt =====
-- Who gets in after an account changed: src/modules/users/services/user.service.ts in front of the
-- guard of src/core/guards/jwt-auth.guard.ts and the refresh tokens.
use nestjs_starter.Prelude.{
  ℕ, ◌≡◌, ◌≢◌, refl, ap, sym, ◌∙◌, String, Bool, true, false, Option, none, some, List, All,
  Option-cases, inl, inr, arith,
}
use nestjs_starter.Exec.{Result, ok}
use nestjs_starter.Database.{Table}
use nestjs_starter.Domain.{user}
use nestjs_starter.Cache.{CacheDriver}
use nestjs_starter.Cache.ReadThrough.{IsCoherent-later}
use nestjs_starter.Guards.{
  Principal, plain, Request, Endpoint, DecodedAccessTokenPayload, GuardTimes, can_activate,
}
use nestjs_starter.Guards.Cases.{Caller}
use nestjs_starter.Guards.Admission.{can_activate_iff}
use nestjs_starter.RefreshTokens.{RefreshTokenEntity}
use nestjs_starter.RefreshTokens.Service.{RotateTimes, RefreshTokenRotateResult, rotate}
use nestjs_starter.RefreshTokens.Service.Revocation.{revoke_all-rotate}
use nestjs_starter.Users.{UserEntity, as_principal, find_by_id}
use nestjs_starter.Users.Repository.{find_by_id-merged}
use nestjs_starter.Users.Service.{
  principal_of, find_by_id_for_auth, find_by_id_or_fail, save_merged, set_active, revoke_sessions,
  invalidate_auth_cache, deactivate_by_admin, activate_by_admin,
}
use nestjs_starter.Users.Service.Soundness.{
  Call, deactivate, activate, W, resolvers, run, activates, IsSound, perform-IsSound, run-IsSound,
}
use nestjs_starter.Users.Service.Disabling.{IsDisabled, run-IsDisabled}

module _ (T : Table UserEntity) (K : Table RefreshTokenEntity) (D : CacheDriver Principal)
    (sha256 : String → String) (ttl_seconds : ℕ) (city_exists : ℕ → Bool)
    (verify_access_token : String → Option DecodedAccessTokenPayload)
    (admins : ℕ → Option Principal) where
  abbrev Bearer : Endpoint → Request → Type 0
  Bearer =
      Caller D verify_access_token
        (resolvers T K D sha256 ttl_seconds city_exists verify_access_token admins)

  abbrev World' : Type 0
  World' = W T K D sha256 ttl_seconds city_exists verify_access_token admins

  abbrev Sound : World' → Type 0
  Sound = IsSound T K D sha256 ttl_seconds city_exists verify_access_token admins

  abbrev guarded : GuardTimes → Endpoint → Request → World' → Result Request
  guarded t endpoint request w =
      (can_activate D verify_access_token
        (resolvers T K D sha256 ttl_seconds city_exists verify_access_token admins) t endpoint
        request w.users w.cache).0

  -- what a deactivation that succeeded has found
  pub deactivated :
      (now id : ℕ) (w : World') (updated : UserEntity)
      → Sound w
      → (deactivate_by_admin T K D sha256 ttl_seconds city_exists now id w).0 ≡ ok updated
      → IsDisabled T K D sha256 ttl_seconds city_exists verify_access_token admins id
          (deactivate_by_admin T K D sha256 ttl_seconds city_exists now id w).1
  unfolding deactivate_by_admin find_by_id_or_fail save_merged revoke_sessions invalidate_auth_cache
  deactivated now id w updated sound e = elim (Option-cases (find_by_id T id w.users)) [
    | inl n ↦ absurd (ground (arith, n, e))
    | inr (current, f) ↦ simp f (
      set_active false current,
      find_by_id-merged T w.users id current (set_active false) f sound.ordered (λ x. refl),
      refl,
    )
  ]

  activated :
      (id : ℕ) (w : World') (updated : UserEntity)
      → Sound w
      → (activate_by_admin T K D sha256 ttl_seconds city_exists id w).0 ≡ ok updated
      → (entity : UserEntity) × (find_by_id T id
            (activate_by_admin T K D sha256 ttl_seconds city_exists id w).1.users
          ≡ some entity)
        × (entity.is_active ≡ true)
  unfolding activate_by_admin find_by_id_or_fail save_merged invalidate_auth_cache
  activated id w updated sound e = elim (Option-cases (find_by_id T id w.users)) [
    | inl n ↦ absurd (ground (arith, n, e))
    | inr (current, f) ↦ simp f (
      set_active true current,
      find_by_id-merged T w.users id current (set_active true) f sound.ordered (λ x. refl),
      refl,
    )
  ]

  caller_same :
      (endpoint : Endpoint) (request : Request) (c c' : Bearer endpoint request)
      → (c.role ≡ c'.role) × (c.payload ≡ c'.payload)
  caller_same endpoint request c c' =
      let token : c.token ≡ c'.token = cc in
      let payload : c.payload ≡ c'.payload = cc in
      let role : c.role ≡ c'.role = cc in (role, payload)

  resolver_of :
      (endpoint : Endpoint) (request : Request) (c : Bearer endpoint request)
      → c.role ≡ user
      → find_by_id_for_auth T K D sha256 ttl_seconds city_exists ≡ c.resolver
  resolver_of endpoint request c role =
      let known : some (find_by_id_for_auth T K D sha256 ttl_seconds city_exists)
          ≡ some c.resolver =
        (sym (ap (resolvers T K D sha256 ttl_seconds city_exists verify_access_token admins) role)
          ∙ c.configured) in
      cc

  is_on : Option Principal → Bool
  is_on none = false
  is_on (some p) = p.is_active

  after_deactivation :
      ((p : Principal) → plain (D.copy p) ≡ plain p)
      → (now id : ℕ) (w : World') → Sound w
      → Sound (deactivate_by_admin T K D sha256 ttl_seconds city_exists now id w).1
  after_deactivation copies now id w sound =
      perform-IsSound T K D sha256 ttl_seconds city_exists verify_access_token admins copies
        (deactivate now id) w sound

  refused :
      (t : GuardTimes) (endpoint : Endpoint) (request : Request) (id : ℕ) (w : World')
      → Sound w
      → IsDisabled T K D sha256 ttl_seconds city_exists verify_access_token admins id w
      → (c : Bearer endpoint request) → c.role ≡ user
      → c.payload.user_id ≡ id
      → endpoint.is_public ≡ false
      → ¬ ((request' : Request) × (guarded t endpoint request w ≡ ok request'))
  unfolding is_on find_by_id_for_auth
  refused t endpoint request id w sound (e, f, off) c role names private admitted =
      elim ((can_activate_iff D verify_access_token
          (resolvers T K D sha256 ttl_seconds city_exists verify_access_token admins) t endpoint
          request w.users w.cache
          (IsCoherent-later D _ 0 t.cache_read w.cache (omega arith) sound.cached)).0
        admitted) [
          | inl p ↦ absurd (cc (p, private))
          | inr a ↦
              let (same_role, same_payload) = caller_same endpoint request c a.caller in
              let resolver = resolver_of endpoint request a.caller (sym same_role ∙ role) in
              let at : id ≡ a.caller.payload.user_id =
                (sym names ∙ ap (λ p. p.user_id) same_payload) in
              let account : principal_of (find_by_id T id w.users) ≡ some a.account =
                ((λ i. resolver i (at i) w.users) ∙ a.stored) in
              absurd (cc (a.active, off, ap is_on (ap principal_of (sym f) ∙ account)))
        ]

  -- Once an account was deactivated, no request with a token of it passes the guard at a protected
  -- endpoint, whatever calls and requests come in between, one after the other, as long as none of
  -- them activates the account; the cache, which agreed with the table before, does not delay this.
  pub deactivate-can_activate :
      (now id : ℕ) (calls : List Call) (t : GuardTimes) (endpoint : Endpoint) (request : Request)
      (w : World') (updated : UserEntity) (c : Bearer endpoint request)
      → ((p : Principal) → plain (D.copy p) ≡ plain p)
      → Sound w
      → (deactivate_by_admin T K D sha256 ttl_seconds city_exists now id w).0 ≡ ok updated
      → All
          (λ call.
            activates T K D sha256 ttl_seconds city_exists verify_access_token admins call
            ≢ some id)
          calls
      → c.role ≡ user
      → c.payload.user_id ≡ id
      → endpoint.is_public ≡ false
      → ¬ (
          (request' : Request) × (guarded t endpoint request (
              run T K D sha256 ttl_seconds city_exists verify_access_token admins calls
                (deactivate_by_admin T K D sha256 ttl_seconds city_exists now id w).1)
            ≡ ok request'))
  deactivate-can_activate now id calls t endpoint request w updated c copies sound e others role
        names private =
      let off = deactivated now id w updated sound e in
      let sound' = after_deactivation copies now id w sound in
      refused t endpoint request id _
        (run-IsSound T K D sha256 ttl_seconds city_exists verify_access_token admins copies calls _
          sound')
        (run-IsDisabled T K D sha256 ttl_seconds city_exists verify_access_token admins copies calls
          id _ others sound' off)
        c role names private

  -- A deactivation ends the sessions: no refresh token that was given out before refreshes a
  -- session of the account.
  pub deactivate-rotate :
      (now id : ℕ) (t : RotateTimes) (presented new_token : String) (w : World')
      (updated : UserEntity) (result : RefreshTokenRotateResult)
      → (deactivate_by_admin T K D sha256 ttl_seconds city_exists now id w).0 ≡ ok updated
      → (rotate K sha256 ttl_seconds t presented new_token
          (deactivate_by_admin T K D sha256 ttl_seconds city_exists now id w).1.tokens).0
        ≡ ok result
      → ¬ ((result.user_id ≡ id) × (result.role ≡ user))
  unfolding deactivate_by_admin find_by_id_or_fail save_merged revoke_sessions invalidate_auth_cache
  deactivate-rotate now id t presented new_token w updated result e r =
      elim (Option-cases (find_by_id T id w.users)) [
        | inl n ↦ absurd (ground (arith, n, e))
        | inr (current, f) ↦
            revoke_all-rotate K sha256 ttl_seconds now id user t presented new_token w.tokens result
              (simp f at r)
      ]

  -- After an activation the next request with a token of the account, at an endpoint that allows
  -- it, is admitted at once, also where the cache still held the disabled account.
  pub activate-can_activate :
      (id : ℕ) (t : GuardTimes) (endpoint : Endpoint) (request : Request) (w : World')
      (updated : UserEntity) (c : Bearer endpoint request)
      → ((p : Principal) → plain (D.copy p) ≡ plain p)
      → Sound w
      → (activate_by_admin T K D sha256 ttl_seconds city_exists id w).0 ≡ ok updated
      → c.role ≡ user
      → c.payload.user_id ≡ id
      → (request' : Request) × (guarded t endpoint request
            (activate_by_admin T K D sha256 ttl_seconds city_exists id w).1
          ≡ ok request')
  unfolding find_by_id_for_auth
  activate-can_activate id t endpoint request w updated c copies sound e role names =
      let w' = (activate_by_admin T K D sha256 ttl_seconds city_exists id w).1 in
      let sound' =
        perform-IsSound T K D sha256 ttl_seconds city_exists verify_access_token admins copies
          (activate id) w sound in
      let (entity, found, active) = activated id w updated sound e in
      let resolver = resolver_of endpoint request c role in
      (can_activate_iff D verify_access_token
          (resolvers T K D sha256 ttl_seconds city_exists verify_access_token admins) t endpoint
          request w'.users w'.cache
          (IsCoherent-later D _ 0 t.cache_read w'.cache (omega arith) sound'.cached)).1
        (inr (record {
          caller = c;
          account = as_principal entity;
          stored = sym (λ i. resolver i (sym names i) w'.users) ∙ ap principal_of found;
          active = active;
        }))
