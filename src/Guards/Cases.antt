-- ===== src/Guards/Cases.antt =====
-- The branches of `canActivate` of src/core/guards/jwt-auth.guard.ts, as a view.
use nestjs_starter.Prelude.{
  refl, ℕ, ◌≡◌, refl, String, true, false, Option, some, inl, inr, Bool-cases, Option-cases,
}
use nestjs_starter.Exec.{Result, ok, throw, HttpException}
use nestjs_starter.Domain.{Role}
use nestjs_starter.Cache.{CacheDriver, get_or_set, auth_user_seconds}
use nestjs_starter.Cache.Keys.{auth_user}
use nestjs_starter.Guards.{
  Principal, Request, Endpoint, DecodedAccessTokenPayload, GuardTimes, extract_bearer_token,
  coerce_role, forbids, principal, can_activate,
}

module _ {Db : Type 0} (D : CacheDriver Principal)
    (verify_access_token : String → Option DecodedAccessTokenPayload)
    (resolvers : Role → Option (ℕ → Db → Option Principal)) where
  -- who a request says it comes from, and that the endpoint is for that role
  pub record Caller (endpoint : Endpoint) (request : Request) : Type 0 where
    pub token : String
    pub payload : DecodedAccessTokenPayload
    pub role : Role
    pub resolver : ℕ → Db → Option Principal
    pub presents : extract_bearer_token request.authorization ≡ some token
    pub verified : verify_access_token token ≡ some payload
    pub claims : coerce_role payload.role ≡ some role
    pub allowed : forbids endpoint.roles role ≡ false
    pub configured : resolvers role ≡ some resolver

  module _ (t : GuardTimes) (endpoint : Endpoint) (request : Request) (db : Db) (s : D.Store) where
    abbrev pub read_through : Caller endpoint request → Option Principal × D.Store
    read_through c =
        get_or_set D t.cache_read t.cache_write (auth_user c.role c.payload.user_id)
          (c.resolver c.payload.user_id db) auth_user_seconds s

    pub data GuardCase : Result Request × D.Store → Type 0 where
      public_endpoint : endpoint.is_public ≡ true → GuardCase (ok request, s)
      refused : (e : HttpException) → GuardCase (throw e, s)
      rejected :
          (e : HttpException) (c : Caller endpoint request)
          → ((a : Principal) → (read_through c).0 ≡ some a → a.is_active ≡ false)
          → GuardCase (throw e, (read_through c).1)
      admitted :
          (c : Caller endpoint request) (a : Principal)
          → endpoint.is_public ≡ false
          → (read_through c).0 ≡ some a
          → a.is_active ≡ true
          → GuardCase (ok (record request { user = some a }), (read_through c).1)

    pub identified :
        (c : Caller endpoint request)
        → endpoint.is_public ≡ false
        → GuardCase (can_activate D verify_access_token resolvers t endpoint request db s)
    unfolding can_activate principal
    identified c private = elim (Option-cases (read_through c).0) [
      | inl n ↦
          simp (private, c.presents, c.verified, c.claims, c.allowed, c.configured, n)
            (rejected _ c (λ a e. cc))
      | inr (a, f) ↦ elim (Bool-cases a.is_active) [
        | inl on ↦
            simp (private, c.presents, c.verified, c.claims, c.allowed, c.configured, f, on)
              (admitted c a private f on)
        | inr off ↦
            simp (private, c.presents, c.verified, c.claims, c.allowed, c.configured, f, off)
              (rejected _ c (λ b e. cc))
      ]
    ]

    pub guard_case :
        GuardCase (can_activate D verify_access_token resolvers t endpoint request db s)
    unfolding can_activate
    guard_case = elim (Bool-cases endpoint.is_public) [
      | inl p ↦ simp p (public_endpoint p)
      | inr p ↦ elim (Option-cases (extract_bearer_token request.authorization)) [
        | inl n ↦ simp (p, n) (refused _)
        | inr (token, e) ↦ elim (Option-cases (verify_access_token token)) [
          | inl n ↦ simp (p, e, n) (refused _)
          | inr (payload, v) ↦ elim (Option-cases (coerce_role payload.role)) [
            | inl n ↦ simp (p, e, v, n) (refused _)
            | inr (role, r) ↦ elim (Bool-cases (forbids endpoint.roles role)) [
              | inl f ↦ simp (p, e, v, r, f) (refused _)
              | inr f ↦ elim (Option-cases (resolvers role)) [
                | inl n ↦ simp (p, e, v, r, f, n) (refused _)
                | inr (resolver, h) ↦
                    identified
                      (record {
                        token = token;
                        payload = payload;
                        role = role;
                        resolver = resolver;
                        presents = e;
                        verified = v;
                        claims = r;
                        allowed = f;
                        configured = h;
                      })
                      p
              ]
            ]
          ]
        ]
      ]
    ]

    pub open_to_all :
        endpoint.is_public ≡ true
        → can_activate D verify_access_token resolvers t endpoint request db s ≡ (ok request, s)
    unfolding can_activate
    open_to_all p = simp p refl

    pub let_in :
        (c : Caller endpoint request) (a : Principal)
        → endpoint.is_public ≡ false
        → (read_through c).0 ≡ some a
        → a.is_active ≡ true
        → can_activate D verify_access_token resolvers t endpoint request db s
          ≡ (ok (record request { user = some a }), (read_through c).1)
    unfolding can_activate principal
    let_in c a private f on =
        simp (private, c.presents, c.verified, c.claims, c.allowed, c.configured, f, on) refl
