-- ===== src/Guards/Admission.antt =====
-- Whom `canActivate` of src/core/guards/jwt-auth.guard.ts admits, whatever the cache holds, as long
-- as it agrees with the database.
use nestjs_starter.Prelude.{
  ℕ, ◌≡◌, ◌↔◌, ◌⊎◌, refl, sym, ap, ◌∙◌, String, true, false, Option, some, inl, inr, Bool-cases,
  Option-cases,
}
use nestjs_starter.Exec.{Result, ok}
use nestjs_starter.Domain.{Role}
use nestjs_starter.Cache.{CacheDriver, auth_user_seconds}
use nestjs_starter.Cache.Keys.{auth_user, auth_user_inj}
use nestjs_starter.Cache.ReadThrough.{
  IsCoherent, get_or_set_hit, get_or_set_miss, get_or_set-IsCoherent,
}
use nestjs_starter.Guards.{
  Principal, plain, Request, Endpoint, DecodedAccessTokenPayload, GuardTimes, can_activate,
}
use nestjs_starter.Guards.Cases.{
  Caller, read_through, GuardCase, public_endpoint, refused, rejected, admitted, guard_case,
  open_to_all, let_in,
}

module _ {Db : Type 0} (resolvers : Role → Option (ℕ → Db → Option Principal)) where
  -- an entry of the cache has the plain fields of the account that its key names
  pub record IsCached (db : Db) (key : String) (v : Principal) : Type 0 where
    pub role : Role
    pub user_id : ℕ
    pub resolver : ℕ → Db → Option Principal
    pub account : Principal
    pub names : key ≡ auth_user role user_id
    pub configured : resolvers role ≡ some resolver
    pub stored : resolver user_id db ≡ some account
    pub agrees : plain v ≡ plain account

module _ {Db : Type 0} (D : CacheDriver Principal)
    (verify_access_token : String → Option DecodedAccessTokenPayload)
    (resolvers : Role → Option (ℕ → Db → Option Principal)) where
  -- the cache and the database agree from an instant on
  abbrev pub Agrees : Db → ℕ → D.Store → Type 0
  Agrees db now s = IsCoherent D (IsCached resolvers db) now s

  -- an account that the database holds, active, behind a request to an endpoint for its role
  pub record Admission (endpoint : Endpoint) (request : Request) (db : Db) : Type 0 where
    pub caller : Caller D verify_access_token resolvers endpoint request
    pub account : Principal
    pub stored : caller.resolver caller.payload.user_id db ≡ some account
    pub active : account.is_active ≡ true

  -- an entry under the caller's key has the plain fields of the caller's account
  of_entry :
      {endpoint : Endpoint} {request : Request} {db : Db} {v : Principal}
      (c : Caller D verify_access_token resolvers endpoint request)
      → IsCached resolvers db (auth_user c.role c.payload.user_id) v
      → (account : Principal) × (c.resolver c.payload.user_id db ≡ some account)
        × (plain v ≡ plain account)
  of_entry {endpoint} {request} {db} {v} c entry =
      let (r, i) = auth_user_inj c.role entry.role c.payload.user_id entry.user_id entry.names in
      let same : some c.resolver ≡ some entry.resolver =
        (sym c.configured ∙ ap resolvers r ∙ entry.configured) in
      let resolver : c.resolver ≡ entry.resolver = cc in
      (entry.account, (λ j. resolver j (i j) db) ∙ entry.stored, entry.agrees)

  module _ (t : GuardTimes) (endpoint : Endpoint) (request : Request) (db : Db) (s : D.Store) where
    read_through-stored :
        (c : Caller D verify_access_token resolvers endpoint request) (a : Principal)
        → Agrees db t.cache_read s
        → (read_through D verify_access_token resolvers t endpoint request db s c).0 ≡ some a
        → (account : Principal) × (c.resolver c.payload.user_id db ≡ some account)
          × (plain a ≡ plain account)
    read_through-stored c a coherent e =
        let key = auth_user c.role c.payload.user_id in
        let fresh = c.resolver c.payload.user_id db in
        elim (Option-cases (D.get t.cache_read key s)) [
          | inl miss ↦ (
            a,
            cc (e, get_or_set_miss D t.cache_read t.cache_write key fresh auth_user_seconds s miss),
            refl,
          )
          | inr (cached, hit) ↦
              let (account, at, same) = of_entry c (coherent key cached hit) in
              (
                account,
                at,
                cc (
                  e,
                  same,
                  get_or_set_hit D t.cache_read t.cache_write key fresh auth_user_seconds s cached
                      hit,
                ),
              )
        ]

    stored-read_through :
        (c : Caller D verify_access_token resolvers endpoint request) (account : Principal)
        → Agrees db t.cache_read s
        → c.resolver c.payload.user_id db ≡ some account
        → (a : Principal) × ((read_through D verify_access_token resolvers t endpoint request db s
              c).0
            ≡ some a)
          × (plain a ≡ plain account)
    stored-read_through c account coherent e =
        let key = auth_user c.role c.payload.user_id in
        let fresh = c.resolver c.payload.user_id db in
        elim (Option-cases (D.get t.cache_read key s)) [
          | inl miss ↦ (
            account,
            cc (e, get_or_set_miss D t.cache_read t.cache_write key fresh auth_user_seconds s miss),
            refl,
          )
          | inr (cached, hit) ↦
              let (account', at, same) = of_entry c (coherent key cached hit) in
              (
                cached,
                cc (
                    get_or_set_hit D t.cache_read t.cache_write key fresh auth_user_seconds s cached
                      hit),
                cc (e, at, same),
              )
        ]

    -- A request is admitted exactly when its endpoint is public, or it carries a token that
    -- verifies, of a role that the endpoint allows, whose account the database holds as active at
    -- this moment: whatever the driver, as long as the cache agrees with the database when it is
    -- read.
    pub can_activate_iff :
        Agrees db t.cache_read s
        → ((request' : Request) × ((can_activate D verify_access_token resolvers t endpoint request
                db s).0
              ≡ ok request'))
          ↔ ((endpoint.is_public ≡ true) ⊎ Admission endpoint request db)
    can_activate_iff coherent = (
      λ (request', e).
          accepts (guard_case D verify_access_token resolvers t endpoint request db s) e,
      λ choice. elim choice [
        | inl p ↦ (
          request,
          ap (λ r. r.0) (open_to_all D verify_access_token resolvers t endpoint request db s p),
        )
        | inr a ↦ admits a
      ],
    )
      where
        accepts :
            {r : Result Request × D.Store} {request' : Request}
            → GuardCase D verify_access_token resolvers t endpoint request db s r
            → r.0 ≡ ok request'
            → (endpoint.is_public ≡ true) ⊎ Admission endpoint request db
        accepts (public_endpoint p) e = inl p
        accepts (refused x) e = cc
        accepts (rejected x c off) e = cc
        accepts (admitted c a private found on) e =
            let (account, at, same) = read_through-stored c a coherent found in
            inr (record {
              caller = c;
              account = account;
              stored = at;
              active = cc (ap (λ x. x.is_active) same, on);
            })

        admits :
            Admission endpoint request db
            → (request' : Request) × ((can_activate D verify_access_token resolvers t endpoint
                  request db s).0
                ≡ ok request')
        admits a =
            let (p, found, same) = stored-read_through a.caller a.account coherent a.stored in
            elim (Bool-cases endpoint.is_public) [
              | inl anyone ↦ (
                request,
                ap (λ r. r.0)
                    (open_to_all D verify_access_token resolvers t endpoint request db s anyone),
              )
              | inr private ↦ (
                record request { user = some p },
                ap (λ r. r.0)
                    (let_in D verify_access_token resolvers t endpoint request db s a.caller p
                      private found (cc (ap (λ x. x.is_active) same, a.active))),
              )
            ]

    -- What a protected handler finds in `request.user` has the plain fields (the id, whether the
    -- account is active, whether the profile is complete) of the account that the database holds,
    -- and the account is active.
    pub can_activate-user :
        (request' : Request)
        → Agrees db t.cache_read s
        → endpoint.is_public ≡ false
        → (can_activate D verify_access_token resolvers t endpoint request db s).0 ≡ ok request'
        → (a : Admission endpoint request db) × (p : Principal) × (request'.user ≡ some p)
          × (plain p ≡ plain a.account)
    can_activate-user request' coherent private e =
        go (guard_case D verify_access_token resolvers t endpoint request db s) e
      where
        go :
            {r : Result Request × D.Store}
            → GuardCase D verify_access_token resolvers t endpoint request db s r
            → r.0 ≡ ok request'
            → (a : Admission endpoint request db) × (p : Principal) × (request'.user ≡ some p)
              × (plain p ≡ plain a.account)
        go (public_endpoint p) e = absurd (cc (p, private))
        go (refused x) e = absurd cc
        go (rejected x c off) e = absurd cc
        go (admitted c a on_private found on) e =
            let (account, at, same) = read_through-stored c a coherent found in
            let active : account.is_active ≡ true = sym (ap (λ x. x.is_active) same) ∙ on in
            let returned : record request { user = some a } ≡ request' = cc in
            (
              record { caller = c; account = account; stored = at; active = active },
              a,
              sym (ap (λ r. r.user) returned),
              same,
            )

    -- The guard keeps the cache in agreement with the database.
    pub can_activate-Agrees :
        (now : ℕ)
        → ((p : Principal) → plain (D.copy p) ≡ plain p)
        → Agrees db now s
        → Agrees db now (can_activate D verify_access_token resolvers t endpoint request db s).1
    can_activate-Agrees now copies coherent =
        go (guard_case D verify_access_token resolvers t endpoint request db s)
      where
        kept :
            (c : Caller D verify_access_token resolvers endpoint request)
            → Agrees db now
                (read_through D verify_access_token resolvers t endpoint request db s c).1
        kept c =
            get_or_set-IsCoherent D (IsCached resolvers db) now t.cache_read t.cache_write
              (auth_user c.role c.payload.user_id) (c.resolver c.payload.user_id db)
              auth_user_seconds s
              (λ v e. record {
                role = c.role;
                user_id = c.payload.user_id;
                resolver = c.resolver;
                account = v;
                names = refl;
                configured = c.configured;
                stored = e;
                agrees = copies v;
              })
              coherent

        go :
            {r : Result Request × D.Store}
            → GuardCase D verify_access_token resolvers t endpoint request db s r
            → Agrees db now r.1
        go (public_endpoint p) = coherent
        go (refused x) = coherent
        go (rejected x c off) = kept c
        go (admitted c a on_private found on) = kept c
