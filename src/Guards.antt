-- ===== src/Guards.antt =====
-- src/core/guards and src/core/auth/user-resolver.registry.ts. A principal is what a guard reads of
-- an account: its plain fields, and the `role` that the entity's prototype computes, which an
-- object that was parsed from JSON does not have. The verification of a token's signature and the
-- decorators' metadata are parameters.
pub mod Cases
pub mod Admission
pub mod Staleness
pub mod Samples
mod Tests
use Prim.Native.Char.{code}
use Prim.Native.String.{[] as nil, ◌∷◌ as char_then}
use nestjs_starter.Prelude.{
  ℕ, String, str_eq, Bool, true, false, not, ◌&&◌, Option, none, some, List, [], ◌∷◌, any, is_some,
  or_else, ◌==◌, if◌then◌else◌,
}
use nestjs_starter.Exec.{
  Result, ok, throw, HttpException, unauthorized, forbidden, internal_server_error, tr, Exec, pure,
  raise, gets, throw_if, or_throw, ◌>>=◌, ◌>>◌,
}
use nestjs_starter.Domain.{Role, admin, user, role_eq}
use nestjs_starter.Cache.{CacheDriver, get_or_set, auth_user_seconds}
use nestjs_starter.Cache.Keys.{auth_user}

pub record Principal : Type 0 where
  pub id : ℕ
  pub is_active : Bool
  -- the column of users; admins have none
  pub is_profile_completed : Option Bool
  -- the prototype's getter, where the object has it
  pub role : Option Role

-- what is left of an entity after `JSON.parse(JSON.stringify(entity))`
abbrev pub plain : Principal → Principal
plain p = record p { role = none }

pub record Request : Type 0 where
  pub authorization : Option String
  pub user : Option Principal

-- the decorators of a handler, or else of its class
pub record Endpoint : Type 0 where
  pub is_public : Bool
  pub roles : Option (List Role)

pub record DecodedAccessTokenPayload : Type 0 where
  pub user_id : ℕ
  -- none where the claim is no string
  pub role : Option String

pub record GuardTimes : Type 0 where
  pub cache_read : ℕ
  pub cache_write : ℕ

module _ {Db : Type 0} where
  -- `register`: none where it throws
  pub register :
      Role
      → (ℕ → Db → Option Principal)
      → (Role → Option (ℕ → Db → Option Principal))
      → Option (Role → Option (ℕ → Db → Option Principal))
  register role resolver resolvers =
      if is_some (resolvers role)
      then none
      else some (λ r. if role_eq role r then some resolver else resolvers r)

-- the parts of `header.split(' ')`: the first, and the text behind the first space
abbrev pub first_part : String → String
first_part nil = nil
first_part (char_then c s) =
    let rest = first_part s in if code c == b' ' then nil else char_then c rest

abbrev pub behind_space : String → Option String
behind_space nil = none
behind_space (char_then c s) = let rest = behind_space s in if code c == b' ' then some s else rest

abbrev pub bearer : String → Option String → Option String
bearer scheme none = none
bearer scheme (some rest) =
    if str_eq scheme "Bearer" && not (str_eq (first_part rest) "")
    then some (first_part rest)
    else none

pub extract_bearer_token : Option String → Option String
extract_bearer_token none = none
extract_bearer_token (some header) = bearer (first_part header) (behind_space header)

pub coerce_role : Option String → Option Role
coerce_role none = none
coerce_role (some value) =
    if str_eq value "admin" then some admin else if str_eq value "user" then some user else none

-- `requiredRoles?.length && !requiredRoles.includes(role)`
abbrev pub forbids : Option (List Role) → Role → Bool
forbids none role = false
forbids (some []) role = false
forbids (some (r ∷ rest)) role = not (any (role_eq role) (r ∷ rest))

module _ {Db : Type 0} (D : CacheDriver Principal)
    (verify_access_token : String → Option DecodedAccessTokenPayload)
    (resolvers : Role → Option (ℕ → Db → Option Principal)) where
  -- `cacheService.getOrSet` of the principal
  pub principal :
      GuardTimes → Role → ℕ → (ℕ → Db → Option Principal) → Db → Exec D.Store (Option Principal)
  principal t role user_id resolver db s =
      let (found, s') =
        get_or_set D t.cache_read t.cache_write (auth_user role user_id) (resolver user_id db)
          auth_user_seconds s in
      (ok found, s')

  pub can_activate : GuardTimes → Endpoint → Request → Db → Exec D.Store Request
  can_activate t endpoint request db = if endpoint.is_public then pure request else (do
    token ←
        or_throw (extract_bearer_token request.authorization)
          (unauthorized (tr "auth.errors.missing_token"))
    payload ← or_throw (verify_access_token token) (unauthorized (tr "auth.errors.invalid_token"))
    role ← or_throw (coerce_role payload.role) (unauthorized (tr "auth.errors.invalid_token"))
    throw_if (forbids endpoint.roles role) (forbidden (tr "auth.errors.forbidden_role"))
    resolver ←
        or_throw (resolvers role)
          (internal_server_error (tr "auth.errors.auth_resolver_not_configured"))
    found ← principal t role payload.user_id resolver db
    account ← or_throw found (unauthorized (tr "auth.errors.account_not_found"))
    throw_if (not account.is_active) (unauthorized (tr "auth.errors.account_disabled"))
    pure (record request { user = some account }))

-- `request.user?.role !== Role.USER`, then `user.isProfileCompleted !== true`
abbrev pub is_user : Option Role → Bool
is_user none = false
is_user (some role) = role_eq role user

abbrev pub incomplete : Option Principal → Bool
incomplete none = false
incomplete (some p) = is_user p.role && not (or_else p.is_profile_completed false)

pub profile_completed : Request → Result (Unit {0})
profile_completed request =
    if incomplete request.user
    then throw (forbidden (tr "user.errors.profile_not_completed"))
    else ok tt
