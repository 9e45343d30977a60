-- ===== src/Guards/Samples.antt =====
-- Parameters to run the guards of src/core/guards on: a text of a principal that stands for its
-- JSON, and tokens.
use Prim.Native.Char.{Char, code}
use Prim.Native.String.{[], ◌∷◌, char_at}
use nestjs_starter.Prelude.{
  ℕ, zero, suc, ◌≡◌, refl, ap, String, str_eq, Bool, true, false, Option, none, some, ◌==◌,
  if◌then◌else◌, [] as no_roles, ◌∷◌ as role_then,
}
use nestjs_starter.Domain.{user}
use nestjs_starter.Cache.{CacheDriver}
use nestjs_starter.Cache.Redis.{redis_driver}
use nestjs_starter.Cache.Redis.Memory.{memory_client}
use nestjs_starter.Guards.{
  Principal, plain, Request, Endpoint, DecodedAccessTokenPayload, GuardTimes, extract_bearer_token,
  coerce_role,
}

abbrev pub strokes : ℕ → String
strokes zero = []
strokes (suc n) = char_at "|" 0 ∷ strokes n

abbrev pub counted : String → ℕ
counted [] = 0
counted (c ∷ s) = suc (counted s)

counted-strokes : (n : ℕ) → counted (strokes n) ≡ n
counted-strokes zero = refl
counted-strokes (suc n) = ap suc (counted-strokes n)

abbrev pub flag : Bool → Char
flag true = char_at "t" 0
flag false = char_at "f" 0

abbrev pub flag_or_none : Option Bool → Char
flag_or_none none = char_at "n" 0
flag_or_none (some b) = flag b

abbrev pub is_t : Char → Bool
is_t c = code c == b't'

abbrev pub read_flag : Char → Option Bool
read_flag c = if code c == b'n' then none else some (is_t c)

abbrev pub stringify : Principal → String
stringify p = flag p.is_active ∷ flag_or_none p.is_profile_completed ∷ strokes p.id

abbrev pub parse : String → Principal
parse (a ∷ c ∷ s) = record {
  id = counted s;
  is_active = is_t a;
  is_profile_completed = read_flag c;
  role = none;
}
parse _ = record { id = 0; is_active = false; is_profile_completed = none; role = none }

pub parse-stringify : (p : Principal) → parse (stringify p) ≡ plain p
parse-stringify p = go p.is_active p.is_profile_completed
  where
    go :
        (a : Bool) (c : Option Bool)
        → parse (flag a ∷ flag_or_none c ∷ strokes p.id)
          ≡ record { id = p.id; is_active = a; is_profile_completed = c; role = none }
    go a c i = record {
      id = counted-strokes p.id i;
      is_active = of_flag a i;
      is_profile_completed = of_option c i;
      role = none;
    }
      where
        of_flag : (a : Bool) → is_t (flag a) ≡ a
        of_flag true = refl
        of_flag false = refl

        of_option : (c : Option Bool) → read_flag (flag_or_none c) ≡ c
        of_option none = refl
        of_option (some true) = refl
        of_option (some false) = refl

abbrev pub sample_driver : CacheDriver Principal
sample_driver = redis_driver memory_client "app" stringify parse

abbrev pub verify : String → Option DecodedAccessTokenPayload
verify token =
    if str_eq token "token" then some (record { user_id = 1; role = some "user" }) else none

abbrev pub sample_request : Request
sample_request = record { authorization = some "Bearer token"; user = none }

abbrev pub for_users : Endpoint
for_users = record { is_public = false; roles = some (role_then user no_roles) }

abbrev pub sample_times : ℕ → GuardTimes
sample_times now = record { cache_read = now; cache_write = now }

-- the account of a user whose profile is incomplete
abbrev pub newcomer : Principal
newcomer = record { id = 1; is_active = true; is_profile_completed = some false; role = some user }

pub presents_token : extract_bearer_token (some "Bearer token") ≡ some "token"
unfolding extract_bearer_token
presents_token = refl

pub claims_user : coerce_role (some "user") ≡ some user
unfolding coerce_role
claims_user = refl
