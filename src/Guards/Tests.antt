-- ===== src/Guards/Tests.antt =====
-- Runs of the guards of src/core/guards on a cache in memory.
use nestjs_starter.Prelude.{
  ℕ, ◌≡◌, ◌⊎◌, ◌↔◌, refl, ap, String, true, false, Option, none, some, arith,
}
use nestjs_starter.Exec.{ok, throw, forbidden, tr}
use nestjs_starter.Domain.{Role, admin, user}
use nestjs_starter.Cache.Keys.{auth_user}
use nestjs_starter.Cache.Redis.{prefixed, redis_get, redis_get-absent}
use nestjs_starter.Cache.Redis.Memory.{memory_client, no_data, look-nothing}
use nestjs_starter.Guards.{
  Principal, Request, register, extract_bearer_token, can_activate, profile_completed,
}
use nestjs_starter.Guards.Cases.{Caller, let_in}
use nestjs_starter.Cache.ReadThrough.{get_or_set_miss}
use nestjs_starter.Guards.Admission.{Agrees, Admission, can_activate_iff}
use nestjs_starter.Guards.Staleness.{completion_bypassed}
use nestjs_starter.Guards.Samples.{
  stringify, parse, parse-stringify, sample_driver, verify, sample_request, for_users, sample_times,
  newcomer, presents_token, claims_user,
}

-- the database is the one account
abbrev resolver : ℕ → Principal → Option Principal
resolver id db = some db

abbrev resolvers : Role → Option (ℕ → Principal → Option Principal)
resolvers user = some resolver
resolvers admin = none

other_scheme : extract_bearer_token (some "Basic token") ≡ none
unfolding extract_bearer_token
other_scheme = refl

no_token : extract_bearer_token (some "Bearer  token") ≡ none
unfolding extract_bearer_token
no_token = refl

register_twice : register user resolver resolvers ≡ none
unfolding register
register_twice = refl

abbrev caller : Caller sample_driver verify resolvers for_users sample_request
caller = record {
  token = "token";
  payload = record { user_id = 1; role = some "user" };
  role = user;
  resolver = resolver;
  presents = presents_token;
  verified = refl;
  claims = claims_user;
  allowed = refl;
  configured = refl;
}

absent : (now : ℕ) (k : String) → redis_get memory_client "app" stringify parse now k no_data ≡ none
absent now k =
    redis_get-absent memory_client "app" stringify parse now k no_data
      (look-nothing now (prefixed "app" k))

Agrees-at_start : (now : ℕ) → Agrees sample_driver verify resolvers newcomer now no_data
Agrees-at_start now k v e = absurd (cc (e, absent now k))

can_activate_iff_example :
    ((request' : Request) × ((can_activate sample_driver verify resolvers
          (sample_times 5)
          for_users
          sample_request
          newcomer
          no_data).0
        ≡ ok request'))
    ↔ ((false ≡ true) ⊎ Admission sample_driver verify resolvers for_users sample_request newcomer)
can_activate_iff_example =
    can_activate_iff sample_driver verify resolvers (sample_times 5) for_users sample_request
      newcomer no_data (Agrees-at_start 5)

admission : Admission sample_driver verify resolvers for_users sample_request newcomer
admission = record { caller = caller; account = newcomer; stored = refl; active = refl }

abbrev admitted_request : Request
admitted_request = record sample_request { user = some newcomer }

admitted_at_start :
    (can_activate sample_driver verify resolvers
      (sample_times 5)
      for_users
      sample_request
      newcomer
      no_data).0
    ≡ ok admitted_request
admitted_at_start =
    ap (λ r. r.0)
      (let_in sample_driver verify resolvers (sample_times 5) for_users sample_request newcomer
        no_data caller newcomer refl
        (ap (λ r. r.0)
          (get_or_set_miss sample_driver 5 5 (auth_user user 1) (some newcomer) 300 no_data
            (absent 5 (auth_user user 1))))
        refl)

completion_bypassed_example :
    (r r' : Request) × ((can_activate sample_driver verify resolvers
        (sample_times 5)
        for_users
        sample_request
        newcomer
        no_data).0
      ≡ ok r)
    × (profile_completed r ≡ throw (forbidden (tr "user.errors.profile_not_completed")))
    × ((can_activate sample_driver verify resolvers
          (sample_times 6)
          for_users
          sample_request
          newcomer
          (can_activate sample_driver verify resolvers
            (sample_times 5)
            for_users
            sample_request
            newcomer
            no_data).1).0
        ≡ ok r')
    × (profile_completed r' ≡ ok tt)
completion_bypassed_example =
    completion_bypassed memory_client "app" stringify parse verify resolvers (sample_times 5)
      (sample_times 6) for_users sample_request newcomer no_data newcomer caller parse-stringify
      refl (refl, refl, refl) refl (absent 5 (auth_user user 1)) (omega arith)
