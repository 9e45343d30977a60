-- ===== src/Users/Service/Tests.antt =====
-- Runs of src/modules/users/services/user.service.ts on tables and a cache in memory.
use nestjs_starter.Prelude.{
  ℕ, ◌≤◌, ◌≡◌, refl, ap, ◌∙◌, String, Bool, true, false, Option, none, some, List, [], ◌∷◌,
  count_where, arith,
}
use nestjs_starter.Exec.{ok}
use nestjs_starter.Database.Memory.{memory, empty}
use nestjs_starter.Domain.{user}
use nestjs_starter.Cache.{fill}
use nestjs_starter.Cache.Keys.{auth_user}
use nestjs_starter.Cache.Redis.{prefixed, redis_get, redis_get-absent}
use nestjs_starter.Cache.Redis.Memory.{memory_client, no_data, look-nothing}
use nestjs_starter.Guards.{Principal, plain, Request, can_activate}
use nestjs_starter.Guards.Cases.{Caller}
use nestjs_starter.Guards.Samples.{
  stringify, parse, parse-stringify, sample_driver, verify, sample_request, for_users, sample_times,
  presents_token, claims_user,
}
use nestjs_starter.RefreshTokens.Service.{rotate, revoke_all_for_user}
use nestjs_starter.RefreshTokens.Service.Samples.{hash, at, signed_in, admin_result, admin_kept}
use nestjs_starter.Users.{
  male, UserEntity, as_principal, stub, has_phone, find_by_id, find_by_phone,
}
use nestjs_starter.Users.Service.{
  CompleteUserProfileDto, CreateUserDto, World, find_by_id_for_auth, find_by_id_or_fail,
  save_merged, set_active, complete_fields, revoke_sessions, invalidate_auth_cache, insert_user,
  assert_city_exists, complete_profile, create_by_admin, deactivate_by_admin, activate_by_admin,
  registry,
}
use nestjs_starter.Users.Service.Soundness.{
  Call, request, login, complete, deactivate, IsSound, run, run-IsSound,
}
use nestjs_starter.Users.Service.Disabling.{IsDisabled}
use nestjs_starter.Users.Service.Access.{deactivate-can_activate, deactivate-rotate}
use nestjs_starter.Users.Service.Races.{stale_after_deactivation}

abbrev cities : ℕ → Bool
cities id = true

abbrev no_admins : ℕ → Option Principal
no_admins id = none

abbrev newcomer : UserEntity
newcomer = stub "0911" 1

abbrev start : World memory memory sample_driver hash 60 cities
start = record {
  users = record { rows = newcomer ∷ []; next_id = 2 };
  tokens = empty;
  cache = no_data;
}

abbrev Sound : World memory memory sample_driver hash 60 cities → Type 0
Sound = IsSound memory memory sample_driver hash 60 cities verify no_admins

absent : (now : ℕ) (k : String) → redis_get memory_client "app" stringify parse now k no_data ≡ none
absent now k =
    redis_get-absent memory_client "app" stringify parse now k no_data
      (look-nothing now (prefixed "app" k))

one_phone : (phone : String) → count_where (has_phone phone) (newcomer ∷ []) ≤ 1
one_phone phone = ground arith

start-IsSound : Sound start
start-IsSound = record {
  cached = λ k v e. absurd (cc (e, absent 0 k));
  ordered = (omega arith, tt);
  distinct = one_phone;
}

abbrev profile : CompleteUserProfileDto
profile = record {
  first_name = "Ada";
  last_name = "L";
  gender = male;
  birth_date = 100;
  city_id = 3;
  address = none;
}

abbrev calls : List Call
calls =
    login "0922"
    ∷ complete 1 profile
    ∷ request (sample_times 4) for_users sample_request
    ∷ deactivate 5 2
    ∷ []

run-IsSound_example :
    Sound (run memory memory sample_driver hash 60 cities verify no_admins calls start)
run-IsSound_example =
    run-IsSound memory memory sample_driver hash 60 cities verify no_admins parse-stringify calls
      start start-IsSound

abbrev caller :
    Caller sample_driver verify
      (registry memory memory sample_driver hash 60 cities no_admins)
      for_users
      sample_request
caller = record {
  token = "token";
  payload = record { user_id = 1; role = some "user" };
  role = user;
  resolver = find_by_id_for_auth memory memory sample_driver hash 60 cities;
  presents = presents_token;
  verified = refl;
  claims = claims_user;
  allowed = refl;
  configured = refl;
}

abbrev off : World memory memory sample_driver hash 60 cities
off = (deactivate_by_admin memory memory sample_driver hash 60 cities 5 1 start).1

was_deactivated :
    (deactivate_by_admin memory memory sample_driver hash 60 cities 5 1 start).0
    ≡ ok (set_active false newcomer)
unfolding deactivate_by_admin find_by_id_or_fail save_merged find_by_id
was_deactivated = refl

was_activated :
    (activate_by_admin memory memory sample_driver hash 60 cities 1 start).0
    ≡ ok (set_active true newcomer)
unfolding activate_by_admin find_by_id_or_fail save_merged find_by_id
was_activated = refl

deactivate-can_activate_example : ¬ (
    (request' : Request) × ((can_activate sample_driver verify
        (registry memory memory sample_driver hash 60 cities no_admins)
        (sample_times 9)
        for_users
        sample_request
        (run memory memory sample_driver hash 60 cities verify no_admins
          (login "0922" ∷ [])
          off).users
        (run memory memory sample_driver hash 60 cities verify no_admins
          (login "0922" ∷ [])
          off).cache).0
      ≡ ok request'))
deactivate-can_activate_example =
    deactivate-can_activate memory memory sample_driver hash 60 cities verify no_admins 5 1
      (login "0922" ∷ []) (sample_times 9) for_users sample_request start
      (set_active false newcomer) caller parse-stringify start-IsSound was_deactivated
      ((λ e. cc), tt) refl refl refl

was_completed :
    (complete_profile memory memory sample_driver hash 60 cities 1 profile start).0
    ≡ ok (complete_fields profile newcomer)
unfolding complete_profile find_by_id_or_fail save_merged find_by_id assert_city_exists
was_completed = refl

found : find_by_id memory 1 start.users ≡ some newcomer
unfolding find_by_id
found = refl

stale_after_deactivation_example :
    IsDisabled memory memory sample_driver hash 60 cities verify no_admins 1 off
    × ((can_activate sample_driver verify
          (registry memory memory sample_driver hash 60 cities no_admins)
          (sample_times 9)
          for_users
          sample_request
          off.users
          (fill sample_driver 6
            (auth_user user 1)
            300
            (find_by_id_for_auth memory memory sample_driver hash 60 cities 1 start.users)
            off.cache)).0
        ≡ ok (record sample_request { user = some (plain (as_principal newcomer)) }))
stale_after_deactivation_example =
    stale_after_deactivation memory memory memory_client "app" stringify parse hash 60 cities verify
      no_admins 5 6 (sample_times 9) for_users sample_request start newcomer
      (set_active false newcomer) caller parse-stringify start-IsSound refl refl found refl
      was_deactivated (omega arith)

abbrev new_user : CreateUserDto
new_user = record { phone = "0933"; profile = profile }

abbrev created : UserEntity
created = complete_fields profile (stub "0933" 2)

was_created :
    (create_by_admin memory memory sample_driver hash 60 cities new_user start).0 ≡ ok created
unfolding create_by_admin find_by_phone assert_city_exists insert_user
was_created = refl

-- a user with a session, in front of an admin's session
abbrev signed_in_user : World memory memory sample_driver hash 10 cities
signed_in_user = record {
  users = record { rows = stub "0911" 7 ∷ []; next_id = 8 };
  tokens = signed_in;
  cache = no_data;
}

ended :
    (deactivate_by_admin memory memory sample_driver hash 10 cities 4000 7 signed_in_user).0
    ≡ ok (set_active false (stub "0911" 7))
unfolding deactivate_by_admin find_by_id_or_fail save_merged find_by_id
ended = refl

revoked_sessions :
    (deactivate_by_admin memory memory sample_driver hash 10 cities 4000 7 signed_in_user).1.tokens
    ≡ revoke_all_for_user memory hash 10 4000 7 user signed_in
unfolding deactivate_by_admin find_by_id_or_fail save_merged find_by_id revoke_sessions
    invalidate_auth_cache
revoked_sessions = refl

deactivate-rotate_example : ¬ ((admin_result.user_id ≡ 7) × (admin_result.role ≡ user))
deactivate-rotate_example =
    deactivate-rotate memory memory sample_driver hash 10 cities verify no_admins 4000 7 (at 5000)
      "z" "y" signed_in_user (set_active false (stub "0911" 7)) admin_result ended
      (ap (λ db. (rotate memory hash 10 (at 5000) "z" "y" db).0) revoked_sessions ∙ admin_kept)
