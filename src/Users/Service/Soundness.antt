-- ===== src/Users/Service/Soundness.antt =====
-- What every call of src/modules/users/services/user.service.ts preserves, in any order and mixed
-- with the guard's requests.
use nestjs_starter.Prelude.{
  ℕ, Bool, ◌≤◌, ◌≡◌, refl, ap, sym, subst, ◌∙◌, String, Option, none, some, List, [], ◌∷◌,
  count_where,
}
use nestjs_starter.Database.{Table}
use nestjs_starter.Domain.{Role, admin, user}
use nestjs_starter.Cache.{CacheDriver}
use nestjs_starter.Cache.Keys.{auth_user}
use nestjs_starter.Cache.ReadThrough.{IsCoherent, delete-IsCoherent}
use nestjs_starter.Guards.{
  Principal, plain, Request, Endpoint, DecodedAccessTokenPayload, GuardTimes, can_activate,
}
use nestjs_starter.Guards.Admission.{IsCached, can_activate-Agrees}
use nestjs_starter.RefreshTokens.{RefreshTokenEntity}
use nestjs_starter.Users.{UserEntity, has_phone, find_by_id, merge_and_save}
use nestjs_starter.Users.Repository.{
  IsOrdered, find_by_id-other, merge_and_save-IsOrdered, count-merged, insert-IsOrdered,
  find_by_id-insert, count-insert,
}
use nestjs_starter.Users.Service.{
  UpdateUserMeDto, CompleteUserProfileDto, CreateUserDto, World, principal_of, find_by_id_for_auth,
  registry, find_one_or_create_by_phone, update_me, complete_profile, create_by_admin,
  deactivate_by_admin, activate_by_admin,
}
use nestjs_starter.Users.Service.Effects.{
  Effect, nothing, edited, inserted, deactivate_by_admin-Effect, activate_by_admin-Effect,
  update_me-Effect, complete_profile-Effect, create_by_admin-Effect,
  find_one_or_create_by_phone-Effect,
}

-- a request at the guard, or a call of the service
pub data Call : Type 0 where
  request : GuardTimes → Endpoint → Request → Call
  login : String → Call
  update : ℕ → UpdateUserMeDto → Call
  complete : ℕ → CompleteUserProfileDto → Call
  create : CreateUserDto → Call
  deactivate : ℕ → ℕ → Call
  activate : ℕ → Call

module _ (T : Table UserEntity) (K : Table RefreshTokenEntity) (D : CacheDriver Principal)
    (sha256 : String → String) (ttl_seconds : ℕ) (city_exists : ℕ → Bool)
    (verify_access_token : String → Option DecodedAccessTokenPayload)
    (admins : ℕ → Option Principal) where
  abbrev pub W : Type 0
  W = World T K D sha256 ttl_seconds city_exists

  abbrev pub resolvers : Role → Option (ℕ → T.Db → Option Principal)
  resolvers = registry T K D sha256 ttl_seconds city_exists admins

  abbrev pub perform : Call → W → W
  perform (request t endpoint r) w = record w {
    cache = (can_activate D verify_access_token resolvers t endpoint r w.users w.cache).1;
  }
  perform (login phone) w =
      (find_one_or_create_by_phone T K D sha256 ttl_seconds city_exists phone w).1
  perform (update id dto) w = (update_me T K D sha256 ttl_seconds city_exists id dto w).1
  perform (complete id dto) w = (complete_profile T K D sha256 ttl_seconds city_exists id dto w).1
  perform (create dto) w = (create_by_admin T K D sha256 ttl_seconds city_exists dto w).1
  perform (deactivate now id) w =
      (deactivate_by_admin T K D sha256 ttl_seconds city_exists now id w).1
  perform (activate id) w = (activate_by_admin T K D sha256 ttl_seconds city_exists id w).1

  abbrev pub run : List Call → W → W
  run [] w = w
  run (call ∷ calls) w = run calls (perform call w)

  -- The cache agrees with the users' table, whose ids are those given out and whose phones are
  -- distinct.
  pub record IsSound (w : W) : Type 0 where
    pub cached : IsCoherent D (IsCached resolvers w.users) 0 w.cache
    pub ordered : IsOrdered T w.users
    pub distinct : (phone : String) → count_where (has_phone phone) (T.rows w.users) ≤ 1

  -- an entry stays true when the accounts it may name keep their rows
  transfer :
      (db db' : T.Db) (k : String) (v : Principal)
      → ((id : ℕ) (e : UserEntity)
          → k ≡ auth_user user id
          → find_by_id T id db ≡ some e
          → find_by_id T id db' ≡ some e)
      → IsCached resolvers db k v
      → IsCached resolvers db' k v
  unfolding find_by_id_for_auth
  transfer db db' k v keeps entry = go entry.role entry.names entry.configured
    where
      kept_user :
          (found : Option UserEntity) (id : ℕ)
          → k ≡ auth_user user id
          → find_by_id T id db ≡ found
          → principal_of found ≡ some entry.account
          → principal_of (find_by_id T id db') ≡ some entry.account
      kept_user none id names f e = cc
      kept_user (some r) id names f e = ap principal_of (keeps id r names f) ∙ e

      go :
          (role : Role)
          → k ≡ auth_user role entry.user_id
          → resolvers role ≡ some entry.resolver
          → IsCached resolvers db' k v
      go user names configured =
          let resolver : find_by_id_for_auth T K D sha256 ttl_seconds city_exists ≡ entry.resolver =
            cc in
          record {
            role = user;
            user_id = entry.user_id;
            resolver = find_by_id_for_auth T K D sha256 ttl_seconds city_exists;
            account = entry.account;
            names = names;
            configured = refl;
            stored =
                kept_user _ entry.user_id names refl
                  ((λ i. resolver i entry.user_id db) ∙ entry.stored);
            agrees = entry.agrees;
          }
      go admin names configured =
          let resolver : (λ id x. admins id) ≡ entry.resolver = cc in
          record {
            role = admin;
            user_id = entry.user_id;
            resolver = λ id x. admins id;
            account = entry.account;
            names = names;
            configured = refl;
            stored = (λ i. resolver i entry.user_id db) ∙ entry.stored;
            agrees = entry.agrees;
          }

  effect-IsSound :
      (activates : Option ℕ) (w w' : W)
      → Effect T K D sha256 ttl_seconds city_exists activates w w'
      → IsSound w
      → IsSound w'
  effect-IsSound activates w w' (nothing) sound = sound
  effect-IsSound activates w w' (edited id current merge tokens found same_id same_phone active)
        sound =
      record {
        cached =
            delete-IsCoherent D (IsCached resolvers w.users)
              (IsCached resolvers (merge_and_save T current merge w.users)) 0 (auth_user user id)
              w.cache
              (λ k v other.
                transfer w.users (merge_and_save T current merge w.users) k v (λ i e names f.
                  find_by_id-other T w.users id current merge found sound.ordered same_id i
                    (λ h. other (names ∙ ap (auth_user user) h))
                  ∙ f))
              sound.cached;
        ordered = merge_and_save-IsOrdered T w.users id current merge found sound.ordered same_id;
        distinct = λ phone.
            subst (λ n. n ≤ 1)
              (sym (
                count-merged T w.users id current merge found sound.ordered same_id phone
                  same_phone))
              (sound.distinct phone);
      }
  effect-IsSound activates w w' (inserted phone make absent id_made phone_made) sound = record {
    cached = λ k v e.
        transfer w.users (T.insert make w.users) k v
          (λ i e names f. find_by_id-insert T w.users make i e id_made sound.ordered f)
          (sound.cached k v e);
    ordered = insert-IsOrdered T w.users make id_made sound.ordered;
    distinct = λ other.
        count-insert T w.users make phone other absent (phone_made _) (sound.distinct other);
  }

  -- the account that a call may turn active
  abbrev pub activates : Call → Option ℕ
  activates (activate id) = some id
  activates _ = none

  pub perform-IsSound :
      ((p : Principal) → plain (D.copy p) ≡ plain p)
      → (call : Call) (w : W) → IsSound w
      → IsSound (perform call w)
  perform-IsSound copies (request t endpoint r) w = λ sound. record {
    cached =
        can_activate-Agrees D verify_access_token resolvers t endpoint r w.users w.cache 0 copies
          sound.cached;
    ordered = sound.ordered;
    distinct = sound.distinct;
  }
  perform-IsSound copies (login phone) w =
      effect-IsSound none w _
        (find_one_or_create_by_phone-Effect T K D sha256 ttl_seconds city_exists w phone)
  perform-IsSound copies (update id dto) w =
      effect-IsSound none w _ (update_me-Effect T K D sha256 ttl_seconds city_exists w id dto)
  perform-IsSound copies (complete id dto) w =
      effect-IsSound none w _
        (complete_profile-Effect T K D sha256 ttl_seconds city_exists w id dto)
  perform-IsSound copies (create dto) w =
      effect-IsSound none w _ (create_by_admin-Effect T K D sha256 ttl_seconds city_exists w dto)
  perform-IsSound copies (deactivate now id) w =
      effect-IsSound none w _
        (deactivate_by_admin-Effect T K D sha256 ttl_seconds city_exists w now id)
  perform-IsSound copies (activate id) w =
      effect-IsSound (some id) w _
        (activate_by_admin-Effect T K D sha256 ttl_seconds city_exists w id)

  -- Any sequence of logins, profile updates, completions, creations, deactivations, activations and
  -- requests at the guard keeps the cache in agreement with the users' table (which is why a
  -- change is seen by the next request), every id given out once, and every phone with one user.
  pub run-IsSound :
      ((p : Principal) → plain (D.copy p) ≡ plain p)
      → (calls : List Call) (w : W) → IsSound w
      → IsSound (run calls w)
  run-IsSound copies [] w sound = sound
  run-IsSound copies (call ∷ calls) w sound =
      run-IsSound copies calls (perform call w) (perform-IsSound copies call w sound)
