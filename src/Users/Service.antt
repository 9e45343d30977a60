-- ===== src/Users/Service.antt =====
-- src/modules/users/services/user.service.ts. A call runs on the users' table, the refresh tokens'
-- table and the cache. Whether a city exists is a parameter, as are the instants. Photos, the
-- page of users and response DTOs are left out.
mod Effects
pub mod Soundness
pub mod Disabling
pub mod Access
pub mod Profiles
pub mod Races
mod Tests
use nestjs_starter.Prelude.{
  ℕ, String, Bool, true, false, Option, none, some, or_else, is_some, not, if◌then◌else◌,
}
use nestjs_starter.Exec.{
  ok, Exec, bad_request, not_found, conflict, tr, pure, raise, gets, modify, throw_if, or_throw,
  ◌>>=◌, ◌>>◌,
}
use nestjs_starter.Database.{Table}
use nestjs_starter.Domain.{Role, admin, user}
use nestjs_starter.Cache.{CacheDriver}
use nestjs_starter.Cache.Keys.{auth_user}
use nestjs_starter.Guards.{Principal}
use nestjs_starter.RefreshTokens.{RefreshTokenEntity}
use nestjs_starter.RefreshTokens.Service.{revoke_all_for_user}
use nestjs_starter.Users.{
  Gender, UserEntity, as_principal, stub, find_by_id, find_by_phone, merge_and_save,
}

-- a field that is absent stays; one that is null becomes null
pub record UpdateUserMeDto : Type 0 where
  pub first_name : Option String
  pub last_name : Option String
  pub gender : Option (Option Gender)
  pub birth_date : Option (Option ℕ)
  pub city_id : Option (Option ℕ)
  pub address : Option (Option String)

pub record CompleteUserProfileDto : Type 0 where
  pub first_name : String
  pub last_name : String
  pub gender : Gender
  pub birth_date : ℕ
  pub city_id : ℕ
  pub address : Option (Option String)

pub record CreateUserDto : Type 0 where
  pub phone : String
  pub profile : CompleteUserProfileDto

abbrev pub present {ℓ} : {A : Type ℓ} → Option A → Option A → Option A
present none old = old
present (some a) old = some a

abbrev pub update_fields : UpdateUserMeDto → UserEntity → UserEntity
update_fields dto entity = record entity {
  first_name = present dto.first_name entity.first_name;
  last_name = present dto.last_name entity.last_name;
  gender = or_else dto.gender entity.gender;
  birth_date = or_else dto.birth_date entity.birth_date;
  city_id = or_else dto.city_id entity.city_id;
  address = or_else dto.address entity.address;
}

-- `{ ...dto, isProfileCompleted: true }`
abbrev pub complete_fields : CompleteUserProfileDto → UserEntity → UserEntity
complete_fields dto entity = record entity {
  first_name = some dto.first_name;
  last_name = some dto.last_name;
  gender = some dto.gender;
  birth_date = some dto.birth_date;
  city_id = some dto.city_id;
  address = or_else dto.address entity.address;
  is_profile_completed = true;
}

-- `{ isActive: active }`
abbrev pub set_active : Bool → UserEntity → UserEntity
set_active active entity = record entity { is_active = active }

-- `dto.cityId !== undefined && dto.cityId !== null`
abbrev pub city_of : UpdateUserMeDto → Option ℕ
city_of dto = or_else dto.city_id none

abbrev pub principal_of : Option UserEntity → Option Principal
principal_of none = none
principal_of (some entity) = some (as_principal entity)

module _ (T : Table UserEntity) (K : Table RefreshTokenEntity) (D : CacheDriver Principal)
    (sha256 : String → String) (ttl_seconds : ℕ) (city_exists : ℕ → Bool) where
  pub record World : Type 0 where
    pub users : T.Db
    pub tokens : K.Db
    pub cache : D.Store

  abbrev pub on_users : (T.Db → T.Db) → World → World
  on_users f w = record w { users = f w.users }

  -- `cityService.assertExists`
  pub assert_city_exists : ℕ → Exec World (Unit {0})
  assert_city_exists city_id =
      throw_if (not (city_exists city_id)) (not_found (tr "city.errors.not_found"))

  pub assert_city_given : Option ℕ → Exec World (Unit {0})
  assert_city_given none = pure tt
  assert_city_given (some city_id) = assert_city_exists city_id

  pub find_by_id_for_auth : ℕ → T.Db → Option Principal
  find_by_id_for_auth id db = principal_of (find_by_id T id db)

  pub find_by_id_or_fail : ℕ → Exec World UserEntity
  find_by_id_or_fail id = do
    found ← gets (λ w. find_by_id T id w.users)
    or_throw found (not_found (tr "user.errors.not_found"))

  pub invalidate_auth_cache : ℕ → World → World
  invalidate_auth_cache id w = record w { cache = D.delete (auth_user user id) w.cache }

  -- `mergeAndSave`, which returns the merged entity
  pub save_merged : UserEntity → (UserEntity → UserEntity) → Exec World UserEntity
  save_merged entity merge = do
    modify (on_users (merge_and_save T entity merge))
    pure (merge entity)

  -- the row of a user that was created, given its generated id
  pub insert_user : (ℕ → UserEntity) → Exec World UserEntity
  insert_user make w = (ok (make (T.next_id w.users)), record w { users = T.insert make w.users })

  pub create_if_new : String → Option UserEntity → Exec World UserEntity
  create_if_new phone (some existing) = pure existing
  create_if_new phone none = insert_user (stub phone)

  pub find_one_or_create_by_phone : String → Exec World UserEntity
  find_one_or_create_by_phone phone = do
    existing ← gets (λ w. find_by_phone T phone w.users)
    create_if_new phone existing

  pub update_me : ℕ → UpdateUserMeDto → Exec World UserEntity
  update_me id dto = do
    assert_city_given (city_of dto)
    current ← find_by_id_or_fail id
    saved ← save_merged current (update_fields dto)
    modify (invalidate_auth_cache saved.id)
    pure saved

  pub complete_profile : ℕ → CompleteUserProfileDto → Exec World UserEntity
  complete_profile id dto = do
    current ← find_by_id_or_fail id
    throw_if current.is_profile_completed (bad_request (tr "user.errors.profile_already_completed"))
    assert_city_exists dto.city_id
    saved ← save_merged current (complete_fields dto)
    modify (invalidate_auth_cache saved.id)
    pure saved

  pub create_by_admin : CreateUserDto → Exec World UserEntity
  create_by_admin dto = do
    existing ← gets (λ w. find_by_phone T dto.phone w.users)
    throw_if (is_some existing) (conflict (tr "user.errors.phone_taken"))
    assert_city_exists dto.profile.city_id
    insert_user (λ id. complete_fields dto.profile (stub dto.phone id))

  pub revoke_sessions : ℕ → ℕ → World → World
  revoke_sessions now id w = record w {
    tokens = revoke_all_for_user K sha256 ttl_seconds now id user w.tokens;
  }

  pub deactivate_by_admin : ℕ → ℕ → Exec World UserEntity
  deactivate_by_admin now id = do
    found ← find_by_id_or_fail id
    updated ← save_merged found (set_active false)
    modify (revoke_sessions now id)
    modify (invalidate_auth_cache id)
    pure updated

  pub activate_by_admin : ℕ → Exec World UserEntity
  activate_by_admin id = do
    found ← find_by_id_or_fail id
    updated ← save_merged found (set_active true)
    modify (invalidate_auth_cache id)
    pure updated

  -- `onModuleInit` of the users' and of the admins' module: the resolvers of the guard
  abbrev pub registry : (ℕ → Option Principal) → Role → Option (ℕ → T.Db → Option Principal)
  registry admins user = some find_by_id_for_auth
  registry admins admin = some (λ id db. admins id)
