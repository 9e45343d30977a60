-- ===== src/Users.antt =====
-- Users: src/modules/users/entities/user.entity.ts and repositories/user.repository.ts. A birth date
-- is a number of days. The relation `city` is its id; the audit columns are left out.
pub mod Service
pub mod Auth
pub mod Repository
use nestjs_starter.Prelude.{
  ℕ, String, str_eq, Bool, false, true, Option, none, some, List, ◌==◌, find,
}
use nestjs_starter.Database.{Table}
use nestjs_starter.Domain.{Role, user}
use nestjs_starter.Guards.{Principal}

pub data Gender : Type 0 where
  male female : Gender

pub record UserEntity : Type 0 where
  pub id : ℕ
  pub is_active : Bool
  pub phone : String
  pub first_name : Option String
  pub last_name : Option String
  pub gender : Option Gender
  pub birth_date : Option ℕ
  pub city_id : Option ℕ
  pub address : Option String
  pub photo_key : Option String
  pub is_profile_completed : Bool

-- the getter `role` of the prototype
abbrev pub role : UserEntity → Role
role entity = user

-- what the guards read of the entity
abbrev pub as_principal : UserEntity → Principal
as_principal entity = record {
  id = entity.id;
  is_active = entity.is_active;
  is_profile_completed = some entity.is_profile_completed;
  role = some (role entity);
}

-- what `repo.create` makes of a phone, with the columns' defaults, given its id
abbrev pub stub : String → ℕ → UserEntity
stub phone id = record {
  id = id;
  is_active = true;
  phone = phone;
  first_name = none;
  last_name = none;
  gender = none;
  birth_date = none;
  city_id = none;
  address = none;
  photo_key = none;
  is_profile_completed = false;
}

abbrev pub has_id : ℕ → UserEntity → Bool
has_id id entity = entity.id == id

abbrev pub has_phone : String → UserEntity → Bool
has_phone phone entity = str_eq entity.phone phone

module _ (T : Table UserEntity) where
  pub find_by_id : ℕ → T.Db → Option UserEntity
  find_by_id id db = find (has_id id) (T.rows db)

  pub find_by_phone : String → T.Db → Option UserEntity
  find_by_phone phone db = find (has_phone phone) (T.rows db)

  -- `mergeAndSave`: the entity with its changes replaces its row
  pub merge_and_save : UserEntity → (UserEntity → UserEntity) → T.Db → T.Db
  merge_and_save entity merge = T.update (has_id entity.id) (λ row. merge entity)
