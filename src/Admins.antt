-- ===== src/Admins.antt =====
-- Admins: src/modules/admins/entities/admin.entity.ts with its bases
-- src/domain/entities/base-password-user.entity.ts and base-account.entity.ts, and
-- src/modules/admins/repositories/admin.repository.ts. The audit columns are left out.
pub mod Passwords
pub mod Service
use nestjs_starter.Prelude.{ℕ, String, str_eq, Bool, Option, some, ◌||◌, ◌==◌, find, if◌then◌else◌}
use nestjs_starter.Text.{is_empty}
use nestjs_starter.Database.{Table}
use nestjs_starter.Domain.{Role, admin}
use nestjs_starter.Guards.{Principal}
use nestjs_starter.Admins.Passwords.{trim, is_password_hashed}

pub record AdminEntity : Type 0 where
  pub id : ℕ
  pub is_active : Bool
  pub username : String
  pub password : String
  pub password_changed_at : Option ℕ
  pub first_name : String
  pub last_name : String
  pub phone : Option String
  pub photo_key : Option String

-- the getter `role` of the class
abbrev pub role : AdminEntity → Role
role entity = admin

abbrev pub has_id : ℕ → AdminEntity → Bool
has_id id entity = entity.id == id

abbrev pub has_username : String → AdminEntity → Bool
has_username username entity = str_eq entity.username username

-- `hashPasswordOnSave`, for a salt and an instant; `bcrypt_hash` is the library's
abbrev pub hash_password_on_save :
    (String → String → String) → String → ℕ → AdminEntity → AdminEntity
hash_password_on_save bcrypt_hash salt now entity =
    if is_empty entity.password || is_password_hashed entity.password
    then entity
    else record entity {
      password = bcrypt_hash salt (trim entity.password);
      password_changed_at = some now;
    }

module _ (T : Table AdminEntity) where
  unfoldable pub find_by_id : ℕ → T.Db → Option AdminEntity
  find_by_id id db = find (has_id id) (T.rows db)

  unfoldable pub find_by_username : String → T.Db → Option AdminEntity
  find_by_username username db = find (has_username username) (T.rows db)
