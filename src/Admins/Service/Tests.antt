-- ===== src/Admins/Service/Tests.antt =====
-- Changes of credentials and logins of src/modules/admins on tables in memory. The hash of the
-- tests puts a mark in front of the password.
use Prim.Native.String.{◌++◌ as append}
use nestjs_starter.Prelude.{
  ℕ, ◌≡◌, ◌↔◌, refl, Option, String, str_eq, Bool, true, false, none, some, [], ◌∷◌, arith,
  Bool-cases, inl, inr,
}
use nestjs_starter.Exec.{Result, ok, throw, unauthorized, tr}
use nestjs_starter.Database.Memory.{memory, empty}
use nestjs_starter.Domain.{Role}
use nestjs_starter.Cache.Redis.Memory.{no_data}
use nestjs_starter.Guards.Samples.{sample_driver}
use nestjs_starter.Otp.Service.Samples.{hash}
use nestjs_starter.Storage.{Outcome, done, AccessUrl}
use nestjs_starter.Storage.Samples.{in_lower_case, reader, sharp, no_signature}
use nestjs_starter.Storage.Samples as Files
use nestjs_starter.Storage.Local.{local_provider}
use nestjs_starter.Storage.Local.Disk.{disk}
use nestjs_starter.Storage.Service.{get_access_url}
use nestjs_starter.Admins.{AdminEntity, find_by_id, find_by_username}
use nestjs_starter.Admins.Passwords.{trim, is_password_hashed}
use nestjs_starter.Admins.Service.{
  UpdateMeDto, UpdateTimes, AdminLoginResponseDto, World, update_me, merge_and_save, check_username,
  login,
}
use nestjs_starter.Admins.Service.Credentials.{IsRekeyed, update_me-IsRekeyed}
use nestjs_starter.Admins.Service.Logins.{photo_url, login-update_me_iff}
use nestjs_starter.Admins.Service.Saved.{IsDistinct}

abbrev hash_of : String → String → String
hash_of salt password = append "$2b$10$" password

abbrev compare : String → String → Bool
compare given stored = str_eq (append "$2b$10$" given) stored

abbrev sign : ℕ → Role → String
sign id role = "signed"

-- the storage service over the local provider
abbrev access : String → Outcome AccessUrl
access key =
    get_access_url in_lower_case
      (local_provider (disk ℕ) ("srv" ∷ []) "http://localhost" no_signature) reader sharp
      Files.config key none 5 (λ place. none)

abbrev root : AdminEntity
root = record {
  id = 1;
  is_active = true;
  username = "root";
  password = "$2b$10$old secret";
  password_changed_at = none;
  first_name = "A";
  last_name = "B";
  phone = none;
  photo_key = some "public/a.png";
}

abbrev start : World memory memory sample_driver hash 60 hash_of compare sign
start = record {
  admins = record { rows = root ∷ []; next_id = 2 };
  tokens = empty;
  cache = no_data;
}

abbrev at_six : UpdateTimes
at_six = record { salt = "s"; hashed_at = 6; revoked_at = 7 }

abbrev rekey : UpdateMeDto
rekey = record {
  first_name = none;
  last_name = none;
  phone = none;
  username = none;
  password = some "  new secret ";
  current_password = "old secret";
}

abbrev rekeyed : AdminEntity
rekeyed = record root { password = "$2b$10$new secret"; password_changed_at = some 6 }

abbrev go :
    UpdateMeDto
    → Result AdminEntity × World memory memory sample_driver hash 60 hash_of compare sign
go dto = update_me memory memory sample_driver hash 60 hash_of compare sign at_six 1 dto start

abbrev log_in :
    String
    → Result (Outcome AdminLoginResponseDto)
      × World memory memory sample_driver hash 60 hash_of compare sign
log_in password =
    login memory memory sample_driver hash 60 hash_of compare sign access
      (record { token_expiry = 8; token_insertion = 9 }) "fresh"
      (record { username = "root"; password = password }) (go rekey).1

trimmed : trim "  new secret " ≡ "new secret"
trimmed = refl

hashed : (is_password_hashed "$2b$10$x" ≡ true) × (is_password_hashed "$2c$10$x" ≡ false)
hashed = (refl, refl)

went : (go rekey).0 ≡ ok rekeyed
unfolding update_me merge_and_save check_username find_by_id find_by_username
went = refl

wrong_current :
    (go (record rekey { current_password = "guess" })).0
    ≡ throw (unauthorized (tr "admin.errors.current_password_incorrect"))
unfolding update_me merge_and_save check_username find_by_id find_by_username
wrong_current = refl

-- the password as it was typed
typed_refused :
    (log_in "  new secret ").0 ≡ throw (unauthorized (tr "admin.errors.invalid_credentials"))
unfolding update_me login merge_and_save check_username find_by_id find_by_username
typed_refused = refl

photo_shown :
    photo_url memory memory sample_driver hash 60 hash_of compare sign access rekeyed
    ≡ done (some "http://localhost/storage/public/a.png")
unfolding get_access_url nestjs_starter.Storage.Service.visibility_of
    nestjs_starter.Storage.Local.public_url nestjs_starter.Storage.Paths.sanitize_key
    nestjs_starter.Storage.Local.join_url
photo_shown = refl

distinct : IsDistinct memory memory sample_driver hash 60 hash_of compare sign start.admins
distinct name = elim (Bool-cases (str_eq "root" name)) [
  | inl t ↦ rw t (omega arith)
  | inr f ↦ rw f (omega arith)
]

update_me-IsRekeyed_example :
    IsRekeyed memory memory sample_driver hash 60 hash_of compare sign at_six 1 rekey start
      (go rekey).1
update_me-IsRekeyed_example =
    update_me-IsRekeyed memory memory sample_driver hash 60 hash_of compare sign at_six 1 rekey
      start rekeyed went refl

login-update_me_iff_example :
    ((r : AdminLoginResponseDto) × ((log_in "new secret").0 ≡ ok (done r))) ↔ (
      (compare "new secret" (hash_of "s" (trim "  new secret ")) ≡ true)
      × ((url : Option String) × (photo_url memory memory sample_driver hash 60 hash_of compare sign
              access rekeyed
            ≡ done url)))
login-update_me_iff_example =
    login-update_me_iff memory memory sample_driver hash 60 hash_of compare sign access at_six 1
      rekey start rekeyed "  new secret " went refl refl refl distinct
      (record { token_expiry = 8; token_insertion = 9 }) "fresh" "new secret"
