-- ===== src/Users/Auth/Tests.antt =====
-- Logins of src/modules/users/services/user-auth.service.ts on tables in memory.
use nestjs_starter.Prelude.{ℕ, ◌≡◌, ◌≢◌, ◌↔◌, refl, String, Bool, true, false, none, some, [], ◌∷◌}
use nestjs_starter.Exec.{Result, ok}
use nestjs_starter.Database.Memory.{memory, empty}
use nestjs_starter.Domain.{Role}
use nestjs_starter.Cache.Redis.Memory.{no_data}
use nestjs_starter.Guards.Samples.{sample_driver}
use nestjs_starter.Otp.{user_login}
use nestjs_starter.Otp.Service.{VerifyTimes, verify}
use nestjs_starter.Otp.Service.Validity.{IsValid}
use nestjs_starter.Otp.Service.Codes.{Accepts}
use nestjs_starter.Otp.Service.Samples.{
  config, hash, notifier, verified_at, issued_db, accepted_code,
}
use nestjs_starter.Storage.{Outcome, done, fail, StorageFault, AccessUrl}
use nestjs_starter.Storage.Samples.{in_lower_case, reader, sharp, no_signature}
use nestjs_starter.Storage.Samples as Files
use nestjs_starter.Storage.Local.{local_provider}
use nestjs_starter.Storage.Local.Disk.{disk}
use nestjs_starter.Storage.Service.{get_access_url}
use nestjs_starter.Users.{UserEntity, stub, find_by_phone}
use nestjs_starter.Users.Service.{set_active, find_one_or_create_by_phone}
use nestjs_starter.Users.Auth.{UserLoginResponseDto, LoginTimes, LoginState, verify_otp}
use nestjs_starter.Users.Auth.Logins.{
  IsShown, IsSession, photo_url, verify_otp_iff, verify_otp_disabled,
}

abbrev cities : ℕ → Bool
cities id = true

abbrev sign : ℕ → Role → String
sign id role = "signed"

-- the storage service over the local provider
abbrev access : String → Outcome AccessUrl
access key =
    get_access_url in_lower_case
      (local_provider (disk ℕ) ("srv" ∷ []) "http://localhost" no_signature) reader sharp
      Files.config key none 5 (λ place. none)

abbrev disabled : UserEntity
disabled = set_active false (stub "+2" 1)

abbrev State : Type 0
State = LoginState memory memory memory sample_driver hash notifier config 60 cities sign access

abbrev start_with : UserEntity → State
start_with entity = record {
  otps = issued_db;
  world = record {
    users = record { rows = entity ∷ []; next_id = 2 };
    tokens = empty;
    cache = no_data;
  };
}

abbrev start : State
start = start_with disabled

abbrev times : LoginTimes
times = record { verification = verified_at 2000; token_expiry = 2001; token_insertion = 2002 }

abbrev attempt : UserEntity → Result (Outcome UserLoginResponseDto) × State
attempt entity =
    verify_otp memory memory memory sample_driver hash notifier config 60 cities sign access times
      "+2" "0042" "fresh" (start_with entity)

-- A key of no visibility gets no URL.
abbrev misfiled : UserEntity
misfiled = record (stub "+2" 1) { photo_key = some "avatars/1.png" }

abbrev Accepted : Type 0
Accepted = Accepts memory hash notifier config (verified_at 2000) "+2" user_login "0042" issued_db

verify_otp_iff_example :
    (((r : UserLoginResponseDto) × ((attempt misfiled).0 ≡ ok (done r))) ↔ (
      Accepted
      × IsShown memory memory memory sample_driver hash notifier config 60 cities sign access times
          "+2" "0042" "fresh"
          (start_with misfiled)))
    × (Accepted
        → IsValid memory issued_db
        → (entity : UserEntity) (e : StorageFault)
        → (find_one_or_create_by_phone memory memory sample_driver hash 60 cities "+2"
            (start_with misfiled).world).0
          ≡ ok entity
        → photo_url memory memory memory sample_driver hash notifier config 60 cities sign access
            times "+2" "0042" "fresh"
            (start_with misfiled)
            entity
          ≡ fail e
        → ((attempt misfiled).0 ≡ ok (fail e))
          × IsSession memory memory memory sample_driver hash notifier config 60 cities sign access
              times "+2" "0042" "fresh"
              (start_with misfiled)
              entity
              (attempt misfiled).1.world.tokens
          × ((t' : VerifyTimes) (code' : String)
              → (verify memory hash notifier config t' "+2" user_login code'
                  (attempt misfiled).1.otps).0
                ≢ ok tt))
verify_otp_iff_example =
    verify_otp_iff memory memory memory sample_driver hash notifier config 60 cities sign access
      times "+2" "0042" "fresh" (start_with misfiled)

found : find_by_phone memory "+2" start.world.users ≡ some disabled
unfolding find_by_phone
found = refl

verify_otp_disabled_example :
    (r : UserLoginResponseDto) × ((attempt disabled).0 ≡ ok (done r))
    × (r.user.entity.is_active ≡ false)
    × (r.access_token ≡ "signed")
    × (r.refresh_token ≡ "fresh")
    × IsSession memory memory memory sample_driver hash notifier config 60 cities sign access times
        "+2" "0042" "fresh" start disabled
        (attempt disabled).1.world.tokens
verify_otp_disabled_example =
    verify_otp_disabled memory memory memory sample_driver hash notifier config 60 cities sign
      access times "+2" "0042" "fresh" start disabled none accepted_code found refl refl
