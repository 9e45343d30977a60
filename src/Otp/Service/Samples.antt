-- ===== src/Otp/Service/Samples.antt =====
-- A configuration and a table with one code to run the OTP service on; the notifier fails for one
-- phone.
use nestjs_starter.Prelude.{ℕ, ◌≡◌, refl, String, str_eq, none, [], ◌∷◌, if◌then◌else◌}
use nestjs_starter.Exec.{ok, throw, unauthorized, tr}
use nestjs_starter.Database.Memory.{Contents, memory}
use nestjs_starter.Otp.{
  user_login, OtpEntity, find_active_by_phone_and_purpose, sum_failed_attempts_since,
}
use nestjs_starter.Otp.Service.{
  OtpConfig, Dispatch, sent, failed, VerifyTimes, hashes_equal, lock_window,
  assert_phone_not_locked, check_code, verify,
}

abbrev pub config : OtpConfig
config = record {
  ttl_seconds = 300;
  cooldown_seconds = 60;
  max_verify_attempts = 3;
  phone_lock_window_seconds = 600;
  phone_max_failures_per_window = 2;
  issue_window_seconds = 3600;
  max_issues_per_window = 2;
  fixed_code = none;
}

abbrev pub hash : String → String
hash s = s

abbrev pub notifier : String → String → Dispatch
notifier phone code = if str_eq phone "+1" then failed else sent

abbrev pub verified_at : ℕ → VerifyTimes
verified_at t = record { lock_check = t; lookup = t; consumption = t }

abbrev pub issued_db : Contents OtpEntity
issued_db = record {
  rows =
      record {
        id = 1;
        phone = "+2";
        code_hash = "0042";
        purpose = user_login;
        expires_at = 301000;
        attempts = 0;
        consumed_at = none;
        created_at = 1000;
      }
      ∷ [];
  next_id = 2;
}

pub accepted_code :
    (verify memory hash notifier config (verified_at 2000) "+2" user_login "0042" issued_db).0
    ≡ ok tt
unfolding verify assert_phone_not_locked check_code hashes_equal find_active_by_phone_and_purpose
    sum_failed_attempts_since lock_window
accepted_code = refl

pub wrong_code :
    (verify memory hash notifier config (verified_at 2000) "+2" user_login "0043" issued_db).0
    ≡ throw (unauthorized (tr "otp.errors.invalid_code"))
unfolding verify assert_phone_not_locked check_code hashes_equal find_active_by_phone_and_purpose
    sum_failed_attempts_since lock_window
wrong_code = refl
