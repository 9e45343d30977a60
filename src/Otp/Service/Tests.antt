-- ===== src/Otp/Service/Tests.antt =====
-- Runs of the OTP service on a table in memory, with a notifier that fails for one phone.
use nestjs_starter.Prelude.{
  ℕ, ◌≡◌, ◌≢◌, ◌↔◌, refl, ap, String, str_eq, eq_iff, Option, true, none, some, List, [], ◌∷◌,
  arith, or_else,
}
use nestjs_starter.Exec.{ok, throw, bad_request, tr_number}
use nestjs_starter.Database.Memory.{Contents, memory, empty}
use nestjs_starter.Otp.{
  user_login, OtpEntity, find_latest_by_phone_and_purpose, count_requests_since,
  sum_failed_attempts_since,
}
use nestjs_starter.Otp.Service.{
  OtpIssueResult, IssueTimes, lock_window, issue_window, assert_phone_not_locked,
  assert_issue_rate_not_exceeded, issue, verify, prune_stale_otps,
}
use nestjs_starter.Otp.Service.Samples.{
  config, hash, notifier, verified_at, issued_db, accepted_code,
}
use nestjs_starter.Otp.Service.Cases.{failures, requests}
use nestjs_starter.Otp.Service.Validity.{IsValid}
use nestjs_starter.Otp.Service.Runs.{
  Call, issue_call, verify_call, prune_call, IsCapped, run, run-IsCapped,
}
use nestjs_starter.Otp.Service.Codes.{Accepts, verify_iff, issue-verify_iff}
use nestjs_starter.Otp.Service.Once.{verify_once}
use nestjs_starter.Otp.Service.Pruning.{prune_neutral}

abbrev at : ℕ → IssueTimes
at t = record {
  lock_check = t;
  rate_check = t;
  cooldown_check = t;
  invalidation = t;
  expiry = t;
  insertion = t;
}

abbrev empty_db : Contents OtpEntity
empty_db = empty

abbrev issued_result : OtpIssueResult
issued_result = record { expires_at = 301000; cooldown_seconds = 60; dispatch_warning = none }

first_issue :
    (issue memory hash notifier config (at 1000) "+2" user_login "0042" empty_db).0
    ≡ ok issued_result
unfolding issue assert_phone_not_locked assert_issue_rate_not_exceeded sum_failed_attempts_since
    count_requests_since find_latest_by_phone_and_purpose lock_window issue_window
first_issue = refl

issued_db-IsValid : IsValid memory issued_db
issued_db-IsValid = record { ids = omega arith; single = λ phone purpose. ground arith }

empty-IsCapped : IsCapped memory hash notifier config 0 empty_db
unfolding sum_failed_attempts_since count_requests_since
empty-IsCapped = record {
  valid = record { ids = tt; single = λ phone purpose. omega arith };
  failures = λ phone purpose t l. omega arith;
  requests = λ phone purpose t l. omega arith;
}

second_issue_cools_down :
    (issue memory hash notifier config (at 31500) "+2" user_login "7" issued_db).0
    ≡ throw (bad_request (tr_number "otp.errors.resend_cooldown" 30))
unfolding issue assert_phone_not_locked assert_issue_rate_not_exceeded sum_failed_attempts_since
    count_requests_since find_latest_by_phone_and_purpose lock_window issue_window
second_issue_cools_down = refl

abbrev calls : List Call
calls =
    issue_call (at 1000) "+2" user_login "0042"
    ∷ verify_call (verified_at 2000) "+2" user_login "1"
    ∷ verify_call (verified_at 3000) "+2" user_login "2"
    ∷ verify_call (verified_at 4000) "+2" user_login "0042"
    ∷ prune_call 5000
    ∷ []

run-IsCapped_example :
    IsCapped memory hash notifier config 5000 (run memory hash notifier config calls empty_db)
run-IsCapped_example =
    run-IsCapped memory hash notifier config calls 0 empty_db (omega arith) empty-IsCapped

verify_iff_example :
    ((verify memory hash notifier config (verified_at 2000) "+2" user_login "0042" issued_db).0
      ≡ ok tt)
    ↔ Accepts memory hash notifier config (verified_at 2000) "+2" user_login "0042" issued_db
verify_iff_example =
    verify_iff memory hash notifier config (verified_at 2000) "+2" user_login "0042" issued_db

-- A verification, a pruning and a request for another phone come in between.
abbrev between : List Call
between =
    verify_call (verified_at 2200) "+2" user_login "0042"
    ∷ prune_call 2300
    ∷ issue_call (at 2400) "+3" user_login "0042"
    ∷ []

other_phone : ¬ (◌≡◌ {A = Option String} (some "+3") (some "+2"))
other_phone e =
    let same : str_eq "+3" "+2" ≡ true =
      ((eq_iff "+3" "+2").1 (ap (λ (o : Option String). or_else o "+3") e)) in
    absurd (cc)

verify_once_example :
    (verify memory hash notifier config (verified_at 2500) "+2" user_login "0042" (
      run memory hash notifier config between
        (verify memory hash notifier config
          (verified_at 2000)
          "+2"
          user_login
          "0042"
          issued_db).1)).0
    ≢ ok tt
verify_once_example =
    verify_once memory hash notifier config "+2" user_login (verified_at 2000) (verified_at 2500)
      "0042" "0042" issued_db between issued_db-IsValid accepted_code
      (λ e. absurd (cc), (λ e. absurd (cc), (other_phone, tt)))

issue-verify_iff_example :
    ((verify memory hash notifier config
        (verified_at 2000)
        "+2"
        user_login
        "0042"
        (issue memory hash notifier config (at 1000) "+2" user_login "0042" empty_db).1).0
      ≡ ok tt)
    ↔ (hash "0042" ≡ hash (or_else {A = String} none "0042"))
issue-verify_iff_example =
    issue-verify_iff memory hash notifier config (at 1000) (verified_at 2000) "+2" user_login "0042"
      "0042" empty_db issued_result first_issue (omega arith) (omega arith) (omega arith)

prune_neutral_example :
    (failures memory hash notifier config 9000000 "+2" user_login
        (prune_stale_otps memory hash notifier config 8000000 issued_db)
      ≡ failures memory hash notifier config 9000000 "+2" user_login issued_db)
    × (requests memory hash notifier config 9000000 "+2" user_login
          (prune_stale_otps memory hash notifier config 8000000 issued_db)
        ≡ requests memory hash notifier config 9000000 "+2" user_login issued_db)
prune_neutral_example =
    prune_neutral memory hash notifier config 8000000 9000000 "+2" user_login issued_db
      (omega arith)
