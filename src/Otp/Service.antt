-- ===== src/Otp/Service.antt =====
-- src/modules/otps/services/otp.service.ts. What the service does not compute itself is a parameter:
-- the table, SHA-256, and the WhatsApp notifier's answer. Each reading of the clock in a method is
-- a field of the method's record of times, in the order of the source.
mod Cases
pub mod Validity
pub mod Caps
pub mod Runs
pub mod Codes
pub mod Once
pub mod Pruning
pub mod Samples
mod Tests
use Prim.Native.Nat.{max}
use Prim.Native.String.{len}
use nestjs_starter.Prelude.{
  ℕ, ◌+◌, ◌-◌, ◌*◌, ◌/◌, String, str_eq, Bool, false, not, ◌&&◌, Option, none, some, ltb, leb, ◌==◌,
  is_none, or_else, if◌then◌else◌,
}
use nestjs_starter.Exec.{
  Exec, bad_request, unauthorized, tr, tr_number, pure, raise, gets, modify, throw_if, or_throw,
  ◌>>=◌, ◌>>◌,
}
use nestjs_starter.Database.{Table}
use nestjs_starter.Otp.{
  OtpPurpose, OtpEntity, Since, find_active_by_phone_and_purpose, find_latest_by_phone_and_purpose,
  increment_attempts, mark_consumed, invalidate_active, count_requests_since, delete_created_before,
  sum_failed_attempts_since,
}

-- the fields that the constructor reads from the environment
pub record OtpConfig : Type 0 where
  pub ttl_seconds : ℕ
  pub cooldown_seconds : ℕ
  pub max_verify_attempts : ℕ
  pub phone_lock_window_seconds : ℕ
  pub phone_max_failures_per_window : ℕ
  pub issue_window_seconds : ℕ
  pub max_issues_per_window : ℕ
  pub fixed_code : Option String

-- How the race between `sendOtp` and the five second timer ends.
pub data Dispatch : Type 0 where
  sent failed timed_out : Dispatch

pub record OtpIssueResult : Type 0 where
  pub expires_at : ℕ
  pub cooldown_seconds : ℕ
  pub dispatch_warning : Option String

pub record IssueTimes : Type 0 where
  pub lock_check : ℕ
  pub rate_check : ℕ
  pub cooldown_check : ℕ
  pub invalidation : ℕ
  pub expiry : ℕ
  -- the database's default of `created_at`
  pub insertion : ℕ

pub record VerifyTimes : Type 0 where
  pub lock_check : ℕ
  pub lookup : ℕ
  pub consumption : ℕ

-- `latest && !latest.consumedAt` and the age below the cooldown
abbrev pub cools_down : ℕ → ℕ → Option OtpEntity → Bool
cools_down cooldown now none = false
cools_down cooldown now (some latest) =
    is_none latest.consumed_at && ltb now (latest.created_at + cooldown * 1000)

-- `Math.ceil(cooldownSeconds - ageSeconds)` of the latest code
abbrev pub remaining_seconds : ℕ → ℕ → Option OtpEntity → ℕ
remaining_seconds cooldown now none = 0
remaining_seconds cooldown now (some latest) =
    (latest.created_at + cooldown * 1000 - now + 999) / 1000

abbrev pub dispatch_warning : Dispatch → Option String
dispatch_warning sent = none
dispatch_warning failed = some "otp.warnings.dispatch_failed"
dispatch_warning timed_out = some "otp.warnings.dispatch_failed"

pub hashes_equal : String → String → Bool
hashes_equal a b = if len a == len b then str_eq a b else false

module _ (T : Table OtpEntity) (sha256 : String → String) (send_otp : String → String → Dispatch)
    (c : OtpConfig) where
  pub lock_window : ℕ → Since
  lock_window now = record { now = now; back = c.phone_lock_window_seconds * 1000 }

  pub issue_window : ℕ → Since
  issue_window now = record { now = now; back = c.issue_window_seconds * 1000 }

  pub assert_phone_not_locked : ℕ → String → OtpPurpose → Exec T.Db (Unit {0})
  assert_phone_not_locked now phone purpose = do
    failures ← gets (sum_failed_attempts_since T phone purpose (lock_window now))
    throw_if (leb c.phone_max_failures_per_window failures) (
        unauthorized
          (tr_number "otp.errors.phone_locked" ((c.phone_lock_window_seconds + 59) / 60)))

  pub assert_issue_rate_not_exceeded : ℕ → String → OtpPurpose → Exec T.Db (Unit {0})
  assert_issue_rate_not_exceeded now phone purpose = do
    requests ← gets (count_requests_since T phone purpose (issue_window now))
    throw_if (leb c.max_issues_per_window requests) (
        bad_request
          (tr_number "otp.errors.issue_rate_exceeded" ((c.issue_window_seconds + 59) / 60)))

  -- the created entity, given its id
  pub new_otp : IssueTimes → String → OtpPurpose → String → ℕ → OtpEntity
  new_otp t phone purpose code id = record {
    id = id;
    phone = phone;
    code_hash = sha256 code;
    purpose = purpose;
    expires_at = t.expiry + c.ttl_seconds * 1000;
    attempts = 0;
    consumed_at = none;
    created_at = t.insertion;
  }

  pub issue : IssueTimes → String → OtpPurpose → String → Exec T.Db OtpIssueResult
  issue t phone purpose generated = do
    assert_phone_not_locked t.lock_check phone purpose
    assert_issue_rate_not_exceeded t.rate_check phone purpose
    latest ← gets (find_latest_by_phone_and_purpose T phone purpose)
    throw_if (cools_down c.cooldown_seconds t.cooldown_check latest) (
        bad_request (
          tr_number "otp.errors.resend_cooldown"
            (remaining_seconds c.cooldown_seconds t.cooldown_check latest)))
    modify (invalidate_active T phone purpose t.invalidation)
    modify (T.insert (new_otp t phone purpose (or_else c.fixed_code generated)))
    pure (record {
      expires_at = t.expiry + c.ttl_seconds * 1000;
      cooldown_seconds = c.cooldown_seconds;
      dispatch_warning = dispatch_warning (send_otp phone (or_else c.fixed_code generated));
    })

  pub check_code : VerifyTimes → String → OtpEntity → Exec T.Db (Unit {0})
  check_code t code otp =
      if leb c.max_verify_attempts otp.attempts
      then (do
        modify (mark_consumed T otp.id t.consumption)
        raise (unauthorized (tr "otp.errors.too_many_attempts")))
      else if not (hashes_equal (sha256 code) otp.code_hash)
      then (do
        modify (increment_attempts T otp.id)
        raise (unauthorized (tr "otp.errors.invalid_code")))
      else modify (mark_consumed T otp.id t.consumption)

  pub verify : VerifyTimes → String → OtpPurpose → String → Exec T.Db (Unit {0})
  verify t phone purpose code = do
    assert_phone_not_locked t.lock_check phone purpose
    found ← gets (find_active_by_phone_and_purpose T phone purpose t.lookup)
    otp ← or_throw found (unauthorized (tr "otp.errors.no_active_code"))
    check_code t code otp

  pub prune_stale_otps : ℕ → T.Db → T.Db
  prune_stale_otps now =
      delete_created_before T
        (record { now = now; back = max c.phone_lock_window_seconds c.issue_window_seconds * 1000 })
