-- ===== src/Otp/Service/Caps.antt =====
-- The rolling caps of src/modules/otps/services/otp.service.ts: failed attempts and issues in a window.
use nestjs_starter.Prelude.{
  ℕ, str_eq, if◌then◌else◌, ◌+◌, ◌≤◌, ◌≡◌, refl, String, false, some, arith,
}
use nestjs_starter.Database.{Table}
use nestjs_starter.Database.Rows.{sum_mono, sum-delete, sum-update_eq}
use nestjs_starter.Database.Keys.{sum-update_key, sum-update_other}
use nestjs_starter.Otp.{
  OtpPurpose, OtpEntity, active, failed_since, requested_since, unconsumed, consume, attempt,
  has_id, created_before, increment_attempts, mark_consumed, invalidate_active,
  delete_created_before, find_active_by_phone_and_purpose, sum_failed_attempts_since,
  count_requests_since,
}
use nestjs_starter.Otp.Service.{
  OtpConfig, Dispatch, IssueTimes, lock_window, issue_window, new_otp, prune_stale_otps,
}
use nestjs_starter.Otp.Service.Cases.{after_issue, failures, requests}
use nestjs_starter.Otp.Service.Validity.{IsValid}

module _ (T : Table OtpEntity) (sha256 : String → String) (send_otp : String → String → Dispatch)
    (c : OtpConfig) where
  abbrev pub fails : ℕ → String → OtpPurpose → T.Db → ℕ
  fails = failures T sha256 send_otp c

  abbrev pub asks : ℕ → String → OtpPurpose → T.Db → ℕ
  asks = requests T sha256 send_otp c

  -- As the window moves on, no row comes back into it.
  pub failures_mono :
      (t t' : ℕ) (phone : String) (purpose : OtpPurpose) (db : T.Db)
      → t ≤ t'
      → fails t' phone purpose db ≤ fails t phone purpose db
  unfolding sum_failed_attempts_since lock_window
  failures_mono t t' phone purpose db h =
      sum_mono _ _ (λ otp. otp.attempts) (T.rows db) (λ x p. ground arith)

  pub requests_mono :
      (t t' : ℕ) (phone : String) (purpose : OtpPurpose) (db : T.Db)
      → t ≤ t'
      → asks t' phone purpose db ≤ asks t phone purpose db
  unfolding count_requests_since issue_window
  requests_mono t t' phone purpose db h = sum_mono _ _ (λ _. 1) (T.rows db) (λ x p. ground arith)

  pub failures-mark_consumed :
      (t id at : ℕ) (phone : String) (purpose : OtpPurpose) (db : T.Db)
      → fails t phone purpose (mark_consumed T id at db) ≡ fails t phone purpose db
  unfolding sum_failed_attempts_since mark_consumed
  failures-mark_consumed t id at phone purpose db = rw (T.rows-update _ _ db) (
      sum-update_eq (has_id id) _ (consume at) (λ otp. otp.attempts) (T.rows db) (λ x. refl)
        (λ x. refl))

  pub requests-mark_consumed :
      (t id at : ℕ) (phone : String) (purpose : OtpPurpose) (db : T.Db)
      → asks t phone purpose (mark_consumed T id at db) ≡ asks t phone purpose db
  unfolding count_requests_since mark_consumed
  requests-mark_consumed t id at phone purpose db =
      rw (T.rows-update _ _ db)
        (sum-update_eq (has_id id) _ (consume at) (λ _. 1) (T.rows db) (λ x. refl) (λ x. refl))

  pub requests-increment_attempts :
      (t id : ℕ) (phone : String) (purpose : OtpPurpose) (db : T.Db)
      → asks t phone purpose (increment_attempts T id db) ≡ asks t phone purpose db
  unfolding count_requests_since increment_attempts
  requests-increment_attempts t id phone purpose db =
      rw (T.rows-update _ _ db)
        (sum-update_eq (has_id id) _ attempt (λ _. 1) (T.rows db) (λ x. refl) (λ x. refl))

  pub failures-increment_attempts :
      (t id : ℕ) (phone : String) (purpose : OtpPurpose) {db : T.Db}
      → IsValid T db
      → fails t phone purpose (increment_attempts T id db) ≤ fails t phone purpose db + 1
  unfolding sum_failed_attempts_since increment_attempts
  failures-increment_attempts t id phone purpose {db} v = rw (T.rows-update _ _ db) (
      sum-update_key (λ otp. otp.id) id (T.next_id db) _ attempt (λ otp. otp.attempts) (T.rows db)
        (λ x. refl) (λ x. refl) v.ids)

  pub failures-increment_other :
      (t t' : ℕ) (phone phone' : String) (purpose purpose' : OtpPurpose) {db : T.Db}
      (otp : OtpEntity)
      → IsValid T db
      → find_active_by_phone_and_purpose T phone purpose t db ≡ some otp
      → failed_since phone' purpose' (lock_window T sha256 send_otp c t') otp ≡ false
      → fails t' phone' purpose' (increment_attempts T otp.id db) ≡ fails t' phone' purpose' db
  unfolding sum_failed_attempts_since increment_attempts find_active_by_phone_and_purpose
  failures-increment_other t t' phone phone' purpose purpose' {db} otp v s n =
      rw (T.rows-update _ _ db) (
        sum-update_other (λ x. x.id) (T.next_id db) (active phone purpose t) _ attempt
          (λ x. x.attempts) (T.rows db) otp (λ x. refl) v.ids s n)

  -- the cutoff of the nightly pruning lies before every window that is counted over from then on
  pub failures-prune :
      (now t : ℕ) (phone : String) (purpose : OtpPurpose) (db : T.Db)
      → now ≤ t
      → fails t phone purpose (prune_stale_otps T sha256 send_otp c now db)
        ≡ fails t phone purpose db
  unfolding sum_failed_attempts_since lock_window prune_stale_otps delete_created_before
  failures-prune now t phone purpose db h =
      rw (T.rows-delete _ db)
        (sum-delete _ (created_before _) (λ otp. otp.attempts) (T.rows db) (λ x p. ground arith))

  pub requests-prune :
      (now t : ℕ) (phone : String) (purpose : OtpPurpose) (db : T.Db)
      → now ≤ t
      → asks t phone purpose (prune_stale_otps T sha256 send_otp c now db) ≡ asks t phone purpose db
  unfolding count_requests_since issue_window prune_stale_otps delete_created_before
  requests-prune now t phone purpose db h =
      rw (T.rows-delete _ db)
        (sum-delete _ (created_before _) (λ _. 1) (T.rows db) (λ x p. ground arith))

  pub failures-after_issue :
      (t : ℕ) (phone' : String) (purpose' : OtpPurpose) (times : IssueTimes) (phone : String)
      (purpose : OtpPurpose) (code : String) (db : T.Db)
      → fails t phone' purpose' (after_issue T sha256 send_otp c times phone purpose code db)
        ≡ fails t phone' purpose' db
  unfolding sum_failed_attempts_since new_otp invalidate_active
  failures-after_issue t phone' purpose' times phone purpose code db =
      rw (T.rows-insert _ _, T.rows-update _ _ db)
        (ground (
          arith,
          sum-update_eq (unconsumed phone purpose)
              (failed_since phone' purpose' (lock_window T sha256 send_otp c t))
              (consume times.invalidation) (λ otp. otp.attempts) (T.rows db) (λ x. refl)
              (λ x. refl),
        ))

  pub requests-after_issue_le :
      (t : ℕ) (phone' : String) (purpose' : OtpPurpose) (times : IssueTimes) (phone : String)
      (purpose : OtpPurpose) (code : String) (db : T.Db)
      → asks t phone' purpose' (after_issue T sha256 send_otp c times phone purpose code db)
        ≤ asks t phone' purpose' db + (if str_eq phone phone' then 1 else 0)
  unfolding count_requests_since new_otp invalidate_active
  requests-after_issue_le t phone' purpose' times phone purpose code db =
      rw (T.rows-insert _ _, T.rows-update _ _ db)
        (ground (
          arith,
          sum-update_eq (unconsumed phone purpose)
              (requested_since phone' purpose' (issue_window T sha256 send_otp c t))
              (consume times.invalidation) (λ _. 1) (T.rows db) (λ x. refl) (λ x. refl),
        ))
