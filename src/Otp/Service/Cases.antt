-- ===== src/Otp/Service/Cases.antt =====
-- The branches of `issue` and `verify` of src/modules/otps/services/otp.service.ts, as views.
use nestjs_starter.Prelude.{
  ℕ, ◌+◌, ◌/◌, ◌≡◌, String, Bool, true, false, none, some, leb, or_else, Bool-cases, Option-cases,
  inl, inr,
}
use nestjs_starter.Exec.{Result, ok, throw, HttpException, unauthorized, tr, tr_number}
use nestjs_starter.Database.{Table}
use nestjs_starter.Otp.{
  OtpPurpose, OtpEntity, find_active_by_phone_and_purpose, find_latest_by_phone_and_purpose,
  increment_attempts, mark_consumed, invalidate_active, count_requests_since,
  sum_failed_attempts_since,
}
use nestjs_starter.Otp.Service.{
  OtpConfig, Dispatch, OtpIssueResult, IssueTimes, VerifyTimes, cools_down, hashes_equal,
  lock_window, issue_window, assert_phone_not_locked, assert_issue_rate_not_exceeded, new_otp,
  issue, check_code, verify,
}

module _ (T : Table OtpEntity) (sha256 : String → String) (send_otp : String → String → Dispatch)
    (c : OtpConfig) where
  -- the failures that count against the phone at the instant, and the issues
  abbrev pub failures : ℕ → String → OtpPurpose → T.Db → ℕ
  failures now phone purpose =
      sum_failed_attempts_since T phone purpose (lock_window T sha256 send_otp c now)

  abbrev pub requests : ℕ → String → OtpPurpose → T.Db → ℕ
  requests now phone purpose =
      count_requests_since T phone purpose (issue_window T sha256 send_otp c now)

  abbrev pub locked : ℕ → String → OtpPurpose → T.Db → Bool
  locked now phone purpose db = leb c.phone_max_failures_per_window (failures now phone purpose db)

  abbrev pub flooded : ℕ → String → OtpPurpose → T.Db → Bool
  flooded now phone purpose db = leb c.max_issues_per_window (requests now phone purpose db)

  abbrev pub after_issue : IssueTimes → String → OtpPurpose → String → T.Db → T.Db
  after_issue t phone purpose generated db =
      T.insert (new_otp T sha256 send_otp c t phone purpose (or_else c.fixed_code generated))
        (invalidate_active T phone purpose t.invalidation db)

  module _ (t : IssueTimes) (phone : String) (purpose : OtpPurpose) (generated : String)
      (db : T.Db) where
    pub data IssueCase : Result OtpIssueResult × T.Db → Type 0 where
      refused : (e : HttpException) → IssueCase (throw e, db)
      issued :
          (result : OtpIssueResult)
          → locked t.lock_check phone purpose db ≡ false
          → flooded t.rate_check phone purpose db ≡ false
          → IssueCase (ok result, after_issue t phone purpose generated db)

    pub issue_case : IssueCase (issue T sha256 send_otp c t phone purpose generated db)
    unfolding issue assert_phone_not_locked assert_issue_rate_not_exceeded
    issue_case = elim (Bool-cases (locked t.lock_check phone purpose db)) [
      | inl l ↦ rw l (refused _)
      | inr l ↦ elim (Bool-cases (flooded t.rate_check phone purpose db)) [
        | inl f ↦ rw (l, f) (refused _)
        | inr f ↦
            elim (Bool-cases (
              cools_down c.cooldown_seconds t.cooldown_check
                (find_latest_by_phone_and_purpose T phone purpose db))) [
                  | inl d ↦ rw (l, f, d) (refused _)
                  | inr d ↦ rw (l, f, d) (issued _ l f)
                ]
      ]
    ]

  module _ (t : VerifyTimes) (phone : String) (purpose : OtpPurpose) (code : String)
      (db : T.Db) where
    pub data VerifyCase : Result (Unit {0}) × T.Db → Type 0 where
      phone_locked :
          locked t.lock_check phone purpose db ≡ true
          → VerifyCase (
            throw (
                unauthorized
                  (tr_number "otp.errors.phone_locked" ((c.phone_lock_window_seconds + 59) / 60))),
            db,
          )
      no_active_code :
          locked t.lock_check phone purpose db ≡ false
          → find_active_by_phone_and_purpose T phone purpose t.lookup db ≡ none
          → VerifyCase (throw (unauthorized (tr "otp.errors.no_active_code")), db)
      too_many_attempts :
          (otp : OtpEntity)
          → locked t.lock_check phone purpose db ≡ false
          → find_active_by_phone_and_purpose T phone purpose t.lookup db ≡ some otp
          → leb c.max_verify_attempts otp.attempts ≡ true
          → VerifyCase (
            throw (unauthorized (tr "otp.errors.too_many_attempts")),
            mark_consumed T otp.id t.consumption db,
          )
      invalid_code :
          (otp : OtpEntity)
          → locked t.lock_check phone purpose db ≡ false
          → find_active_by_phone_and_purpose T phone purpose t.lookup db ≡ some otp
          → leb c.max_verify_attempts otp.attempts ≡ false
          → hashes_equal (sha256 code) otp.code_hash ≡ false
          → VerifyCase
              (throw (unauthorized (tr "otp.errors.invalid_code")), increment_attempts T otp.id db)
      accepted :
          (otp : OtpEntity)
          → locked t.lock_check phone purpose db ≡ false
          → find_active_by_phone_and_purpose T phone purpose t.lookup db ≡ some otp
          → leb c.max_verify_attempts otp.attempts ≡ false
          → hashes_equal (sha256 code) otp.code_hash ≡ true
          → VerifyCase (ok tt, mark_consumed T otp.id t.consumption db)

    pub verify_case : VerifyCase (verify T sha256 send_otp c t phone purpose code db)
    unfolding verify assert_phone_not_locked check_code
    verify_case = elim (Bool-cases (locked t.lock_check phone purpose db)) [
      | inl l ↦ rw l (phone_locked l)
      | inr l ↦ elim (Option-cases (find_active_by_phone_and_purpose T phone purpose t.lookup db)) [
        | inl n ↦ rw (l, n) (no_active_code l n)
        | inr (otp, s) ↦ elim (Bool-cases (leb c.max_verify_attempts otp.attempts)) [
          | inl m ↦ rw (l, s, m) (too_many_attempts otp l s m)
          | inr m ↦ elim (Bool-cases (hashes_equal (sha256 code) otp.code_hash)) [
            | inl h ↦ rw (l, s, m, h) (accepted otp l s m h)
            | inr h ↦ rw (l, s, m, h) (invalid_code otp l s m h)
          ]
        ]
      ]
    ]
