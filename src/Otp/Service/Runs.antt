-- ===== src/Otp/Service/Runs.antt =====
-- Any sequence of calls of src/modules/otps/services/otp.service.ts, in the order of time.
use nestjs_starter.Prelude.{
  ℕ, ◌≤◌, ◌∷◌, [], List, ◌≡◌, refl, String, true, some, arith, eq_iff, Bool-cases, inl, inr,
}
use nestjs_starter.Exec.{Result}
use nestjs_starter.Database.{Table}
use nestjs_starter.Database.Rows.{find_sound}
use nestjs_starter.Otp.{
  OtpPurpose, user_login, OtpEntity, active, failed_since, find_active_by_phone_and_purpose,
}
use nestjs_starter.Otp.Service.{
  OtpConfig, Dispatch, OtpIssueResult, IssueTimes, VerifyTimes, lock_window, issue, verify,
  prune_stale_otps,
}
use nestjs_starter.Otp.Service.Cases.{
  IssueCase, refused, issued, issue_case, VerifyCase, phone_locked, no_active_code,
  too_many_attempts, invalid_code, accepted, verify_case,
}
use nestjs_starter.Otp.Service.Validity.{
  IsValid, issue-IsValid, verify-IsValid, prune_stale_otps-IsValid,
}
use nestjs_starter.Otp.Service.Caps.{
  fails, asks, failures_mono, requests_mono, failures-mark_consumed, requests-mark_consumed,
  requests-increment_attempts, failures-increment_attempts, failures-increment_other,
  failures-prune, requests-prune, failures-after_issue, requests-after_issue_le,
}

-- What reaches the service: a request for a code, a code to verify, or the nightly job.
pub data Call : Type 0 where
  issue_call : IssueTimes → String → OtpPurpose → String → Call
  verify_call : VerifyTimes → String → OtpPurpose → String → Call
  prune_call : ℕ → Call

-- the instant of the first check, and of the last that the caps are measured at
abbrev pub begun : Call → ℕ
begun (issue_call t phone purpose generated) = t.lock_check
begun (verify_call t phone purpose code) = t.lock_check
begun (prune_call now) = now

abbrev pub measured : Call → ℕ
measured (issue_call t phone purpose generated) = t.rate_check
measured (verify_call t phone purpose code) = t.lock_check
measured (prune_call now) = now

-- The calls follow one another in time, from an instant on.
abbrev pub InOrder : ℕ → List Call → Type 0
InOrder t [] = Unit
InOrder t (call ∷ calls) =
    (t ≤ begun call) × (begun call ≤ measured call) × InOrder (measured call) calls

abbrev pub last_measured : ℕ → List Call → ℕ
last_measured t [] = t
last_measured t (call ∷ calls) = last_measured (measured call) calls

purpose_unique : (p q : OtpPurpose) → p ≡ q
purpose_unique user_login user_login = refl

module _ (T : Table OtpEntity) (sha256 : String → String) (send_otp : String → String → Dispatch)
    (c : OtpConfig) where
  unfoldable pub step : Call → T.Db → T.Db
  step (issue_call t phone purpose generated) db =
      (issue T sha256 send_otp c t phone purpose generated db).1
  step (verify_call t phone purpose code) db =
      (verify T sha256 send_otp c t phone purpose code db).1
  step (prune_call now) db = prune_stale_otps T sha256 send_otp c now db

  unfoldable pub run : List Call → T.Db → T.Db
  run [] db = db
  run (call ∷ calls) db = run calls (step call db)

  -- From the instant on, no window of any phone holds more than the caps allow.
  pub record IsCapped (t : ℕ) (db : T.Db) : Type 0 where
    pub valid : IsValid T db
    pub failures :
        (phone : String) (purpose : OtpPurpose) (t' : ℕ)
        → t ≤ t'
        → fails T sha256 send_otp c t' phone purpose db ≤ c.phone_max_failures_per_window
    pub requests :
        (phone : String) (purpose : OtpPurpose) (t' : ℕ)
        → t ≤ t'
        → asks T sha256 send_otp c t' phone purpose db ≤ c.max_issues_per_window

  IsCapped-later : {t u : ℕ} {db : T.Db} → t ≤ u → IsCapped t db → IsCapped u db
  IsCapped-later h k = record {
    valid = k.valid;
    failures = λ phone purpose t' l. k.failures phone purpose t' (omega arith);
    requests = λ phone purpose t' l. k.requests phone purpose t' (omega arith);
  }

  requests_later :
      (t t' : ℕ) (phone phone' : String) (purpose purpose' : OtpPurpose) (db : T.Db)
      → t ≤ t'
      → phone ≡ phone'
      → asks T sha256 send_otp c t' phone' purpose' db ≤ asks T sha256 send_otp c t phone purpose db
  requests_later t t' phone phone' purpose purpose' db l e =
      rw (← e, purpose_unique purpose' purpose)
        (requests_mono T sha256 send_otp c t t' phone purpose db l)

  failures_later :
      (t t' : ℕ) (phone phone' : String) (purpose purpose' : OtpPurpose) (db : T.Db)
      → t ≤ t'
      → phone ≡ phone'
      → fails T sha256 send_otp c t' phone' purpose' db
        ≤ fails T sha256 send_otp c t phone purpose db
  failures_later t t' phone phone' purpose purpose' db l e =
      rw (← e, purpose_unique purpose' purpose)
        (failures_mono T sha256 send_otp c t t' phone purpose db l)

  -- a row that fails for one phone and was found for another belongs to both
  same_phone :
      (t t' : ℕ) (phone phone' : String) (purpose purpose' : OtpPurpose) (db : T.Db)
      (otp : OtpEntity)
      → find_active_by_phone_and_purpose T phone purpose t db ≡ some otp
      → failed_since phone' purpose' (lock_window T sha256 send_otp c t') otp ≡ true
      → phone ≡ phone'
  unfolding find_active_by_phone_and_purpose
  same_phone t t' phone phone' purpose purpose' db otp s i = ground (
    arith,
    find_sound (active phone purpose t) (T.rows db) s,
    eq_iff otp.phone phone,
    eq_iff otp.phone phone',
  )

  issue-IsCapped :
      (t : IssueTimes) (phone : String) (purpose : OtpPurpose) (generated : String) {db : T.Db}
      → t.lock_check ≤ t.rate_check
      → IsCapped t.lock_check db
      → IsCapped t.rate_check (issue T sha256 send_otp c t phone purpose generated db).1
  issue-IsCapped t phone purpose generated {db} h k = record {
    valid = issue-IsValid T sha256 send_otp c t phone purpose generated k.valid;
    failures = λ phone' purpose' t' l.
        fails_go phone' purpose' t' l (issue_case T sha256 send_otp c t phone purpose generated db);
    requests = λ phone' purpose' t' l.
        asks_go phone' purpose' t' l (issue_case T sha256 send_otp c t phone purpose generated db);
  }
    where
      fails_go :
          (phone' : String) (purpose' : OtpPurpose) (t' : ℕ)
          → t.rate_check ≤ t'
          → {r : Result OtpIssueResult × T.Db}
          → IssueCase T sha256 send_otp c t phone purpose generated db r
          → fails T sha256 send_otp c t' phone' purpose' r.1 ≤ c.phone_max_failures_per_window
      fails_go phone' purpose' t' l (refused e) = k.failures phone' purpose' t' (omega arith)
      fails_go phone' purpose' t' l (issued result a b) =
          rw
            (failures-after_issue T sha256 send_otp c t' phone' purpose' t phone purpose generated
              db)
            (k.failures phone' purpose' t' (omega arith))

      asks_go :
          (phone' : String) (purpose' : OtpPurpose) (t' : ℕ)
          → t.rate_check ≤ t'
          → {r : Result OtpIssueResult × T.Db}
          → IssueCase T sha256 send_otp c t phone purpose generated db r
          → asks T sha256 send_otp c t' phone' purpose' r.1 ≤ c.max_issues_per_window
      asks_go phone' purpose' t' l (refused e) = k.requests phone' purpose' t' (omega arith)
      asks_go phone' user_login t' l (issued result a b) =
          let old = k.requests phone' user_login t' (omega arith) in
          let moved = requests_later t.rate_check t' phone phone' purpose user_login db l in
          let grown =
            requests-after_issue_le T sha256 send_otp c t' phone' user_login t phone purpose
              generated db in
          ground (arith, moved, eq_iff phone phone')

  verify-IsCapped :
      (t : VerifyTimes) (phone : String) (purpose : OtpPurpose) (code : String) {db : T.Db}
      → IsCapped t.lock_check db
      → IsCapped t.lock_check (verify T sha256 send_otp c t phone purpose code db).1
  verify-IsCapped t phone purpose code {db} k = record {
    valid = verify-IsValid T sha256 send_otp c t phone purpose code k.valid;
    failures = λ phone' purpose' t' l.
        fails_go phone' purpose' t' l (verify_case T sha256 send_otp c t phone purpose code db);
    requests = λ phone' purpose' t' l.
        asks_go phone' purpose' t' l (verify_case T sha256 send_otp c t phone purpose code db);
  }
    where
      fails_go :
          (phone' : String) (purpose' : OtpPurpose) (t' : ℕ)
          → t.lock_check ≤ t'
          → {r : Result (Unit {0}) × T.Db}
          → VerifyCase T sha256 send_otp c t phone purpose code db r
          → fails T sha256 send_otp c t' phone' purpose' r.1 ≤ c.phone_max_failures_per_window
      fails_go phone' purpose' t' l (phone_locked a) = k.failures phone' purpose' t' l
      fails_go phone' purpose' t' l (no_active_code a n) = k.failures phone' purpose' t' l
      fails_go phone' purpose' t' l (too_many_attempts otp a s m) =
          rw (failures-mark_consumed T sha256 send_otp c t' otp.id t.consumption phone' purpose' db)
            (k.failures phone' purpose' t' l)
      fails_go phone' purpose' t' l (accepted otp a s m e) =
          rw (failures-mark_consumed T sha256 send_otp c t' otp.id t.consumption phone' purpose' db)
            (k.failures phone' purpose' t' l)
      fails_go phone' purpose' t' l (invalid_code otp a s m e) =
          elim (Bool-cases
            (failed_since phone' purpose' (lock_window T sha256 send_otp c t') otp)) [
              | inl i ↦
                  (let e = same_phone t.lookup t' phone phone' purpose purpose' db otp s i in
                    let grown =
                      failures-increment_attempts T sha256 send_otp c t' otp.id phone' purpose'
                        k.valid in
                    let moved =
                      failures_later t.lock_check t' phone phone' purpose purpose' db l e in
                    ground (arith, grown, moved))
              | inr o ↦
                  rw
                    (failures-increment_other T sha256 send_otp c t.lookup t' phone phone' purpose
                      purpose' otp k.valid s o)
                    (k.failures phone' purpose' t' l)
            ]

      asks_go :
          (phone' : String) (purpose' : OtpPurpose) (t' : ℕ)
          → t.lock_check ≤ t'
          → {r : Result (Unit {0}) × T.Db}
          → VerifyCase T sha256 send_otp c t phone purpose code db r
          → asks T sha256 send_otp c t' phone' purpose' r.1 ≤ c.max_issues_per_window
      asks_go phone' purpose' t' l (phone_locked a) = k.requests phone' purpose' t' l
      asks_go phone' purpose' t' l (no_active_code a n) = k.requests phone' purpose' t' l
      asks_go phone' purpose' t' l (too_many_attempts otp a s m) =
          rw (requests-mark_consumed T sha256 send_otp c t' otp.id t.consumption phone' purpose' db)
            (k.requests phone' purpose' t' l)
      asks_go phone' purpose' t' l (accepted otp a s m e) =
          rw (requests-mark_consumed T sha256 send_otp c t' otp.id t.consumption phone' purpose' db)
            (k.requests phone' purpose' t' l)
      asks_go phone' purpose' t' l (invalid_code otp a s m e) =
          rw (requests-increment_attempts T sha256 send_otp c t' otp.id phone' purpose' db)
            (k.requests phone' purpose' t' l)

  step-IsCapped :
      (call : Call) {t : ℕ} {db : T.Db}
      → t ≤ begun call
      → begun call ≤ measured call
      → IsCapped t db
      → IsCapped (measured call) (step call db)
  unfolding step
  step-IsCapped (issue_call t phone purpose generated) h g k =
      issue-IsCapped t phone purpose generated g (IsCapped-later h k)
  step-IsCapped (verify_call t phone purpose code) h g k =
      verify-IsCapped t phone purpose code (IsCapped-later h k)
  step-IsCapped (prune_call now) {db = db} h g k = record {
    valid = prune_stale_otps-IsValid T sha256 send_otp c now k.valid;
    failures = λ phone purpose t' l.
        rw (failures-prune T sha256 send_otp c now t' phone purpose db l)
          (k.failures phone purpose t' (omega arith));
    requests = λ phone purpose t' l.
        rw (requests-prune T sha256 send_otp c now t' phone purpose db l)
          (k.requests phone purpose t' (omega arith));
  }

  -- Whatever calls arrive, in the order of time, from a table within the caps: afterwards no phone
  -- has, at any later instant, more failed attempts in its lock window than the configured cap,
  -- nor more issued codes in its issue window than the configured cap, and the table is valid.
  pub run-IsCapped :
      (calls : List Call) (t : ℕ) (db : T.Db)
      → InOrder t calls
      → IsCapped t db
      → IsCapped (last_measured t calls) (run calls db)
  unfolding run
  run-IsCapped [] t db o k = k
  run-IsCapped (call ∷ calls) t db (h, g, o) k =
      run-IsCapped calls (measured call) (step call db) o (step-IsCapped call h g k)
