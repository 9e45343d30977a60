-- ===== src/Otp/Service/Codes.antt =====
-- Which codes `verify` of src/modules/otps/services/otp.service.ts accepts.
use nestjs_starter.Prelude.{
  ℕ, ◌+◌, ◌*◌, ◌≤◌, ◌<◌, ◌≡◌, ◌↔◌, refl, String, true, some, or_else, arith, eq_iff, eq_refl,
  ==_refl,
}
use nestjs_starter.Exec.{Result, ok}
use nestjs_starter.Database.{Table}
use nestjs_starter.Otp.{
  OtpPurpose, user_login, OtpEntity, invalidate_active, find_active_by_phone_and_purpose,
}
use nestjs_starter.Otp.Service.{
  OtpConfig, Dispatch, OtpIssueResult, IssueTimes, VerifyTimes, hashes_equal, new_otp, issue,
  verify,
}
use nestjs_starter.Otp.Service.Cases.{
  IssueCase, refused, issued, issue_case, VerifyCase, phone_locked, no_active_code,
  too_many_attempts, invalid_code, accepted, verify_case, after_issue, failures,
}
use nestjs_starter.Otp.Service.Caps.{failures_mono, failures-after_issue}

hashes_equal_iff : (a b : String) → (hashes_equal a b ≡ true) ↔ (a ≡ b)
unfolding hashes_equal
hashes_equal_iff a b = (λ h. ground (arith, eq_iff a b), λ e. rw (e, ==_refl, eq_refl))

module _ (T : Table OtpEntity) (sha256 : String → String) (send_otp : String → String → Dispatch)
    (c : OtpConfig) where
  -- What a code must meet to be accepted.
  pub record Accepts (t : VerifyTimes) (phone : String) (purpose : OtpPurpose) (code : String)
      (db : T.Db) : Type 0 where
    pub unlocked :
        failures T sha256 send_otp c t.lock_check phone purpose db < c.phone_max_failures_per_window
    pub otp : OtpEntity
    pub found : find_active_by_phone_and_purpose T phone purpose t.lookup db ≡ some otp
    pub tries_left : otp.attempts < c.max_verify_attempts
    pub matches : sha256 code ≡ otp.code_hash

  module _ (t : VerifyTimes) (phone : String) (purpose : OtpPurpose) (code : String)
      (db : T.Db) where
    Accepts-of_case :
        {r : Result (Unit {0}) × T.Db}
        → VerifyCase T sha256 send_otp c t phone purpose code db r
        → r.0 ≡ ok tt
        → Accepts t phone purpose code db
    Accepts-of_case (phone_locked l) e = absurd (cc)
    Accepts-of_case (no_active_code l n) e = absurd (cc)
    Accepts-of_case (too_many_attempts otp l s m) e = absurd (cc)
    Accepts-of_case (invalid_code otp l s m h) e = absurd (cc)
    Accepts-of_case (accepted otp l s m h) e = record {
      unlocked = ground arith;
      otp = otp;
      found = s;
      tries_left = ground arith;
      matches = (hashes_equal_iff _ _).0 h;
    }

    case_of_Accepts :
        {r : Result (Unit {0}) × T.Db}
        → VerifyCase T sha256 send_otp c t phone purpose code db r
        → Accepts t phone purpose code db
        → r.0 ≡ ok tt
    case_of_Accepts (phone_locked l) a = absurd (ground (arith, a.unlocked))
    case_of_Accepts (no_active_code l n) a = absurd (ground (arith, a.found))
    case_of_Accepts (too_many_attempts otp l s m) a = absurd (ground (arith, a.found, a.tries_left))
    case_of_Accepts (invalid_code otp l s m h) a =
        absurd (ground (arith, a.found, a.matches, hashes_equal_iff (sha256 code) otp.code_hash))
    case_of_Accepts (accepted otp l s m h) a = refl

    -- A code is accepted exactly when the phone has fewer failed attempts in its lock window than
    -- the cap, has an active code with attempts left, and the hashes agree.
    pub verify_iff :
        ((verify T sha256 send_otp c t phone purpose code db).0 ≡ ok tt)
        ↔ Accepts t phone purpose code db
    verify_iff = (
      Accepts-of_case (verify_case T sha256 send_otp c t phone purpose code db),
      case_of_Accepts (verify_case T sha256 send_otp c t phone purpose code db),
    )

  -- What verification finds after an issue is the new code.
  issued-found :
      (t : IssueTimes) (now : ℕ) (phone : String) (purpose : OtpPurpose) (code : String) (db : T.Db)
      → now < t.expiry + c.ttl_seconds * 1000
      → find_active_by_phone_and_purpose T phone purpose now
          (after_issue T sha256 send_otp c t phone purpose code db)
        ≡ some (
            new_otp T sha256 send_otp c t phone purpose
              (or_else c.fixed_code code)
              (T.next_id (invalidate_active T phone purpose t.invalidation db)))
  unfolding find_active_by_phone_and_purpose new_otp
  issued-found t now phone user_login code db h =
      rw (T.rows-insert _ _) (ground (arith, eq_iff phone phone))

  -- After a code was issued, and before it expires, a code is accepted exactly when its hash is
  -- that of the issued one. So the issued code is accepted, and every earlier code is dead.
  pub issue-verify_iff :
      (t : IssueTimes) (t' : VerifyTimes) (phone : String) (purpose : OtpPurpose)
      (generated code : String) (db : T.Db) (result : OtpIssueResult)
      → (issue T sha256 send_otp c t phone purpose generated db).0 ≡ ok result
      → t.lock_check ≤ t'.lock_check
      → t'.lookup < t.expiry + c.ttl_seconds * 1000
      → 0 < c.max_verify_attempts
      → ((verify T sha256 send_otp c t' phone purpose code
            (issue T sha256 send_otp c t phone purpose generated db).1).0
          ≡ ok tt)
        ↔ (sha256 code ≡ sha256 (or_else c.fixed_code generated))
  issue-verify_iff t t' phone purpose generated code db result e later alive tries =
      go (issue_case T sha256 send_otp c t phone purpose generated db) e
    where
      go :
          {r : Result OtpIssueResult × T.Db}
          → IssueCase T sha256 send_otp c t phone purpose generated db r
          → r.0 ≡ ok result
          → ((verify T sha256 send_otp c t' phone purpose code r.1).0 ≡ ok tt)
            ↔ (sha256 code ≡ sha256 (or_else c.fixed_code generated))
      go (refused x) e = absurd (cc)
      go (issued x l f) e =
          let found = issued-found t t'.lookup phone purpose generated db alive in
          let kept =
            failures-after_issue T sha256 send_otp c t'.lock_check phone purpose t phone purpose
              generated db in
          let moved =
            failures_mono T sha256 send_otp c t.lock_check t'.lock_check phone purpose db later in
          (
            λ h.
                let a = (verify_iff t' phone purpose code _).0 h in
                unfold new_otp in cc (a.found, found, a.matches),
            λ h. (verify_iff t' phone purpose code _).1 (record {
              unlocked = ground (arith, kept, moved);
              otp = _;
              found = found;
              tries_left = unfold new_otp in tries;
              matches = unfold new_otp in h;
            }),
          )
