-- ===== src/Otp/Service/Once.antt =====
-- A code that `verify` of src/modules/otps/services/otp.service.ts accepted is spent, whatever calls
-- follow.
use nestjs_starter.Prelude.{
  ℕ, ◌≡◌, ◌≢◌, String, Bool, true, Option, none, some, All, List, [], ◌∷◌, count_where, arith,
  eq_iff, ==_refl,
}
use nestjs_starter.Exec.{Result, ok}
use nestjs_starter.Database.{Table}
use nestjs_starter.Database.Rows.{
  find_sound, find-none_of_count, count-update_lt, sum-update_le, sum-delete_le,
}
use nestjs_starter.Otp.{
  OtpPurpose, OtpEntity, active, unconsumed, consume, attempt, has_id, created_before,
  mark_consumed, increment_attempts, invalidate_active, delete_created_before,
  find_active_by_phone_and_purpose,
}
use nestjs_starter.Otp.Service.{
  OtpConfig, Dispatch, OtpIssueResult, IssueTimes, VerifyTimes, new_otp, issue, verify,
  prune_stale_otps,
}
use nestjs_starter.Otp.Service.Cases.{
  IssueCase, refused, issued, issue_case, VerifyCase, phone_locked, no_active_code,
  too_many_attempts, invalid_code, accepted, verify_case, after_issue,
}
use nestjs_starter.Otp.Service.Validity.{IsValid}
use nestjs_starter.Otp.Service.Codes.{verify_iff}
use nestjs_starter.Otp.Service.Runs.{Call, issue_call, verify_call, prune_call, step, run}

-- the phone that a call requests a code for
abbrev pub requests_for : Call → Option String
requests_for (issue_call t phone purpose generated) = some phone
requests_for (verify_call t phone purpose code) = none
requests_for (prune_call now) = none

module _ (T : Table OtpEntity) (sha256 : String → String) (send_otp : String → String → Dispatch)
    (c : OtpConfig) (phone : String) (purpose : OtpPurpose) where
  -- the phone has no code that could be accepted, at any instant
  abbrev IsSpent : T.Db → Type 0
  IsSpent db = count_where (unconsumed phone purpose) (T.rows db) ≡ 0

  update-IsSpent :
      (p : OtpEntity → Bool) (g : OtpEntity → OtpEntity) (db : T.Db)
      → ((x : OtpEntity)
          → unconsumed phone purpose (g x) ≡ true
          → unconsumed phone purpose x ≡ true)
      → IsSpent db
      → IsSpent (T.update p g db)
  update-IsSpent p g db w spent =
      let fewer =
        sum-update_le p (unconsumed phone purpose) g (λ _. 1) (T.rows db) w (λ x. omega arith) in
      rw (T.rows-update p g db) (omega (arith, fewer, spent))

  mark_consumed-IsSpent : (id at : ℕ) (db : T.Db) → IsSpent db → IsSpent (mark_consumed T id at db)
  unfolding mark_consumed
  mark_consumed-IsSpent id at db =
      update-IsSpent (has_id id) (consume at) db (λ x h. absurd (ground arith))

  increment_attempts-IsSpent :
      (id : ℕ) (db : T.Db) → IsSpent db → IsSpent (increment_attempts T id db)
  unfolding increment_attempts
  increment_attempts-IsSpent id db = update-IsSpent (has_id id) attempt db (λ x h. h)

  verify-IsSpent :
      (t : VerifyTimes) (phone' : String) (purpose' : OtpPurpose) (code : String) (db : T.Db)
      → IsSpent db
      → IsSpent (verify T sha256 send_otp c t phone' purpose' code db).1
  verify-IsSpent t phone' purpose' code db spent =
      go (verify_case T sha256 send_otp c t phone' purpose' code db)
    where
      go :
          {r : Result (Unit {0}) × T.Db}
          → VerifyCase T sha256 send_otp c t phone' purpose' code db r
          → IsSpent r.1
      go (phone_locked l) = spent
      go (no_active_code l n) = spent
      go (too_many_attempts otp l s m) = mark_consumed-IsSpent otp.id t.consumption db spent
      go (invalid_code otp l s m h) = increment_attempts-IsSpent otp.id db spent
      go (accepted otp l s m h) = mark_consumed-IsSpent otp.id t.consumption db spent

  after_issue-IsSpent :
      (t : IssueTimes) (phone' : String) (purpose' : OtpPurpose) (generated : String) (db : T.Db)
      → phone' ≢ phone
      → IsSpent db
      → IsSpent (after_issue T sha256 send_otp c t phone' purpose' generated db)
  unfolding invalidate_active new_otp
  after_issue-IsSpent t phone' purpose' generated db other spent =
      let kept =
        update-IsSpent (unconsumed phone' purpose') (consume t.invalidation) db
          (λ x h. absurd (ground arith)) spent in
      rw (T.rows-insert _ _) (ground (arith, kept, eq_iff phone' phone, other))

  issue-IsSpent :
      (t : IssueTimes) (phone' : String) (purpose' : OtpPurpose) (generated : String) (db : T.Db)
      → phone' ≢ phone
      → IsSpent db
      → IsSpent (issue T sha256 send_otp c t phone' purpose' generated db).1
  issue-IsSpent t phone' purpose' generated db other spent =
      go (issue_case T sha256 send_otp c t phone' purpose' generated db)
    where
      go :
          {r : Result OtpIssueResult × T.Db}
          → IssueCase T sha256 send_otp c t phone' purpose' generated db r
          → IsSpent r.1
      go (refused e) = spent
      go (issued result l f) = after_issue-IsSpent t phone' purpose' generated db other spent

  delete-IsSpent : (p : OtpEntity → Bool) (db : T.Db) → IsSpent db → IsSpent (T.delete p db)
  delete-IsSpent p db spent =
      let fewer = sum-delete_le (unconsumed phone purpose) p (λ _. 1) (T.rows db) in
      rw (T.rows-delete p db) (omega (arith, fewer, spent))

  step-IsSpent :
      (call : Call) (db : T.Db)
      → requests_for call ≢ some phone
      → IsSpent db
      → IsSpent (step T sha256 send_otp c call db)
  unfolding step prune_stale_otps delete_created_before
  step-IsSpent (issue_call t phone' purpose' generated) db other spent =
      issue-IsSpent t phone' purpose' generated db (λ e. other (cc e)) spent
  step-IsSpent (verify_call t phone' purpose' code) db other spent =
      verify-IsSpent t phone' purpose' code db spent
  step-IsSpent (prune_call now) db other spent = delete-IsSpent (created_before _) db spent

  run-IsSpent :
      (calls : List Call) (db : T.Db)
      → All (λ call. requests_for call ≢ some phone) calls
      → IsSpent db
      → IsSpent (run T sha256 send_otp c calls db)
  unfolding run
  run-IsSpent [] db others spent = spent
  run-IsSpent (call ∷ calls) db (other, others) spent =
      run-IsSpent calls (step T sha256 send_otp c call db) others (step-IsSpent call db other spent)

  -- Consuming the code that was found leaves the phone none.
  consumed-IsSpent :
      (t at : ℕ) (db : T.Db) (otp : OtpEntity)
      → IsValid T db
      → find_active_by_phone_and_purpose T phone purpose t db ≡ some otp
      → IsSpent (mark_consumed T otp.id at db)
  unfolding find_active_by_phone_and_purpose mark_consumed
  consumed-IsSpent t at db otp v s = rw (T.rows-update _ _ db) (
      omega (
        arith,
        v.single phone purpose,
        count-update_lt (active phone purpose t) (has_id otp.id) (unconsumed phone purpose)
            (consume at) (T.rows db) otp s (==_refl otp.id)
            (let h = find_sound (active phone purpose t) (T.rows db) s in ground arith)
            (λ x. ground arith),
      ))

  accepted-IsSpent :
      (t : VerifyTimes) (code : String) (db : T.Db)
      → IsValid T db
      → (verify T sha256 send_otp c t phone purpose code db).0 ≡ ok tt
      → IsSpent (verify T sha256 send_otp c t phone purpose code db).1
  accepted-IsSpent t code db v e = go (verify_case T sha256 send_otp c t phone purpose code db) e
    where
      go :
          {r : Result (Unit {0}) × T.Db}
          → VerifyCase T sha256 send_otp c t phone purpose code db r
          → r.0 ≡ ok tt
          → IsSpent r.1
      go (phone_locked l) e = absurd (cc)
      go (no_active_code l n) e = absurd (cc)
      go (too_many_attempts otp l s m) e = absurd (cc)
      go (invalid_code otp l s m h) e = absurd (cc)
      go (accepted otp l s m h) e = consumed-IsSpent t.lookup t.consumption db otp v s

  spent-none :
      (now : ℕ) (db : T.Db)
      → IsSpent db
      → find_active_by_phone_and_purpose T phone purpose now db ≡ none
  unfolding find_active_by_phone_and_purpose
  spent-none now db spent =
      find-none_of_count (active phone purpose now) (unconsumed phone purpose) (T.rows db)
        (λ x h. ground arith) spent

  -- A code is accepted once: after an accepted verification, and any calls of the service that
  -- request no code for that phone (verifications, prunings, requests for other phones), no code of
  -- that phone is accepted, at any instant.
  pub verify_once :
      (t t' : VerifyTimes) (code code' : String) (db : T.Db) (calls : List Call)
      → IsValid T db
      → (verify T sha256 send_otp c t phone purpose code db).0 ≡ ok tt
      → All (λ call. requests_for call ≢ some phone) calls
      → (verify T sha256 send_otp c t' phone purpose code'
          (run T sha256 send_otp c calls (verify T sha256 send_otp c t phone purpose code db).1)).0
        ≢ ok tt
  verify_once t t' code code' db calls v e others = λ again.
      let spent = run-IsSpent calls _ others (accepted-IsSpent t code db v e) in
      let a = (verify_iff T sha256 send_otp c t' phone purpose code' _).0 again in
      absurd (cc (a.found, spent-none t'.lookup _ spent))
