-- ===== src/Otp/Service/Validity.antt =====
-- What the rows of src/modules/otps keep through every call of the service: their ids fall from
-- the head on, and a phone has one unconsumed code at most.
use nestjs_starter.Prelude.{
  ℕ, ◌≤◌, ◌∷◌, or_else, ◌≡◌, refl, String, Bool, true, arith, eq_iff, count_where, Descending,
}
use nestjs_starter.Exec.{Result}
use nestjs_starter.Database.{Table}
use nestjs_starter.Database.Rows.{count-update_zero, sum-update_le, sum-delete_le}
use nestjs_starter.Database.Keys.{Descending-update, Descending-delete}
use nestjs_starter.Otp.{
  OtpPurpose, user_login, OtpEntity, Since, unconsumed, consume, has_id, attempt, created_before,
  increment_attempts, mark_consumed, invalidate_active, delete_created_before,
}
use nestjs_starter.Otp.Service.{
  OtpConfig, Dispatch, OtpIssueResult, IssueTimes, VerifyTimes, new_otp, issue, verify,
  prune_stale_otps,
}
use nestjs_starter.Otp.Service.Cases.{
  IssueCase, refused, issued, issue_case, VerifyCase, phone_locked, no_active_code,
  too_many_attempts, invalid_code, accepted, verify_case,
}

module _ (T : Table OtpEntity) where
  pub record IsValid (db : T.Db) : Type 0 where
    pub ids : Descending (λ (otp : OtpEntity). otp.id) (T.next_id db) (T.rows db)
    pub single :
        (phone : String) (purpose : OtpPurpose)
        → count_where (unconsumed phone purpose) (T.rows db) ≤ 1

  -- An update that keeps the ids, and consumes codes if it changes them, keeps the table valid.
  update-IsValid :
      (p : OtpEntity → Bool) (g : OtpEntity → OtpEntity)
      → ((otp : OtpEntity) → (g otp).id ≡ otp.id)
      → ((phone : String) (purpose : OtpPurpose) (otp : OtpEntity)
          → unconsumed phone purpose (g otp) ≡ true
          → unconsumed phone purpose otp ≡ true)
      → {db : T.Db} → IsValid db
      → IsValid (T.update p g db)
  update-IsValid p g same w {db} v = record {
    ids =
        rw (T.next_id-update _ _ db, T.rows-update _ _ db) (Descending-update _ p g _ _ same v.ids);
    single = λ phone purpose. rw (T.rows-update _ _ db) (
        omega (
          arith,
          v.single phone purpose,
          sum-update_le p (unconsumed phone purpose) g (λ _. 1) (T.rows db) (w phone purpose)
              (λ x. omega arith),
        ));
  }

  pub mark_consumed-IsValid :
      (id at : ℕ) {db : T.Db} → IsValid db → IsValid (mark_consumed T id at db)
  unfolding mark_consumed
  mark_consumed-IsValid id at =
      update-IsValid (has_id id) (consume at) (λ otp. refl) (λ phone purpose otp h. ground arith)

  pub increment_attempts-IsValid :
      (id : ℕ) {db : T.Db} → IsValid db → IsValid (increment_attempts T id db)
  unfolding increment_attempts
  increment_attempts-IsValid id =
      update-IsValid (has_id id) attempt (λ otp. refl) (λ phone purpose otp h. h)

  pub invalidate_active-IsValid :
      (phone : String) (purpose : OtpPurpose) (at : ℕ) {db : T.Db}
      → IsValid db
      → IsValid (invalidate_active T phone purpose at db)
  unfolding invalidate_active
  invalidate_active-IsValid phone purpose at =
      update-IsValid (unconsumed phone purpose) (consume at) (λ otp. refl)
        (λ phone' purpose' otp h. ground arith)

  -- `invalidateActive` leaves the phone no unconsumed code.
  pub invalidate_active-none :
      (phone : String) (purpose : OtpPurpose) (at : ℕ) (db : T.Db)
      → count_where (unconsumed phone purpose) (T.rows (invalidate_active T phone purpose at db))
        ≡ 0
  unfolding invalidate_active
  invalidate_active-none phone purpose at db = rw (T.rows-update _ _ db) (
      count-update_zero (unconsumed phone purpose) (unconsumed phone purpose) (consume at)
        (T.rows db) (λ x h. h) (λ x. ground arith))

  pub delete_created_before-IsValid :
      (cutoff : Since) {db : T.Db} → IsValid db → IsValid (delete_created_before T cutoff db)
  unfolding delete_created_before
  delete_created_before-IsValid cutoff {db} v = record {
    ids = rw (T.next_id-delete _ db, T.rows-delete _ db) (Descending-delete _ _ _ _ v.ids);
    single = λ phone purpose. rw (T.rows-delete _ db) (
        omega (
          arith,
          v.single phone purpose,
          sum-delete_le (unconsumed phone purpose) (created_before cutoff) (λ _. 1) (T.rows db),
        ));
  }

  -- A new row may be inserted once its phone has no unconsumed code.
  insert-IsValid :
      (f : ℕ → OtpEntity) {db : T.Db}
      → ((id : ℕ) → (f id).id ≡ id)
      → count_where (unconsumed (f (T.next_id db)).phone (f (T.next_id db)).purpose) (T.rows db) ≡ 0
      → IsValid db
      → IsValid (T.insert f db)
  insert-IsValid f {db} own none_left v = record {
    ids =
        rw (T.rows-insert f db)
          (rw (own (T.next_id db)) (T.next_id-insert f db), rw (own (T.next_id db)) v.ids);
    single = λ phone purpose. rw (T.rows-insert f db) (fits phone purpose);
  }
    where
      fits :
          (phone : String) (purpose : OtpPurpose)
          → count_where (unconsumed phone purpose) (f (T.next_id db) ∷ T.rows db) ≤ 1
      fits phone user_login =
          ground (arith, v.single phone user_login, eq_iff (f (T.next_id db)).phone phone)

module _ (T : Table OtpEntity) (sha256 : String → String) (send_otp : String → String → Dispatch)
    (c : OtpConfig) where
  -- Every issue, refused or not, keeps the table valid.
  pub issue-IsValid :
      (t : IssueTimes) (phone : String) (purpose : OtpPurpose) (generated : String) {db : T.Db}
      → IsValid T db
      → IsValid T (issue T sha256 send_otp c t phone purpose generated db).1
  issue-IsValid t phone purpose generated {db} v =
      go (issue_case T sha256 send_otp c t phone purpose generated db)
    where
      go :
          {r : Result OtpIssueResult × T.Db}
          → IssueCase T sha256 send_otp c t phone purpose generated db r
          → IsValid T r.1
      go (refused e) = v
      go (issued result l f) =
          insert-IsValid T
            (new_otp T sha256 send_otp c t phone purpose (or_else c.fixed_code generated))
            (λ id. unfold new_otp in refl)
            (unfold new_otp in invalidate_active-none T phone purpose t.invalidation db)
            (invalidate_active-IsValid T phone purpose t.invalidation v)

  -- Every verification, on each of its branches, keeps the table valid.
  pub verify-IsValid :
      (t : VerifyTimes) (phone : String) (purpose : OtpPurpose) (code : String) {db : T.Db}
      → IsValid T db
      → IsValid T (verify T sha256 send_otp c t phone purpose code db).1
  verify-IsValid t phone purpose code {db} v =
      go (verify_case T sha256 send_otp c t phone purpose code db)
    where
      go :
          {r : Result (Unit {0}) × T.Db}
          → VerifyCase T sha256 send_otp c t phone purpose code db r
          → IsValid T r.1
      go (phone_locked l) = v
      go (no_active_code l n) = v
      go (too_many_attempts otp l s m) = mark_consumed-IsValid T otp.id t.consumption v
      go (invalid_code otp l s m h) = increment_attempts-IsValid T otp.id v
      go (accepted otp l s m h) = mark_consumed-IsValid T otp.id t.consumption v

  -- The nightly pruning keeps the table valid.
  pub prune_stale_otps-IsValid :
      (now : ℕ) {db : T.Db} → IsValid T db → IsValid T (prune_stale_otps T sha256 send_otp c now db)
  unfolding prune_stale_otps
  prune_stale_otps-IsValid now = delete_created_before-IsValid T _
