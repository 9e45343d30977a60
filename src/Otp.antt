-- ===== src/Otp.antt =====
-- One-time codes: src/modules/otps/entities/otp.entity.ts and repositories/otp.repository.ts.
-- Instants are milliseconds since the epoch. A repository method reads or changes the rows of the
-- table; the service is the child `Service`.
pub mod Service
use nestjs_starter.Prelude.{
  ℕ, ◌+◌, String, str_eq, Bool, true, false, ◌&&◌, Option, none, some, List, ltb, leb, ◌==◌,
  is_none, find, count_where, sum_where, if◌then◌else◌,
}
use nestjs_starter.Database.{Table}

pub data OtpPurpose : Type 0 where
  user_login : OtpPurpose

abbrev pub purpose_eq : OtpPurpose → OtpPurpose → Bool
purpose_eq user_login user_login = true

pub record OtpEntity : Type 0 where
  pub id : ℕ
  pub phone : String
  pub code_hash : String
  pub purpose : OtpPurpose
  pub expires_at : ℕ
  pub attempts : ℕ
  pub consumed_at : Option ℕ
  pub created_at : ℕ

-- `new Date(now - back)`, which may lie before the epoch
pub record Since : Type 0 where
  pub now : ℕ
  pub back : ℕ

-- `date > since` and `date >= since`
abbrev pub after : ℕ → Since → Bool
after date since = ltb since.now (date + since.back)

abbrev pub not_before : ℕ → Since → Bool
not_before date since = leb since.now (date + since.back)

-- `where: { phone, purpose }`
abbrev pub for_phone : String → OtpPurpose → OtpEntity → Bool
for_phone phone purpose otp = str_eq otp.phone phone && purpose_eq otp.purpose purpose

-- `where: { phone, purpose, consumedAt: IsNull() }`
abbrev pub unconsumed : String → OtpPurpose → OtpEntity → Bool
unconsumed phone purpose otp = for_phone phone purpose otp && is_none otp.consumed_at

abbrev pub active : String → OtpPurpose → ℕ → OtpEntity → Bool
active phone purpose now otp = unconsumed phone purpose otp && ltb now otp.expires_at

abbrev pub failed_since : String → OtpPurpose → Since → OtpEntity → Bool
failed_since phone purpose since otp =
    for_phone phone purpose otp && not_before otp.created_at since

abbrev pub requested_since : String → OtpPurpose → Since → OtpEntity → Bool
requested_since phone purpose since otp = for_phone phone purpose otp && after otp.created_at since

-- `created_at < :cutoff`
abbrev pub created_before : Since → OtpEntity → Bool
created_before cutoff otp = ltb (otp.created_at + cutoff.back) cutoff.now

abbrev pub consume : ℕ → OtpEntity → OtpEntity
consume at otp = record otp { consumed_at = some at }

abbrev pub attempt : OtpEntity → OtpEntity
attempt otp = record otp { attempts = otp.attempts + 1 }

abbrev pub has_id : ℕ → OtpEntity → Bool
has_id id otp = otp.id == id

module _ (T : Table OtpEntity) where
  pub find_active_by_phone_and_purpose : String → OtpPurpose → ℕ → T.Db → Option OtpEntity
  find_active_by_phone_and_purpose phone purpose now db =
      find (active phone purpose now) (T.rows db)

  pub find_latest_by_phone_and_purpose : String → OtpPurpose → T.Db → Option OtpEntity
  find_latest_by_phone_and_purpose phone purpose db = find (for_phone phone purpose) (T.rows db)

  pub increment_attempts : ℕ → T.Db → T.Db
  increment_attempts id = T.update (has_id id) attempt

  pub mark_consumed : ℕ → ℕ → T.Db → T.Db
  mark_consumed id at = T.update (has_id id) (consume at)

  pub invalidate_active : String → OtpPurpose → ℕ → T.Db → T.Db
  invalidate_active phone purpose now = T.update (unconsumed phone purpose) (consume now)

  pub count_requests_since : String → OtpPurpose → Since → T.Db → ℕ
  count_requests_since phone purpose since db =
      count_where (requested_since phone purpose since) (T.rows db)

  pub delete_created_before : Since → T.Db → T.Db
  delete_created_before cutoff = T.delete (created_before cutoff)

  pub sum_failed_attempts_since : String → OtpPurpose → Since → T.Db → ℕ
  sum_failed_attempts_since phone purpose since db =
      sum_where (failed_since phone purpose since) (λ otp. otp.attempts) (T.rows db)
