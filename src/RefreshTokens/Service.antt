-- ===== src/RefreshTokens/Service.antt =====
-- src/modules/refresh-tokens/services/refresh-token.service.ts. The table, SHA-256 and the random
-- tokens are parameters; each reading of the clock is a field of a method's record of times.
mod Cases
pub mod Sessions
pub mod Replays
pub mod Races
pub mod Revocation
pub mod Continuity
pub mod Pruning
pub mod Samples
mod Tests
use nestjs_starter.Prelude.{
  ℕ, ◌+◌, ◌*◌, String, str_eq, Bool, true, false, ◌&&◌, ◌||◌, Option, none, some, leb, ◌==◌,
  is_none, is_some, count_where, if◌then◌else◌,
}
use nestjs_starter.Exec.{
  Result, ok, throw, Exec, HttpException, unauthorized, tr, pure, raise, gets, modify, throw_if,
  or_throw, ◌>>=◌, ◌>>◌,
}
use nestjs_starter.Database.{Table}
use nestjs_starter.Domain.{Role}
use nestjs_starter.RefreshTokens.{
  RefreshTokenEntity, has_id, find_by_token, revoke_row, revoke_all_rows, delete_expired_before,
}

pub record RefreshTokenIssueResult : Type 0 where
  pub token : String
  pub expires_at : ℕ

pub record RefreshTokenRotateResult : Type 0 where
  pub token : String
  pub expires_at : ℕ
  pub user_id : ℕ
  pub role : Role

pub record RotateTimes : Type 0 where
  pub reuse_revocation : ℕ
  pub expiry_check : ℕ
  pub expiry : ℕ
  pub revocation : ℕ
  -- the database's default of `created_at`
  pub insertion : ℕ

abbrev pub invalid : HttpException
invalid = unauthorized (tr "auth.errors.invalid_token")

-- `{ id: row.id, revokedAt: IsNull() }`
abbrev pub still_active : ℕ → RefreshTokenEntity → Bool
still_active id row = has_id id row && is_none row.revoked_at

-- `{ revokedAt: now, replacedById: saved.id, lastUsedAt: now }`
abbrev pub replaced : ℕ → ℕ → RefreshTokenEntity → RefreshTokenEntity
replaced by now row = record row {
  revoked_at = some now;
  last_used_at = some now;
  replaced_by_id = some by;
}

module _ (T : Table RefreshTokenEntity) (sha256 : String → String) (ttl_seconds : ℕ) where
  pub new_row : String → ℕ → Role → ℕ → ℕ → ℕ → RefreshTokenEntity
  new_row token user_id role expires_at created_at id = record {
    id = id;
    token_hash = sha256 token;
    user_id = user_id;
    role = role;
    expires_at = expires_at;
    revoked_at = none;
    last_used_at = none;
    replaced_by_id = none;
    created_at = created_at;
  }

  -- `now` is read for the expiry, `created_at` by the database
  pub issue : ℕ → ℕ → String → ℕ → Role → Exec T.Db RefreshTokenIssueResult
  issue now created_at token user_id role = do
    modify (T.insert (new_row token user_id role (now + ttl_seconds * 1000) created_at))
    pure (record { token = token; expires_at = now + ttl_seconds * 1000 })

  pub lookup : String → Exec T.Db RefreshTokenEntity
  lookup presented_token = do
    throw_if (str_eq presented_token "") invalid
    found ← gets (find_by_token T sha256 presented_token)
    or_throw found invalid

  -- `rotate` up to its transaction: the lookup and the checks of the row that was read
  pub check : RotateTimes → String → Exec T.Db RefreshTokenEntity
  check t presented_token = do
    row ← lookup presented_token
    if is_some row.revoked_at && is_some row.replaced_by_id
        then (do
          modify (revoke_all_rows T sha256 row.user_id row.role t.reuse_revocation)
          raise invalid)
        else (do
          throw_if (is_some row.revoked_at || leb row.expires_at t.expiry_check) invalid
          pure row)

  abbrev inserted : RotateTimes → RefreshTokenEntity → String → T.Db → T.Db
  inserted t row new_token =
      T.insert (new_row new_token row.user_id row.role (t.expiry + ttl_seconds * 1000) t.insertion)

  -- the transaction: insert the new row, replace the old one if it is still active, else roll back
  pub exchange : RotateTimes → RefreshTokenEntity → String → Exec T.Db (Unit {0})
  exchange t row new_token db =
      if count_where (still_active row.id) (T.rows (inserted t row new_token db)) == 1
      then (
        ok tt,
        T.update (still_active row.id) (replaced (T.next_id db) t.revocation)
            (inserted t row new_token db),
      )
      else (throw invalid, T.rollback db (inserted t row new_token db))

  pub rotate : RotateTimes → String → String → Exec T.Db RefreshTokenRotateResult
  rotate t presented_token new_token = do
    row ← check t presented_token
    exchange t row new_token
    pure (record {
      token = new_token;
      expires_at = t.expiry + ttl_seconds * 1000;
      user_id = row.user_id;
      role = row.role;
    })

  -- `revoke`, on the row that was found
  abbrev revoke_found : ℕ → Option RefreshTokenEntity → T.Db → T.Db
  revoke_found now none db = db
  revoke_found now (some row) db =
      if is_some row.revoked_at then db else revoke_row T sha256 row.id now db

  pub revoke : ℕ → String → T.Db → T.Db
  revoke now presented_token db = revoke_found now (find_by_token T sha256 presented_token db) db

  pub revoke_all_for_user : ℕ → ℕ → Role → T.Db → T.Db
  revoke_all_for_user now user_id role = revoke_all_rows T sha256 user_id role now

  pub prune_expired_tokens : ℕ → T.Db → T.Db
  prune_expired_tokens now = delete_expired_before T sha256 now
