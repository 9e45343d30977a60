-- ===== src/RefreshTokens.antt =====
-- Refresh tokens: src/modules/refresh-tokens/entities/refresh-token.entity.ts and
-- repositories/refresh-token.repository.ts. SHA-256 is a parameter; the service is the child
-- `Service`. The unique index on the hash is not modelled: tokens are random, and a theorem that
-- needs a fresh one says so.
pub mod Service
use nestjs_starter.Prelude.{ℕ, String, str_eq, Bool, ◌&&◌, Option, some, ltb, ◌==◌, is_none, find}
use nestjs_starter.Database.{Table}
use nestjs_starter.Domain.{Role, role_eq}

pub record RefreshTokenEntity : Type 0 where
  pub id : ℕ
  pub token_hash : String
  pub user_id : ℕ
  pub role : Role
  pub expires_at : ℕ
  pub revoked_at : Option ℕ
  pub last_used_at : Option ℕ
  pub replaced_by_id : Option ℕ
  pub created_at : ℕ

abbrev pub has_hash : String → RefreshTokenEntity → Bool
has_hash hash row = str_eq row.token_hash hash

abbrev pub has_id : ℕ → RefreshTokenEntity → Bool
has_id id row = row.id == id

-- `where: { userId, role, revokedAt: IsNull() }`
abbrev pub live_of : ℕ → Role → RefreshTokenEntity → Bool
live_of user_id role row = row.user_id == user_id && role_eq row.role role && is_none row.revoked_at

abbrev pub revoked : ℕ → RefreshTokenEntity → RefreshTokenEntity
revoked at row = record row { revoked_at = some at }

abbrev pub expired_before : ℕ → RefreshTokenEntity → Bool
expired_before now row = ltb row.expires_at now

module _ (T : Table RefreshTokenEntity) (sha256 : String → String) where
  pub find_by_token : String → T.Db → Option RefreshTokenEntity
  find_by_token plain_token db = find (has_hash (sha256 plain_token)) (T.rows db)

  pub revoke_row : ℕ → ℕ → T.Db → T.Db
  revoke_row id at = T.update (has_id id) (revoked at)

  pub revoke_all_rows : ℕ → Role → ℕ → T.Db → T.Db
  revoke_all_rows user_id role at = T.update (live_of user_id role) (revoked at)

  pub delete_expired_before : ℕ → T.Db → T.Db
  delete_expired_before now = T.delete (expired_before now)
