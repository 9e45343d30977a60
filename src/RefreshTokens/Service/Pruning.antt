-- ===== src/RefreshTokens/Service/Pruning.antt =====
-- What the nightly `pruneExpiredTokens` of
-- src/modules/refresh-tokens/services/refresh-token.service.ts forgets.
use nestjs_starter.Prelude.{
  ℕ, ◌<◌, ◌≡◌, ◌≢◌, String, str_eq, true, some, none, count_where, lt→ltb, Bool-cases, inl, inr,
}
use nestjs_starter.Exec.{throw}
use nestjs_starter.Database.{Table}
use nestjs_starter.Database.Rows.{find-delete_none}
use nestjs_starter.RefreshTokens.{
  RefreshTokenEntity, has_hash, expired_before, find_by_token, delete_expired_before,
}
use nestjs_starter.RefreshTokens.Service.{
  RotateTimes, invalid, lookup, check, rotate, prune_expired_tokens,
}
use nestjs_starter.RefreshTokens.Service.Cases.{reused, rotate_theft}
use nestjs_starter.RefreshTokens.Service.Sessions.{live, live-revoke_all_rows}

module _ (T : Table RefreshTokenEntity) (sha256 : String → String) (ttl_seconds : ℕ) where
  rotate_missing :
      (t : RotateTimes) (presented new_token : String) (db : T.Db)
      → find_by_token T sha256 presented db ≡ none
      → rotate T sha256 ttl_seconds t presented new_token db ≡ (throw invalid, db)
  unfolding rotate check lookup
  rotate_missing t presented new_token db e = elim (Bool-cases (str_eq presented "")) [
    | inl s ↦ rw s
    | inr s ↦ rw (s, e)
  ]

  pruned :
      (now : ℕ) (presented : String) (db : T.Db) (row : RefreshTokenEntity)
      → count_where (has_hash (sha256 presented)) (T.rows db) ≡ 1
      → find_by_token T sha256 presented db ≡ some row
      → row.expires_at < now
      → find_by_token T sha256 presented (prune_expired_tokens T sha256 ttl_seconds now db) ≡ none
  unfolding find_by_token prune_expired_tokens delete_expired_before
  pruned now presented db row one found old = rw (T.rows-delete _ db) (
      find-delete_none (has_hash (sha256 presented)) (expired_before now) (T.rows db) row one found
        (lt→ltb row.expires_at now old))

  -- Pruning forgets reuse. Take a token that was rotated and has expired by the pruning, and whose
  -- hash one row has. Presented before the pruning it is refused and every session of its account is
  -- revoked; presented after the pruning it is refused and no row changes, so that a live session
  -- stays live.
  pub prune_forgets_reuse :
      (now : ℕ) (t : RotateTimes) (presented new_token : String) (db : T.Db)
      (row : RefreshTokenEntity)
      → presented ≢ ""
      → count_where (has_hash (sha256 presented)) (T.rows db) ≡ 1
      → find_by_token T sha256 presented db ≡ some row
      → reused row ≡ true
      → row.expires_at < now
      → (live T sha256 ttl_seconds row.user_id row.role
            (rotate T sha256 ttl_seconds t presented new_token db).1
          ≡ 0)
        × (rotate T sha256 ttl_seconds t presented new_token
              (prune_expired_tokens T sha256 ttl_seconds now db)
            ≡ (throw invalid, prune_expired_tokens T sha256 ttl_seconds now db))
  prune_forgets_reuse now t presented new_token db row given one found again old = (
    rw (rotate_theft T sha256 ttl_seconds t presented new_token db row given found again)
        (live-revoke_all_rows T sha256 ttl_seconds row.user_id row.role t.reuse_revocation db),
    rotate_missing t presented new_token _ (pruned now presented db row one found old),
  )
