-- ===== src/RefreshTokens/Service/Sessions.antt =====
-- What a rotation does to sessions: src/modules/refresh-tokens/services/refresh-token.service.ts.
use nestjs_starter.Prelude.{
  ℕ, ◌+◌, ◌*◌, ◌≡◌, ◌≢◌, ◌⊎◌, refl, String, false, none, some, List, [], ◌∷◌, count_where,
  update_where, Descending, arith, eq_iff,
}
use nestjs_starter.Exec.{ok}
use nestjs_starter.Database.{Table}
use nestjs_starter.Database.Rows.{find-update, count-update_zero}
use nestjs_starter.Domain.{Role, role_eq_iff}
use nestjs_starter.RefreshTokens.{
  RefreshTokenEntity, has_hash, live_of, revoked, find_by_token, revoke_all_rows,
}
use nestjs_starter.RefreshTokens.Service.{RotateTimes, still_active, replaced, new_row, issue}
use nestjs_starter.RefreshTokens.Service.Cases.{spent, exchanged}

module _ (T : Table RefreshTokenEntity) (sha256 : String → String) (ttl_seconds : ℕ) where
  -- The ids fall from the head on, below the sequence's next value.
  abbrev pub IsValid : T.Db → Type 0
  IsValid db = Descending (λ (row : RefreshTokenEntity). row.id) (T.next_id db) (T.rows db)

  pub issue-ok :
      (now created_at : ℕ) (token : String) (user_id : ℕ) (role : Role) (db : T.Db)
      → (issue T sha256 ttl_seconds now created_at token user_id role db).0
        ≡ ok (record { token = token; expires_at = now + ttl_seconds * 1000 })
  unfolding issue
  issue-ok now created_at token user_id role db = refl

  -- The token that was issued leads to a live row of its account.
  pub issue-found :
      (now created_at : ℕ) (token : String) (user_id : ℕ) (role : Role) (db : T.Db)
      → (row : RefreshTokenEntity) × (find_by_token T sha256 token
            (issue T sha256 ttl_seconds now created_at token user_id role db).1
          ≡ some row)
        × (row.user_id ≡ user_id)
        × (row.role ≡ role)
        × (row.revoked_at ≡ none)
        × (row.expires_at ≡ now + ttl_seconds * 1000)
  unfolding issue new_row find_by_token
  issue-found now created_at token user_id role db = (
    new_row T sha256 ttl_seconds token user_id role (now + ttl_seconds * 1000) created_at
        (T.next_id db),
    rw (T.rows-insert _ db) (ground (arith, eq_iff (sha256 token) (sha256 token))),
    refl,
    refl,
    refl,
    refl,
  )

  -- the sessions of an account that are not revoked
  abbrev pub live : ℕ → Role → T.Db → ℕ
  live user_id role db = count_where (live_of user_id role) (T.rows db)

  pub live-revoke_all_rows :
      (user_id : ℕ) (role : Role) (at : ℕ) (db : T.Db)
      → live user_id role (revoke_all_rows T sha256 user_id role at db) ≡ 0
  unfolding revoke_all_rows
  live-revoke_all_rows user_id role at db = rw (T.rows-update _ _ db) (
      count-update_zero (live_of user_id role) (live_of user_id role) (revoked at) (T.rows db)
        (λ x h. h) (λ x. ground arith))

  -- No session of another account is touched.
  pub live-revoke_other :
      (user_id user_id' : ℕ) (role role' : Role) (at : ℕ) (db : T.Db)
      → (user_id ≢ user_id') ⊎ (role ≢ role')
      → live user_id' role' (revoke_all_rows T sha256 user_id role at db) ≡ live user_id' role' db
  unfolding revoke_all_rows
  live-revoke_other user_id user_id' role role' at db other =
      rw (T.rows-update _ _ db) (go (T.rows db))
    where
      go :
          (rows : List RefreshTokenEntity)
          → count_where
              (live_of user_id' role')
              (update_where (live_of user_id role) (revoked at) rows)
            ≡ count_where (live_of user_id' role') rows
      go [] = refl
      go (x ∷ xs) = ground (arith, go xs, role_eq_iff x.role role, role_eq_iff x.role role', other)

  -- The rotated row, presented again, is found as it was replaced.
  pub found_after :
      (t : RotateTimes) (row : RefreshTokenEntity) (presented new_token : String) (db : T.Db)
      → sha256 presented ≢ sha256 new_token
      → spent t.expiry_check row ≡ false
      → find_by_token T sha256 presented db ≡ some row
      → find_by_token T sha256 presented (exchanged T sha256 ttl_seconds t row new_token db)
        ≡ some (replaced (T.next_id db) t.revocation row)
  unfolding find_by_token new_row
  found_after t row presented new_token db differ fresh found =
      rw (T.rows-update _ _ _, T.rows-insert _ db)
        (ground (
          arith,
          eq_iff (sha256 new_token) (sha256 presented),
          find-update (has_hash (sha256 presented)) (still_active row.id)
              (replaced (T.next_id db) t.revocation) (T.rows db) row (λ x. refl) found,
        ))
