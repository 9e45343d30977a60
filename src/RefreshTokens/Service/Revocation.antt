-- ===== src/RefreshTokens/Service/Revocation.antt =====
-- Logout and revocation of all sessions: src/modules/refresh-tokens/services/refresh-token.service.ts.
use nestjs_starter.Prelude.{
  ℕ, ◌≡◌, ◌≢◌, refl, String, true, Option, none, some, is_some, find, update_where, Bool-cases,
  Option-cases, inl, inr, arith, ==_refl,
}
use nestjs_starter.Exec.{Result, ok, throw}
use nestjs_starter.Database.{Table}
use nestjs_starter.Database.Rows.{find-update, find-update_none}
use nestjs_starter.Domain.{Role, role_eq_iff}
use nestjs_starter.RefreshTokens.{
  RefreshTokenEntity, has_hash, has_id, live_of, revoked, find_by_token, revoke_row,
  revoke_all_rows,
}
use nestjs_starter.RefreshTokens.Service.{
  RotateTimes, RefreshTokenRotateResult, invalid, check, rotate, revoke, revoke_found,
  revoke_all_for_user,
}
use nestjs_starter.RefreshTokens.Service.Cases.{
  CheckCase, unknown, theft, stale, passed, check_case, rotate_of_throw, Rotated-of_ok,
}

module _ (T : Table RefreshTokenEntity) (sha256 : String → String) (ttl_seconds : ℕ) where
  -- A token that is not found, or whose row is revoked, does not pass the check.
  check_refuses :
      (t : RotateTimes) (presented : String) (db : T.Db)
      → ((row : RefreshTokenEntity)
          → find_by_token T sha256 presented db ≡ some row
          → is_some row.revoked_at ≡ true)
      → (check T sha256 ttl_seconds t presented db).0 ≡ throw invalid
  check_refuses t presented db w = go (check_case T sha256 ttl_seconds t presented db)
    where
      go :
          {r : Result RefreshTokenEntity × T.Db}
          → CheckCase T sha256 ttl_seconds t presented db r
          → r.0 ≡ throw invalid
      go (unknown m) = refl
      go (theft row g f r) = refl
      go (stale row g f r p) = refl
      go (passed row g f p) = absurd (ground (arith, w row f))

  rotate_refuses :
      (t : RotateTimes) (presented new_token : String) (db : T.Db)
      → ((row : RefreshTokenEntity)
          → find_by_token T sha256 presented db ≡ some row
          → is_some row.revoked_at ≡ true)
      → (rotate T sha256 ttl_seconds t presented new_token db).0 ≡ throw invalid
  rotate_refuses t presented new_token db w = rw (
      rotate_of_throw T sha256 ttl_seconds t presented new_token db
        (check_refuses t presented db w))

  revoked_row :
      (now : ℕ) (presented : String) (db : T.Db) (found : Option RefreshTokenEntity)
      → find_by_token T sha256 presented db ≡ found
      → (row : RefreshTokenEntity)
      → find_by_token T sha256 presented (revoke_found T sha256 ttl_seconds now found db) ≡ some row
      → is_some row.revoked_at ≡ true
  unfolding find_by_token revoke_row
  revoked_row now presented db none f row e = absurd (cc)
  revoked_row now presented db (some old) f row e = elim (Bool-cases (is_some old.revoked_at)) [
    | inl r ↦ let same : some old ≡ some row = (ground arith) in ground arith
    | inr r ↦
        let e' : find (has_hash (sha256 presented))
              (T.rows (T.update (has_id old.id) (revoked now) db))
            ≡ some row =
          (rw r at e) in
        let e'' = rw (T.rows-update (has_id old.id) (revoked now) db) at e' in
        let changed =
          find-update (has_hash (sha256 presented)) (has_id old.id) (revoked now) (T.rows db) old
            (λ x. refl) f in
        ground (arith, e'', changed, ==_refl old.id)
  ]

  others_kept :
      (now : ℕ) (token : String) (db : T.Db) (found : Option RefreshTokenEntity)
      (other : RefreshTokenEntity)
      → find_by_token T sha256 token db ≡ some other
      → ((row : RefreshTokenEntity) → found ≡ some row → row.id ≢ other.id)
      → find_by_token T sha256 token (revoke_found T sha256 ttl_seconds now found db) ≡ some other
  unfolding find_by_token revoke_row
  others_kept now token db none other e n = e
  others_kept now token db (some row) other e n = elim (Bool-cases (is_some row.revoked_at)) [
    | inl r ↦ rw r e
    | inr r ↦
        rw (r, T.rows-update (has_id row.id) (revoked now) db)
          (ground (
            arith,
            n row refl,
            find-update (has_hash (sha256 token)) (has_id row.id) (revoked now) (T.rows db) other
                (λ x. refl) e,
          ))
  ]

  -- Logout ends one session: afterwards the presented token is refused at every instant, and the
  -- row of a token that has another id than the presented one's is found unchanged.
  pub revoke-rotate :
      (now : ℕ) (presented : String) (db : T.Db)
      → ((t : RotateTimes) (new_token : String)
          → (rotate T sha256 ttl_seconds t presented new_token
              (revoke T sha256 ttl_seconds now presented db)).0
            ≡ throw invalid)
        × ((token : String) (other : RefreshTokenEntity)
            → find_by_token T sha256 token db ≡ some other
            → ((row : RefreshTokenEntity)
                → find_by_token T sha256 presented db ≡ some row
                → row.id ≢ other.id)
            → find_by_token T sha256 token (revoke T sha256 ttl_seconds now presented db)
              ≡ some other)
  unfolding revoke
  revoke-rotate now presented db = (
    λ t new_token. rotate_refuses t presented new_token _ (revoked_row now presented db _ refl),
    λ token other e n. others_kept now token db _ other e n,
  )

  revoked_account :
      (now user_id : ℕ) (role : Role) (presented : String) (db : T.Db) (row : RefreshTokenEntity)
      → find_by_token T sha256 presented (revoke_all_rows T sha256 user_id role now db) ≡ some row
      → row.user_id ≡ user_id
      → row.role ≡ role
      → is_some row.revoked_at ≡ true
  unfolding find_by_token revoke_all_rows
  revoked_account now user_id role presented db row e u r =
      elim (Option-cases (find (has_hash (sha256 presented)) (T.rows db))) [
        | inl n ↦ absurd (
            cc (
              find-update_none (has_hash (sha256 presented)) (live_of user_id role) (revoked now)
                  (T.rows db) (λ x. refl) n,
              e',
            ))
        | inr (old, f) ↦ ground (
          arith,
          e',
          role_eq_iff old.role role,
          find-update (has_hash (sha256 presented)) (live_of user_id role) (revoked now) (T.rows db)
              old (λ x. refl) f,
        )
      ]
    where
      e' :
          find
            (has_hash (sha256 presented))
            (update_where (live_of user_id role) (revoked now) (T.rows db))
          ≡ some row
      e' = rw (T.rows-update (live_of user_id role) (revoked now) db) at e

  -- After all sessions of an account were revoked, no token that was given out before refreshes a
  -- session of that account.
  pub revoke_all-rotate :
      (now user_id : ℕ) (role : Role) (t : RotateTimes) (presented new_token : String) (db : T.Db)
      (result : RefreshTokenRotateResult)
      → (rotate T sha256 ttl_seconds t presented new_token
          (revoke_all_for_user T sha256 ttl_seconds now user_id role db)).0
        ≡ ok result
      → ¬ ((result.user_id ≡ user_id) × (result.role ≡ role))
  unfolding revoke_all_for_user
  revoke_all-rotate now user_id role t presented new_token db result e (u, r) =
      let d = Rotated-of_ok T sha256 ttl_seconds t presented new_token _ result after in
      let dead =
        revoked_account now user_id role presented db d.row d.found (ground (arith, d.answer, u))
          (ground (arith, d.answer, r)) in
      absurd (ground (arith, dead, d.fresh))
    where
      after :
          rotate T sha256 ttl_seconds t presented new_token
            (revoke_all_rows T sha256 user_id role now db)
          ≡ (
            ok result,
            (rotate T sha256 ttl_seconds t presented new_token
                (revoke_all_rows T sha256 user_id role now db)).1,
          )
      after = λ i. (
        e i,
        (rotate T sha256 ttl_seconds t presented new_token
            (revoke_all_rows T sha256 user_id role now db)).1,
      )
