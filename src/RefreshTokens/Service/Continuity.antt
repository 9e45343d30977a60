-- ===== src/RefreshTokens/Service/Continuity.antt =====
-- A session goes on through rotations: src/modules/refresh-tokens/services/refresh-token.service.ts.
use nestjs_starter.Prelude.{
  ℕ, ◌+◌, ◌*◌, ◌<◌, ◌≡◌, ◌≢◌, refl, String, str_eq, true, false, some, leb, is_some, is_none,
  Bool-cases, inl, inr, arith, eq_iff, ==_refl, eq_refl,
}
use nestjs_starter.Exec.{ok}
use nestjs_starter.Database.{Table}
use nestjs_starter.Database.Rows.{count-pos_of_find}
use nestjs_starter.Database.Keys.{find-key_lt, Descending-update, count-key_le}
use nestjs_starter.RefreshTokens.{RefreshTokenEntity, has_hash, find_by_token}
use nestjs_starter.RefreshTokens.Service.{
  RotateTimes, RefreshTokenRotateResult, still_active, replaced, new_row, inserted, lookup, check,
  exchange, rotate,
}
use nestjs_starter.RefreshTokens.Service.Cases.{exchanged, spent, Rotated-of_ok}
use nestjs_starter.RefreshTokens.Service.Sessions.{IsValid}

module _ (T : Table RefreshTokenEntity) (sha256 : String → String) (ttl_seconds : ℕ) where
  inserted-IsValid :
      (t : RotateTimes) (row : RefreshTokenEntity) (new_token : String) (db : T.Db)
      → IsValid T sha256 ttl_seconds db
      → IsValid T sha256 ttl_seconds (inserted T sha256 ttl_seconds t row new_token db)
  unfolding new_row
  inserted-IsValid t row new_token db v = rw (T.rows-insert _ db) (T.next_id-insert _ db, v)

  exchanged-IsValid :
      (t : RotateTimes) (row : RefreshTokenEntity) (new_token : String) (db : T.Db)
      → IsValid T sha256 ttl_seconds db
      → IsValid T sha256 ttl_seconds (exchanged T sha256 ttl_seconds t row new_token db)
  exchanged-IsValid t row new_token db v =
      rw (T.rows-update _ _ _, T.next_id-update _ _ _)
        (Descending-update _ (still_active row.id) (replaced (T.next_id db) t.revocation) _ _
          (λ x. refl) (inserted-IsValid t row new_token db v))

  check_active :
      (t : RotateTimes) (presented : String) (db : T.Db) (row : RefreshTokenEntity)
      → presented ≢ ""
      → find_by_token T sha256 presented db ≡ some row
      → spent t.expiry_check row ≡ false
      → check T sha256 ttl_seconds t presented db ≡ (ok row, db)
  unfolding check lookup
  check_active t presented db row given found fresh = elim (Bool-cases (str_eq presented "")) [
    | inl e ↦ absurd (given ((eq_iff presented "").0 e))
    | inr n ↦
        let active : is_some row.revoked_at ≡ false = ground arith in
        let alive : leb row.expires_at t.expiry_check ≡ false = ground arith in
        rw (n, found, active, alive)
  ]

  exchange_active :
      (t : RotateTimes) (presented new_token : String) (db : T.Db) (row : RefreshTokenEntity)
      → IsValid T sha256 ttl_seconds db
      → find_by_token T sha256 presented db ≡ some row
      → is_none row.revoked_at ≡ true
      → (exchange T sha256 ttl_seconds t row new_token db).0 ≡ ok tt
  unfolding exchange find_by_token new_row
  exchange_active t presented new_token db row v found active =
      let old =
        find-key_lt (λ x. x.id) (T.next_id db) (has_hash (sha256 presented)) (T.rows db) row v
          found in
      let most =
        count-key_le (λ x. x.id) row.id (T.next_id db) (still_active row.id) (T.rows db) v
          (λ x h. ground arith) in
      let least =
        count-pos_of_find (has_hash (sha256 presented)) (still_active row.id) (T.rows db) row found
          (ground (arith, active, ==_refl row.id)) in
      rw (T.rows-insert _ db) (ground (arith, old, most, least))

  -- An active row that is found is exchanged.
  rotate_active :
      (t : RotateTimes) (presented new_token : String) (db : T.Db) (row : RefreshTokenEntity)
      → IsValid T sha256 ttl_seconds db
      → presented ≢ ""
      → find_by_token T sha256 presented db ≡ some row
      → spent t.expiry_check row ≡ false
      → (rotate T sha256 ttl_seconds t presented new_token db).0
        ≡ ok (record {
          token = new_token;
          expires_at = t.expiry + ttl_seconds * 1000;
          user_id = row.user_id;
          role = row.role;
        })
  unfolding rotate
  rotate_active t presented new_token db row v given found fresh = rw (
    check_active t presented db row given found fresh,
    exchange_active t presented new_token db row v found (ground arith),
  )

  -- the new token's row, as it stands after the exchange
  new_found :
      (t : RotateTimes) (row : RefreshTokenEntity) (new_token : String) (db : T.Db)
      → row.id < T.next_id db
      → find_by_token T sha256 new_token (exchanged T sha256 ttl_seconds t row new_token db)
        ≡ some (
            new_row T sha256 ttl_seconds new_token row.user_id row.role
              (t.expiry + ttl_seconds * 1000)
              t.insertion
              (T.next_id db))
  unfolding find_by_token new_row
  new_found t row new_token db old =
      rw (T.rows-update _ _ _, T.rows-insert _ db) (ground (arith, eq_refl (sha256 new_token), old))

  -- A session goes on: the token that a rotation returned rotates in its turn until it expires,
  -- for the same account, and the new expiry counts from the new rotation.
  pub rotate-rotate :
      (t t' : RotateTimes) (presented new_token token' : String) (db : T.Db)
      (result : RefreshTokenRotateResult) (db' : T.Db)
      → IsValid T sha256 ttl_seconds db
      → new_token ≢ ""
      → rotate T sha256 ttl_seconds t presented new_token db ≡ (ok result, db')
      → t'.expiry_check < result.expires_at
      → (rotate T sha256 ttl_seconds t' result.token token' db').0
        ≡ ok (record {
          token = token';
          expires_at = t'.expiry + ttl_seconds * 1000;
          user_id = result.user_id;
          role = result.role;
        })
  unfolding find_by_token new_row
  rotate-rotate t t' presented new_token token' db result db' v given e alive =
      let d = Rotated-of_ok T sha256 ttl_seconds t presented new_token db result e in
      let old =
        find-key_lt (λ x. x.id) (T.next_id db) (has_hash (sha256 presented)) (T.rows db) d.row v
          d.found in
      rw (d.after, d.answer)
        (rotate_active t' new_token token' _ _ (exchanged-IsValid t d.row new_token db v) given
          (new_found t d.row new_token db old) (ground (arith, alive, d.answer)))
