-- ===== src/RefreshTokens/Service/Cases.antt =====
-- The branches of `rotate` of src/modules/refresh-tokens/services/refresh-token.service.ts, as views.
use nestjs_starter.Prelude.{
  ℕ, ◌+◌, ◌*◌, ◌≡◌, ◌≢◌, String, str_eq, Bool, true, false, ◌&&◌, ◌||◌, none, some, leb, ◌==◌,
  is_some, count_where, Bool-cases, Option-cases, inl, inr, arith, eq_iff,
}
use nestjs_starter.Exec.{Result, ok, throw, continue, pure, ◌>>=◌}
use nestjs_starter.Database.{Table}
use nestjs_starter.RefreshTokens.{RefreshTokenEntity, find_by_token, revoke_all_rows}
use nestjs_starter.RefreshTokens.Service.{
  RotateTimes, RefreshTokenRotateResult, invalid, still_active, replaced, inserted, lookup, check,
  exchange, rotate,
}

-- the checks find the token reused after its rotation
abbrev pub reused : RefreshTokenEntity → Bool
reused row = is_some row.revoked_at && is_some row.replaced_by_id

abbrev pub spent : ℕ → RefreshTokenEntity → Bool
spent now row = is_some row.revoked_at || leb row.expires_at now

module _ (T : Table RefreshTokenEntity) (sha256 : String → String) (ttl_seconds : ℕ) where
  abbrev pub exchanged : RotateTimes → RefreshTokenEntity → String → T.Db → T.Db
  exchanged t row new_token db =
      T.update (still_active row.id) (replaced (T.next_id db) t.revocation)
        (inserted T sha256 ttl_seconds t row new_token db)

  module _ (t : RotateTimes) (presented : String) (db : T.Db) where
    pub data CheckCase : Result RefreshTokenEntity × T.Db → Type 0 where
      unknown :
          (presented ≢ "" → find_by_token T sha256 presented db ≡ none)
          → CheckCase (throw invalid, db)
      theft :
          (row : RefreshTokenEntity)
          → presented ≢ ""
          → find_by_token T sha256 presented db ≡ some row
          → reused row ≡ true
          → CheckCase
              (throw invalid, revoke_all_rows T sha256 row.user_id row.role t.reuse_revocation db)
      stale :
          (row : RefreshTokenEntity)
          → presented ≢ ""
          → find_by_token T sha256 presented db ≡ some row
          → reused row ≡ false
          → spent t.expiry_check row ≡ true
          → CheckCase (throw invalid, db)
      passed :
          (row : RefreshTokenEntity)
          → presented ≢ ""
          → find_by_token T sha256 presented db ≡ some row
          → spent t.expiry_check row ≡ false
          → CheckCase (ok row, db)

    pub check_case : CheckCase (check T sha256 ttl_seconds t presented db)
    unfolding check lookup
    check_case = elim (Bool-cases (str_eq presented "")) [
      | inl e ↦ rw e (unknown (λ n. absurd (n ((eq_iff presented "").0 e))))
      | inr n ↦
          let some_token : presented ≢ "" = λ e. cc ((eq_iff presented "").1 e, n) in
          elim (Option-cases (find_by_token T sha256 presented db)) [
            | inl m ↦ rw (n, m) (unknown (λ _. m))
            | inr (row, f) ↦ elim (Bool-cases (reused row)) [
              | inl r ↦ rw (n, f, r) (theft row some_token f r)
              | inr r ↦ elim (Bool-cases (spent t.expiry_check row)) [
                | inl s ↦ rw (n, f, r, s) (stale row some_token f r s)
                | inr s ↦ rw (n, f, r, s) (passed row some_token f s)
              ]
            ]
          ]
    ]

  module _ (t : RotateTimes) (row : RefreshTokenEntity) (new_token : String) (db : T.Db) where
    pub data ExchangeCase : Result (Unit {0}) × T.Db → Type 0 where
      lost :
          ExchangeCase
            (throw invalid, T.rollback db (inserted T sha256 ttl_seconds t row new_token db))
      won :
          count_where
              (still_active row.id)
              (T.rows (inserted T sha256 ttl_seconds t row new_token db))
            ≡ 1
          → ExchangeCase (ok tt, exchanged t row new_token db)

    pub exchange_case : ExchangeCase (exchange T sha256 ttl_seconds t row new_token db)
    unfolding exchange
    exchange_case =
        elim (Bool-cases (
          count_where (still_active row.id)
            (T.rows (inserted T sha256 ttl_seconds t row new_token db))
          == 1)) [ inl e ↦ rw e (won (ground arith)) | inr n ↦ rw n lost ]

  -- What a successful rotation went through.
  pub record Rotated (t : RotateTimes) (presented new_token : String) (db : T.Db)
      (result : RefreshTokenRotateResult) (db' : T.Db) : Type 0 where
    pub row : RefreshTokenEntity
    pub given : presented ≢ ""
    pub found : find_by_token T sha256 presented db ≡ some row
    pub fresh : spent t.expiry_check row ≡ false
    pub unique :
        count_where
          (still_active row.id)
          (T.rows (inserted T sha256 ttl_seconds t row new_token db))
        ≡ 1
    pub answer : result ≡ record {
      token = new_token;
      expires_at = t.expiry + ttl_seconds * 1000;
      user_id = row.user_id;
      role = row.role;
    }
    pub after : db' ≡ exchanged t row new_token db

  module _ (t : RotateTimes) (presented new_token : String) (db : T.Db)
      (result : RefreshTokenRotateResult) where
    after_exchange :
        (row : RefreshTokenEntity)
        → presented ≢ ""
        → find_by_token T sha256 presented db ≡ some row
        → spent t.expiry_check row ≡ false
        → {r : Result (Unit {0}) × T.Db} → ExchangeCase t row new_token db r
        → {db' : T.Db}
        → continue r.0
            (λ _. pure (record {
              token = new_token;
              expires_at = t.expiry + ttl_seconds * 1000;
              user_id = row.user_id;
              role = row.role;
            }))
            r.1
          ≡ (ok result, db')
        → Rotated t presented new_token db result db'
    after_exchange row given found fresh lost e = absurd (ground arith)
    after_exchange row given found fresh (won unique) e = record {
      row = row;
      given = given;
      found = found;
      fresh = fresh;
      unique = unique;
      answer = ground arith;
      after = ground arith;
    }

    after_check :
        {r : Result RefreshTokenEntity × T.Db}
        → CheckCase t presented db r
        → {db' : T.Db}
        → continue r.0
            (λ row. exchange T sha256 ttl_seconds t row new_token >>= λ _. pure (record {
              token = new_token;
              expires_at = t.expiry + ttl_seconds * 1000;
              user_id = row.user_id;
              role = row.role;
            }))
            r.1
          ≡ (ok result, db')
        → Rotated t presented new_token db result db'
    after_check (unknown m) e = absurd (ground arith)
    after_check (theft row g f r) e = absurd (ground arith)
    after_check (stale row g f r s) e = absurd (ground arith)
    after_check (passed row g f s) e = after_exchange row g f s (exchange_case t row new_token db) e

    pub Rotated-of_ok :
        {db' : T.Db}
        → rotate T sha256 ttl_seconds t presented new_token db ≡ (ok result, db')
        → Rotated t presented new_token db result db'
    unfolding rotate
    Rotated-of_ok e = after_check (check_case t presented db) e

  -- A rotation whose check fails ends as the check does.
  pub rotate_of_throw :
      (t : RotateTimes) (presented new_token : String) (db : T.Db)
      → (check T sha256 ttl_seconds t presented db).0 ≡ throw invalid
      → rotate T sha256 ttl_seconds t presented new_token db
        ≡ (throw invalid, (check T sha256 ttl_seconds t presented db).1)
  unfolding rotate
  rotate_of_throw t presented new_token db e = rw e

  -- A token that was rotated before is taken for stolen.
  pub rotate_theft :
      (t : RotateTimes) (presented new_token : String) (db : T.Db) (row : RefreshTokenEntity)
      → presented ≢ ""
      → find_by_token T sha256 presented db ≡ some row
      → reused row ≡ true
      → rotate T sha256 ttl_seconds t presented new_token db
        ≡ (throw invalid, revoke_all_rows T sha256 row.user_id row.role t.reuse_revocation db)
  unfolding rotate check lookup
  rotate_theft t presented new_token db row given found h =
      elim (Bool-cases (str_eq presented "")) [
        | inl e ↦ absurd (given ((eq_iff presented "").0 e))
        | inr n ↦ rw (n, found, h)
      ]
