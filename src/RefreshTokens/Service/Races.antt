-- ===== src/RefreshTokens/Service/Races.antt =====
-- Concurrent rotations: src/modules/refresh-tokens/services/refresh-token.service.ts. Between the
-- check of a request and its transaction other requests may take any number of steps.
use nestjs_starter.Prelude.{
  ℕ, ◌+◌, ◌*◌, ◌<◌, ◌≡◌, refl, String, Bool, true, Option, none, some, is_some, count_where,
  Bool-cases, inl, inr, arith,
}
use nestjs_starter.Exec.{Result, ok, throw}
use nestjs_starter.Database.{Table}
use nestjs_starter.Database.Rows.{count-update_zero, sum-update_le, sum-delete_le}
use nestjs_starter.Domain.{Role}
use nestjs_starter.RefreshTokens.{
  RefreshTokenEntity, has_id, live_of, revoked, revoke_row, revoke_all_rows, delete_expired_before,
  find_by_token, expired_before,
}
use nestjs_starter.RefreshTokens.Service.{
  RotateTimes, invalid, still_active, replaced, new_row, issue, check, exchange, revoke,
  revoke_all_for_user, prune_expired_tokens, revoke_found,
}
use nestjs_starter.RefreshTokens.Service.Cases.{
  CheckCase, unknown, theft, stale, passed, check_case, ExchangeCase, lost, won, exchange_case,
}

module _ (T : Table RefreshTokenEntity) (sha256 : String → String) (ttl_seconds : ℕ) where
  -- One step of some request, or of the nightly job.
  pub data Step (db : T.Db) : T.Db → Type 0 where
    issues :
        (now created_at : ℕ) (token : String) (user_id : ℕ) (role : Role)
        → Step db (issue T sha256 ttl_seconds now created_at token user_id role db).1
    checks :
        (t : RotateTimes) (presented : String)
        → Step db (check T sha256 ttl_seconds t presented db).1
    exchanges :
        (t : RotateTimes) (row : RefreshTokenEntity) (new_token : String)
        → Step db (exchange T sha256 ttl_seconds t row new_token db).1
    revokes :
        (now : ℕ) (presented : String) → Step db (revoke T sha256 ttl_seconds now presented db)
    revokes_all :
        (now user_id : ℕ) (role : Role)
        → Step db (revoke_all_for_user T sha256 ttl_seconds now user_id role db)
    prunes : (now : ℕ) → Step db (prune_expired_tokens T sha256 ttl_seconds now db)

  pub data Reach (db : T.Db) : T.Db → Type 0 where
    here : Reach db db
    next : {db' db'' : T.Db} → Reach db db' → Step db' db'' → Reach db db''

  -- The id was given out, and no active row has it.
  record IsSpent (id : ℕ) (db : T.Db) : Type 0 where
    below : id < T.next_id db
    inactive : count_where (still_active id) (T.rows db) ≡ 0

  -- an update that activates no row
  update-IsSpent :
      (id : ℕ) (p : RefreshTokenEntity → Bool) (g : RefreshTokenEntity → RefreshTokenEntity)
      → ((row : RefreshTokenEntity) → still_active id (g row) ≡ true → still_active id row ≡ true)
      → {db : T.Db} → IsSpent id db
      → IsSpent id (T.update p g db)
  update-IsSpent id p g w {db} s = record {
    below = rw (T.next_id-update p g db) s.below;
    inactive = rw (T.rows-update p g db) (
        omega (
          arith,
          s.inactive,
          sum-update_le p (still_active id) g (λ _. 1) (T.rows db) w (λ x. omega arith),
        ));
  }

  insert-IsSpent :
      (id : ℕ) (f : ℕ → RefreshTokenEntity) {db : T.Db}
      → ((n : ℕ) → (f n).id ≡ n)
      → IsSpent id db
      → IsSpent id (T.insert f db)
  insert-IsSpent id f {db} own s = record {
    below = omega (arith, s.below, T.next_id-insert f db);
    inactive = rw (T.rows-insert f db) (ground (arith, s.inactive, s.below, own (T.next_id db)));
  }

  delete-IsSpent :
      (id : ℕ) (p : RefreshTokenEntity → Bool) {db : T.Db}
      → IsSpent id db
      → IsSpent id (T.delete p db)
  delete-IsSpent id p {db} s = record {
    below = rw (T.next_id-delete p db) s.below;
    inactive =
        rw (T.rows-delete p db)
          (omega (arith, s.inactive, sum-delete_le (still_active id) p (λ _. 1) (T.rows db)));
  }

  rollback-IsSpent :
      (id : ℕ) {before : T.Db} (after : T.Db)
      → IsSpent id before
      → IsSpent id (T.rollback before after)
  rollback-IsSpent id {before} after s = record {
    below = omega (arith, s.below, T.next_id-rollback before after);
    inactive = rw (T.rows-rollback before after) s.inactive;
  }

  revoke_all_rows-IsSpent :
      (id user_id : ℕ) (role : Role) (at : ℕ) {db : T.Db}
      → IsSpent id db
      → IsSpent id (revoke_all_rows T sha256 user_id role at db)
  unfolding revoke_all_rows
  revoke_all_rows-IsSpent id user_id role at =
      update-IsSpent id (live_of user_id role) (revoked at) (λ row h. ground arith)

  revoke_found-IsSpent :
      (id now : ℕ) (found : Option RefreshTokenEntity) {db : T.Db}
      → IsSpent id db
      → IsSpent id (revoke_found T sha256 ttl_seconds now found db)
  unfolding revoke_row
  revoke_found-IsSpent id now none s = s
  revoke_found-IsSpent id now (some row) s = elim (Bool-cases (is_some row.revoked_at)) [
    | inl r ↦ rw r s
    | inr r ↦ rw r (update-IsSpent id (has_id row.id) (revoked now) (λ row h. ground arith) s)
  ]

  check-IsSpent :
      (id : ℕ) (t : RotateTimes) (presented : String) {db : T.Db}
      → IsSpent id db
      → IsSpent id (check T sha256 ttl_seconds t presented db).1
  check-IsSpent id t presented {db} s = go (check_case T sha256 ttl_seconds t presented db)
    where
      go :
          {r : Result RefreshTokenEntity × T.Db}
          → CheckCase T sha256 ttl_seconds t presented db r
          → IsSpent id r.1
      go (unknown m) = s
      go (theft row g f r) = revoke_all_rows-IsSpent id row.user_id row.role t.reuse_revocation s
      go (stale row g f r p) = s
      go (passed row g f p) = s

  exchange-IsSpent :
      (id : ℕ) (t : RotateTimes) (row : RefreshTokenEntity) (new_token : String) {db : T.Db}
      → IsSpent id db
      → IsSpent id (exchange T sha256 ttl_seconds t row new_token db).1
  unfolding new_row
  exchange-IsSpent id t row new_token {db} s =
      go (exchange_case T sha256 ttl_seconds t row new_token db)
    where
      go :
          {r : Result (Unit {0}) × T.Db}
          → ExchangeCase T sha256 ttl_seconds t row new_token db r
          → IsSpent id r.1
      go lost = rollback-IsSpent id _ s
      go (won e) =
          update-IsSpent id (still_active row.id) (replaced (T.next_id db) t.revocation)
            (λ x h. ground arith)
            (insert-IsSpent id
              (new_row T sha256 ttl_seconds new_token row.user_id row.role
                (t.expiry + ttl_seconds * 1000) t.insertion)
              (λ n. refl) s)

  Step-IsSpent : (id : ℕ) {db db' : T.Db} → Step db db' → IsSpent id db → IsSpent id db'
  unfolding issue new_row revoke revoke_all_for_user prune_expired_tokens delete_expired_before
  Step-IsSpent id (issues now created_at token user_id role) s =
      insert-IsSpent id
        (new_row T sha256 ttl_seconds token user_id role (now + ttl_seconds * 1000) created_at)
        (λ n. refl) s
  Step-IsSpent id (checks t presented) s = check-IsSpent id t presented s
  Step-IsSpent id (exchanges t row new_token) s = exchange-IsSpent id t row new_token s
  Step-IsSpent id {db} (revokes now presented) s =
      revoke_found-IsSpent id now (find_by_token T sha256 presented db) s
  Step-IsSpent id (revokes_all now user_id role) s = revoke_all_rows-IsSpent id user_id role now s
  Step-IsSpent id (prunes now) s = delete-IsSpent id (expired_before now) s

  Reach-IsSpent : (id : ℕ) {db db' : T.Db} → IsSpent id db → Reach db db' → IsSpent id db'
  Reach-IsSpent id s here = s
  Reach-IsSpent id s (next r st) = Step-IsSpent id st (Reach-IsSpent id s r)

  -- A won exchange leaves its row spent.
  exchange-spends :
      (t : RotateTimes) (row : RefreshTokenEntity) (new_token : String) (db : T.Db)
      → row.id < T.next_id db
      → (exchange T sha256 ttl_seconds t row new_token db).0 ≡ ok tt
      → IsSpent row.id (exchange T sha256 ttl_seconds t row new_token db).1
  exchange-spends t row new_token db old e =
      go (exchange_case T sha256 ttl_seconds t row new_token db) e
    where
      go :
          {r : Result (Unit {0}) × T.Db}
          → ExchangeCase T sha256 ttl_seconds t row new_token db r
          → r.0 ≡ ok tt
          → IsSpent row.id r.1
      go lost e = absurd (cc)
      go (won u) e = record {
        below = rw (T.next_id-update _ _ _) (omega (arith, old, T.next_id-insert _ db));
        inactive = rw (T.rows-update _ _ _) (
            count-update_zero (still_active row.id) (still_active row.id) _ (T.rows _) (λ x h. h)
              (λ x. ground arith));
      }

  -- The exchange of a spent row is refused, and rolled back.
  exchange_of_IsSpent :
      (t : RotateTimes) (row : RefreshTokenEntity) (new_token : String) (db : T.Db)
      → IsSpent row.id db
      → ((exchange T sha256 ttl_seconds t row new_token db).0 ≡ throw invalid)
        × (T.rows (exchange T sha256 ttl_seconds t row new_token db).1 ≡ T.rows db)
  unfolding exchange new_row
  exchange_of_IsSpent t row new_token db s =
      let gone =
        insert-IsSpent row.id
          (new_row T sha256 ttl_seconds new_token row.user_id row.role
            (t.expiry + ttl_seconds * 1000) t.insertion)
          (λ n. refl) s in
      rw (gone.inactive) (refl, T.rows-rollback db _)

  -- No double spend: when an exchange of a row has won, no exchange of the same row wins later,
  -- whatever steps other requests and the nightly job take in between; the loser's transaction
  -- changes no row.
  pub exchange_once :
      (t t' : RotateTimes) (row row' : RefreshTokenEntity) (new_token token' : String)
      (db db' : T.Db)
      → row.id < T.next_id db
      → (exchange T sha256 ttl_seconds t row new_token db).0 ≡ ok tt
      → Reach (exchange T sha256 ttl_seconds t row new_token db).1 db'
      → row'.id ≡ row.id
      → ((exchange T sha256 ttl_seconds t' row' token' db').0 ≡ throw invalid)
        × (T.rows (exchange T sha256 ttl_seconds t' row' token' db').1 ≡ T.rows db')
  exchange_once t t' row row' new_token token' db db' old e r same =
      exchange_of_IsSpent t' row' token' db'
        (rw same (Reach-IsSpent row.id (exchange-spends t row new_token db old e) r))
