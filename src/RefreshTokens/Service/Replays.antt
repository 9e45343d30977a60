-- ===== src/RefreshTokens/Service/Replays.antt =====
-- A rotated token that is presented again: src/modules/refresh-tokens/services/refresh-token.service.ts.
use nestjs_starter.Prelude.{
  ℕ, ◌+◌, ◌*◌, ◌≡◌, ◌≢◌, ◌⊎◌, refl, String, str_eq, none, some, arith, eq_iff, Bool, true, ◌∙◌,
  Option, is_some, ap, find, if◌then◌else◌, Bool-cases, inl, inr,
}
use nestjs_starter.Exec.{ok, throw, Result}
use nestjs_starter.Database.{Table}
use nestjs_starter.Database.Rows.{find-update}
use nestjs_starter.Domain.{Role}
use nestjs_starter.RefreshTokens.{
  RefreshTokenEntity, has_hash, live_of, revoked, find_by_token, revoke_all_rows, revoke_row,
  has_id,
}
use nestjs_starter.RefreshTokens.Service.{
  RotateTimes, RefreshTokenRotateResult, invalid, still_active, replaced, new_row, issue, rotate,
  check, exchange, revoke, revoke_all_for_user, revoke_found,
}
use nestjs_starter.RefreshTokens.Service.Cases.{
  Rotated-of_ok, rotate_theft, CheckCase, unknown, theft, stale, passed, check_case, ExchangeCase,
  lost, won, exchange_case,
}
use nestjs_starter.RefreshTokens.Service.Sessions.{
  live, live-revoke_all_rows, live-revoke_other, found_after,
}

module _ (T : Table RefreshTokenEntity) (sha256 : String → String) (ttl_seconds : ℕ)
    (presented : String) where
  -- One step of some request, on another token where it makes one. The nightly job is not among them.
  pub data Step (db : T.Db) : T.Db → Type 0 where
    issues :
        (now created_at : ℕ) (token : String) (user_id : ℕ) (role : Role)
        → sha256 presented ≢ sha256 token
        → Step db (issue T sha256 ttl_seconds now created_at token user_id role db).1
    checks : (t : RotateTimes) (given : String) → Step db (check T sha256 ttl_seconds t given db).1
    exchanges :
        (t : RotateTimes) (row : RefreshTokenEntity) (new_token : String)
        → sha256 presented ≢ sha256 new_token
        → Step db (exchange T sha256 ttl_seconds t row new_token db).1
    revokes : (now : ℕ) (given : String) → Step db (revoke T sha256 ttl_seconds now given db)
    revokes_all :
        (now user_id : ℕ) (role : Role)
        → Step db (revoke_all_for_user T sha256 ttl_seconds now user_id role db)

  pub data Reach (db : T.Db) : T.Db → Type 0 where
    here : Reach db db
    next : {db' db'' : T.Db} → Reach db db' → Step db' db'' → Reach db db''

  -- the token leads to a row of the account that was rotated
  record IsRotated (user_id : ℕ) (role : Role) (db : T.Db) : Type 0 where
    row : RefreshTokenEntity
    found : find_by_token T sha256 presented db ≡ some row
    revoked_once : is_some row.revoked_at ≡ true
    replaced_once : is_some row.replaced_by_id ≡ true
    owner : row.user_id ≡ user_id
    as_role : row.role ≡ role

  -- what an update must keep of a row
  record Keeps (g : RefreshTokenEntity → RefreshTokenEntity) : Type 0 where
    hash : (x : RefreshTokenEntity) → (g x).token_hash ≡ x.token_hash
    owner : (x : RefreshTokenEntity) → (g x).user_id ≡ x.user_id
    as_role : (x : RefreshTokenEntity) → (g x).role ≡ x.role
    revoked_once : (x : RefreshTokenEntity) → is_some (g x).revoked_at ≡ true
    replaced_once :
        (x : RefreshTokenEntity)
        → is_some x.replaced_by_id ≡ true
        → is_some (g x).replaced_by_id ≡ true

  revoked-Keeps : (at : ℕ) → Keeps (revoked at)
  revoked-Keeps at = record {
    hash = λ x. refl;
    owner = λ x. refl;
    as_role = λ x. refl;
    revoked_once = λ x. refl;
    replaced_once = λ x h. h;
  }

  replaced-Keeps : (by at : ℕ) → Keeps (replaced by at)
  replaced-Keeps by at = record {
    hash = λ x. refl;
    owner = λ x. refl;
    as_role = λ x. refl;
    revoked_once = λ x. refl;
    replaced_once = λ x h. refl;
  }

  module _ (user_id : ℕ) (role : Role) where
    update-IsRotated :
        (p : RefreshTokenEntity → Bool) (g : RefreshTokenEntity → RefreshTokenEntity) (db : T.Db)
        → Keeps g
        → IsRotated user_id role db
        → IsRotated user_id role (T.update p g db)
    unfolding find_by_token
    update-IsRotated p g db k r =
        let after =
          ap (find (has_hash (sha256 presented))) (T.rows-update p g db)
          ∙ find-update (has_hash (sha256 presented)) p g (T.rows db) r.row
              (λ x. ap (λ h. str_eq h (sha256 presented)) (k.hash x)) r.found in
        elim (Bool-cases (p r.row)) [
          | inl t ↦ record {
            row = g r.row;
            found = after ∙ ap (λ b. some (if b then g r.row else r.row)) t;
            revoked_once = k.revoked_once r.row;
            replaced_once = k.replaced_once r.row r.replaced_once;
            owner = k.owner r.row ∙ r.owner;
            as_role = k.as_role r.row ∙ r.as_role;
          }
          | inr f ↦ record {
            row = r.row;
            found = after ∙ ap (λ b. some (if b then g r.row else r.row)) f;
            revoked_once = r.revoked_once;
            replaced_once = r.replaced_once;
            owner = r.owner;
            as_role = r.as_role;
          }
        ]

    -- the same answer to the query
    same-IsRotated :
        (db db' : T.Db)
        → find_by_token T sha256 presented db' ≡ find_by_token T sha256 presented db
        → IsRotated user_id role db
        → IsRotated user_id role db'
    same-IsRotated db db' same r = record {
      row = r.row;
      found = same ∙ r.found;
      revoked_once = r.revoked_once;
      replaced_once = r.replaced_once;
      owner = r.owner;
      as_role = r.as_role;
    }

    insert-IsRotated :
        (token : String) (f : ℕ → RefreshTokenEntity) (db : T.Db)
        → sha256 presented ≢ sha256 token
        → ((n : ℕ) → (f n).token_hash ≡ sha256 token)
        → IsRotated user_id role db
        → IsRotated user_id role (T.insert f db)
    unfolding find_by_token
    insert-IsRotated token f db other hashed r =
        same-IsRotated db (T.insert f db)
          (ap (find (has_hash (sha256 presented))) (T.rows-insert f db)
            ∙ ground (
              arith,
              hashed (T.next_id db),
              other,
              eq_iff (f (T.next_id db)).token_hash (sha256 presented),
            ))
          r

    rollback-IsRotated :
        (before after : T.Db)
        → IsRotated user_id role before
        → IsRotated user_id role (T.rollback before after)
    unfolding find_by_token
    rollback-IsRotated before after r =
        same-IsRotated before (T.rollback before after)
          (ap (find (has_hash (sha256 presented))) (T.rows-rollback before after)) r

    revoke_all_rows-IsRotated :
        (owner : ℕ) (as_role : Role) (at : ℕ) (db : T.Db)
        → IsRotated user_id role db
        → IsRotated user_id role (revoke_all_rows T sha256 owner as_role at db)
    unfolding revoke_all_rows
    revoke_all_rows-IsRotated owner as_role at db =
        update-IsRotated (live_of owner as_role) (revoked at) db (revoked-Keeps at)

    revoke_found-IsRotated :
        (now : ℕ) (found : Option RefreshTokenEntity) (db : T.Db)
        → IsRotated user_id role db
        → IsRotated user_id role (revoke_found T sha256 ttl_seconds now found db)
    unfolding revoke_row
    revoke_found-IsRotated now none db r = r
    revoke_found-IsRotated now (some row) db r = elim (Bool-cases (is_some row.revoked_at)) [
      | inl h ↦ rw h r
      | inr h ↦ rw h (update-IsRotated (has_id row.id) (revoked now) db (revoked-Keeps now) r)
    ]

    check-IsRotated :
        (t : RotateTimes) (given : String) (db : T.Db)
        → IsRotated user_id role db
        → IsRotated user_id role (check T sha256 ttl_seconds t given db).1
    check-IsRotated t given db k = go (check_case T sha256 ttl_seconds t given db)
      where
        go :
            {r : Result RefreshTokenEntity × T.Db}
            → CheckCase T sha256 ttl_seconds t given db r
            → IsRotated user_id role r.1
        go (unknown m) = k
        go (theft row g f r) =
            revoke_all_rows-IsRotated row.user_id row.role t.reuse_revocation db k
        go (stale row g f r p) = k
        go (passed row g f p) = k

    exchange-IsRotated :
        (t : RotateTimes) (row : RefreshTokenEntity) (new_token : String) (db : T.Db)
        → sha256 presented ≢ sha256 new_token
        → IsRotated user_id role db
        → IsRotated user_id role (exchange T sha256 ttl_seconds t row new_token db).1
    unfolding new_row
    exchange-IsRotated t row new_token db other k =
        go (exchange_case T sha256 ttl_seconds t row new_token db)
      where
        go :
            {r : Result (Unit {0}) × T.Db}
            → ExchangeCase T sha256 ttl_seconds t row new_token db r
            → IsRotated user_id role r.1
        go lost = rollback-IsRotated db _ k
        go (won e) =
            update-IsRotated (still_active row.id) (replaced (T.next_id db) t.revocation) _
              (replaced-Keeps (T.next_id db) t.revocation)
              (insert-IsRotated new_token
                (new_row T sha256 ttl_seconds new_token row.user_id row.role
                  (t.expiry + ttl_seconds * 1000) t.insertion)
                db other (λ n. refl) k)

    Step-IsRotated :
        {db db' : T.Db} → Step db db' → IsRotated user_id role db → IsRotated user_id role db'
    unfolding issue new_row revoke revoke_all_for_user
    Step-IsRotated {db} (issues now created_at token owner as_role other) k =
        insert-IsRotated token
          (new_row T sha256 ttl_seconds token owner as_role (now + ttl_seconds * 1000) created_at)
          db other (λ n. refl) k
    Step-IsRotated {db} (checks t given) k = check-IsRotated t given db k
    Step-IsRotated {db} (exchanges t row new_token other) k =
        exchange-IsRotated t row new_token db other k
    Step-IsRotated {db} (revokes now given) k =
        revoke_found-IsRotated now (find_by_token T sha256 given db) db k
    Step-IsRotated {db} (revokes_all now owner as_role) k =
        revoke_all_rows-IsRotated owner as_role now db k

    Reach-IsRotated :
        {db db' : T.Db} → IsRotated user_id role db → Reach db db' → IsRotated user_id role db'
    Reach-IsRotated k here = k
    Reach-IsRotated k (next r st) = Step-IsRotated st (Reach-IsRotated k r)

    rotate-IsRotated :
        (t : RotateTimes) (new_token : String) (db : T.Db) (result : RefreshTokenRotateResult)
        (db' : T.Db)
        → sha256 presented ≢ sha256 new_token
        → rotate T sha256 ttl_seconds t presented new_token db ≡ (ok result, db')
        → result.user_id ≡ user_id
        → result.role ≡ role
        → IsRotated user_id role db'
    rotate-IsRotated t new_token db result db' differ e u v =
        let r = Rotated-of_ok T sha256 ttl_seconds t presented new_token db result e in
        record {
          row = replaced (T.next_id db) t.revocation r.row;
          found = rw r.after (
              found_after T sha256 ttl_seconds t r.row presented new_token db differ r.fresh
                r.found);
          revoked_once = refl;
          replaced_once = refl;
          owner = ground (arith, r.answer, u);
          as_role = ground (arith, r.answer, v);
        }

  -- A replay is detected. A token was rotated, and then other requests took any steps, without a
  -- pruning, in which no other token has the hash of this one. Presented again, whenever, it is
  -- refused, and the account has no live session then; the sessions of the other accounts are as
  -- they were before the replay.
  pub rotate_replay :
      (t t' : RotateTimes) (new_token token' : String) (db : T.Db)
      (result : RefreshTokenRotateResult) (db' db'' : T.Db)
      → sha256 presented ≢ sha256 new_token
      → rotate T sha256 ttl_seconds t presented new_token db ≡ (ok result, db')
      → Reach db' db''
      → ((rotate T sha256 ttl_seconds t' presented token' db'').0 ≡ throw invalid)
        × (live T sha256 ttl_seconds result.user_id result.role
              (rotate T sha256 ttl_seconds t' presented token' db'').1
            ≡ 0)
        × ((user_id : ℕ) (role : Role)
            → (result.user_id ≢ user_id) ⊎ (result.role ≢ role)
            → live T sha256 ttl_seconds user_id role
                (rotate T sha256 ttl_seconds t' presented token' db'').1
              ≡ live T sha256 ttl_seconds user_id role db'')
  rotate_replay t t' new_token token' db result db' db'' differ e steps =
      let r = Rotated-of_ok T sha256 ttl_seconds t presented new_token db result e in
      let k =
        Reach-IsRotated result.user_id result.role
          (rotate-IsRotated result.user_id result.role t new_token db result db' differ e refl refl)
          steps in
      rw
        (rotate_theft T sha256 ttl_seconds t' presented token' db'' k.row r.given k.found
          (ground (arith, k.revoked_once, k.replaced_once)))
        (
          refl,
          rw (← k.owner, ← k.as_role)
              (live-revoke_all_rows T sha256 ttl_seconds k.row.user_id k.row.role _ db''),
          λ user_id role other.
              live-revoke_other T sha256 ttl_seconds k.row.user_id user_id k.row.role role _ db''
                (rw (k.owner, k.as_role) other),
        )
