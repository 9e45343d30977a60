-- ===== src/RefreshTokens/Service/Tests.antt =====
-- Runs of the refresh-token service on a table in memory, with tokens as their own hashes.
use nestjs_starter.Prelude.{
  ℕ, ◌≡◌, ◌≢◌, ◌⊎◌, refl, String, str_eq, none, some, [], ◌∷◌, arith, eq_iff,
}
use mathlib.Core.Bool.{false}
use nestjs_starter.Exec.{ok, throw}
use nestjs_starter.Database.Memory.{Contents, memory}
use nestjs_starter.Domain.{Role, user}
use nestjs_starter.RefreshTokens.{RefreshTokenEntity, find_by_token, delete_expired_before}
use nestjs_starter.RefreshTokens.Service.{
  RefreshTokenRotateResult, invalid, new_row, lookup, check, exchange, rotate, issue, revoke,
  prune_expired_tokens,
}
use nestjs_starter.RefreshTokens.Service.Samples.{
  hash, at, first, foreign, signed_in, admin_result, admin_kept,
}
use nestjs_starter.RefreshTokens.Service.Sessions.{live}
use nestjs_starter.RefreshTokens.Service.Replays.{rotate_replay}
use nestjs_starter.RefreshTokens.Service.Replays as Replays
use nestjs_starter.RefreshTokens.Service.Races.{here, next, exchanges, prunes, exchange_once}
use nestjs_starter.RefreshTokens.Service.Revocation.{revoke_all-rotate}
use nestjs_starter.RefreshTokens.Service.Pruning.{prune_forgets_reuse}

abbrev rotated_row : RefreshTokenEntity
rotated_row = record first {
  revoked_at = some 5000;
  last_used_at = some 5000;
  replaced_by_id = some 3;
}

abbrev second : RefreshTokenEntity
second = record {
  id = 3;
  token_hash = "b";
  user_id = 7;
  role = user;
  expires_at = 15000;
  revoked_at = none;
  last_used_at = none;
  replaced_by_id = none;
  created_at = 5000;
}

abbrev refreshed : Contents RefreshTokenEntity
refreshed = record { rows = second ∷ foreign ∷ rotated_row ∷ []; next_id = 4 }

abbrev first_result : RefreshTokenRotateResult
first_result = record { token = "b"; expires_at = 15000; user_id = 7; role = user }

first_rotation : rotate memory hash 10 (at 5000) "a" "b" signed_in ≡ (ok first_result, refreshed)
unfolding rotate check lookup exchange find_by_token new_row
first_rotation = refl

expired_rotation : (rotate memory hash 10 (at 9000) "a" "b" signed_in).0 ≡ throw invalid
unfolding rotate check lookup exchange find_by_token
expired_rotation = refl

text_ne : (s t : String) → str_eq s t ≡ false → s ≢ t
text_ne s t h e = cc ((eq_iff s t).1 e, h)

-- Somebody logs in, and the successor is logged out, before the replay.
abbrev later : Contents RefreshTokenEntity
later = revoke memory hash 10 5900 "b" (issue memory hash 10 5800 5801 "e" 9 user refreshed).1

between : Replays.Reach memory hash 10 "a" refreshed later
between =
    Replays.next
      (Replays.next Replays.here (Replays.issues 5800 5801 "e" 9 user (text_ne "a" "e" refl)))
      (Replays.revokes 5900 "b")

rotate_replay_example :
    ((rotate memory hash 10 (at 6000) "a" "c" later).0 ≡ throw invalid)
    × (live memory hash 10 7 user (rotate memory hash 10 (at 6000) "a" "c" later).1 ≡ 0)
    × ((user_id : ℕ) (role : Role)
        → (first_result.user_id ≢ user_id) ⊎ (first_result.role ≢ role)
        → live memory hash 10 user_id role (rotate memory hash 10 (at 6000) "a" "c" later).1
          ≡ live memory hash 10 user_id role later)
rotate_replay_example =
    rotate_replay memory hash 10 "a" (at 5000) (at 6000) "b" "c" signed_in first_result refreshed
      later (text_ne "a" "b" refl) first_rotation between

won_exchange : (exchange memory hash 10 (at 5000) first "b" signed_in).0 ≡ ok tt
unfolding exchange new_row
won_exchange = refl

abbrev raced : Contents RefreshTokenEntity
raced =
    prune_expired_tokens memory hash 10 100
      (exchange memory hash 10 (at 5001) first "c"
        (exchange memory hash 10 (at 5000) first "b" signed_in).1).1

exchange_once_example :
    ((exchange memory hash 10 (at 5002) first "d" raced).0 ≡ throw invalid)
    × ((exchange memory hash 10 (at 5002) first "d" raced).1.rows ≡ raced.rows)
exchange_once_example =
    exchange_once memory hash 10 (at 5000) (at 5002) first first "b" "d" signed_in raced
      (omega arith) won_exchange (next (next here (exchanges (at 5001) first "c")) (prunes 100))
      refl

revoke_all-rotate_example : ¬ ((admin_result.user_id ≡ 7) × (admin_result.role ≡ user))
revoke_all-rotate_example =
    revoke_all-rotate memory hash 10 4000 7 user (at 5000) "z" "y" signed_in admin_result admin_kept

found_rotated : find_by_token memory hash "a" refreshed ≡ some rotated_row
unfolding find_by_token
found_rotated = refl

prune_forgets_reuse_example :
    (live memory hash 10 7 user (rotate memory hash 10 (at 9500) "a" "c" refreshed).1 ≡ 0)
    × (rotate memory hash 10 (at 9500) "a" "c" (prune_expired_tokens memory hash 10 9400 refreshed)
        ≡ (throw invalid, prune_expired_tokens memory hash 10 9400 refreshed))
prune_forgets_reuse_example =
    prune_forgets_reuse memory hash 10 9400 (at 9500) "a" "c" refreshed rotated_row
      (text_ne "a" "" refl) refl found_rotated refl (omega arith)

-- After the pruning the thief's replay leaves the successor live.
successor_stays_live :
    live memory hash 10 7 user
      (rotate memory hash 10
        (at 9500)
        "a"
        "c"
        (prune_expired_tokens memory hash 10 9400 refreshed)).1
    ≡ 1
unfolding rotate check lookup find_by_token prune_expired_tokens delete_expired_before
successor_stays_live = refl
