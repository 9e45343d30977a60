-- ===== src/RefreshTokens/Service/Samples.antt =====
-- Rows and a rotation to run the refresh-token service on, with tokens as their own hashes.
use nestjs_starter.Prelude.{ℕ, ◌≡◌, refl, String, none, [], ◌∷◌}
use nestjs_starter.Exec.{ok}
use nestjs_starter.Database.Memory.{Contents, memory}
use nestjs_starter.Domain.{Role, admin, user}
use nestjs_starter.RefreshTokens.{RefreshTokenEntity, find_by_token, revoke_all_rows}
use nestjs_starter.RefreshTokens.Service.{
  RotateTimes, RefreshTokenRotateResult, new_row, lookup, check, exchange, rotate,
  revoke_all_for_user,
}

abbrev pub hash : String → String
hash s = s

abbrev pub at : ℕ → RotateTimes
at t = record { reuse_revocation = t; expiry_check = t; expiry = t; revocation = t; insertion = t }

abbrev pub row_of : ℕ → String → ℕ → Role → ℕ → RefreshTokenEntity
row_of id token user_id role expires_at = record {
  id = id;
  token_hash = token;
  user_id = user_id;
  role = role;
  expires_at = expires_at;
  revoked_at = none;
  last_used_at = none;
  replaced_by_id = none;
  created_at = 0;
}

abbrev pub first : RefreshTokenEntity
first = row_of 1 "a" 7 user 9000

abbrev pub foreign : RefreshTokenEntity
foreign = row_of 2 "z" 7 admin 9000

abbrev pub signed_in : Contents RefreshTokenEntity
signed_in = record { rows = foreign ∷ first ∷ []; next_id = 3 }

abbrev pub admin_result : RefreshTokenRotateResult
admin_result = record { token = "y"; expires_at = 15000; user_id = 7; role = admin }

pub admin_kept :
    (rotate memory hash 10
      (at 5000)
      "z"
      "y"
      (revoke_all_for_user memory hash 10 4000 7 user signed_in)).0
    ≡ ok admin_result
unfolding rotate check lookup exchange find_by_token new_row revoke_all_for_user revoke_all_rows
admin_kept = refl
