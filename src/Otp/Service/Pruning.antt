-- ===== src/Otp/Service/Pruning.antt =====
-- `pruneStaleOtps` of src/modules/otps/services/otp.service.ts against the rolling counts.
use nestjs_starter.Prelude.{ℕ, ◌≤◌, ◌≡◌, String}
use nestjs_starter.Database.{Table}
use nestjs_starter.Otp.{OtpPurpose, OtpEntity}
use nestjs_starter.Otp.Service.{OtpConfig, Dispatch, prune_stale_otps}
use nestjs_starter.Otp.Service.Cases.{failures, requests}
use nestjs_starter.Otp.Service.Caps.{failures-prune, requests-prune}

module _ (T : Table OtpEntity) (sha256 : String → String) (send_otp : String → String → Dispatch)
    (c : OtpConfig) where
  -- Pruning resets no count in flight: from the pruning on, every phone's failed attempts in the
  -- lock window and its issues in the issue window are counted as if nothing had been deleted.
  pub prune_neutral :
      (now t : ℕ) (phone : String) (purpose : OtpPurpose) (db : T.Db)
      → now ≤ t
      → (failures T sha256 send_otp c t phone purpose (prune_stale_otps T sha256 send_otp c now db)
          ≡ failures T sha256 send_otp c t phone purpose db)
        × (requests T sha256 send_otp c t phone purpose
              (prune_stale_otps T sha256 send_otp c now db)
            ≡ requests T sha256 send_otp c t phone purpose db)
  prune_neutral now t phone purpose db h = (
    failures-prune T sha256 send_otp c now t phone purpose db h,
    requests-prune T sha256 send_otp c now t phone purpose db h,
  )
