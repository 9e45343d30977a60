-- ===== src/Users/Service/Disabling.antt =====
-- An account that `deactivateByAdmin` of src/modules/users/services/user.service.ts has disabled
-- stays disabled until it is activated.
use nestjs_starter.Prelude.{
  ℕ, Bool, false, Bool-cases, ◌==◌, ==→eq, ==_refl, ◌≡◌, ◌≢◌, ap, sym, ◌∙◌, String, Option, none,
  some, All, List, [], ◌∷◌, inl, inr,
}
use nestjs_starter.Database.{Table}
use nestjs_starter.Cache.{CacheDriver}
use nestjs_starter.Guards.{Principal, plain, DecodedAccessTokenPayload}
use nestjs_starter.RefreshTokens.{RefreshTokenEntity}
use nestjs_starter.Users.{UserEntity, find_by_id, merge_and_save}
use nestjs_starter.Users.Repository.{find_by_id-merged, find_by_id-other, find_by_id-insert}
use nestjs_starter.Users.Service.Effects.{
  Effect, nothing, edited, inserted, deactivate_by_admin-Effect, activate_by_admin-Effect,
  update_me-Effect, complete_profile-Effect, create_by_admin-Effect,
  find_one_or_create_by_phone-Effect,
}
use nestjs_starter.Users.Service.Soundness.{
  Call, request, login, update, complete, create, deactivate, activate, W, perform, run, activates,
  IsSound, perform-IsSound,
}

module _ (T : Table UserEntity) (K : Table RefreshTokenEntity) (D : CacheDriver Principal)
    (sha256 : String → String) (ttl_seconds : ℕ) (city_exists : ℕ → Bool)
    (verify_access_token : String → Option DecodedAccessTokenPayload)
    (admins : ℕ → Option Principal) where
  abbrev World' : Type 0
  World' = W T K D sha256 ttl_seconds city_exists verify_access_token admins

  abbrev Sound : World' → Type 0
  Sound = IsSound T K D sha256 ttl_seconds city_exists verify_access_token admins

  -- the account exists and is disabled
  abbrev pub IsDisabled : ℕ → World' → Type 0
  IsDisabled id w = (e : UserEntity) × (find_by_id T id w.users ≡ some e) × (e.is_active ≡ false)

  is_on : Option UserEntity → Bool
  is_on none = false
  is_on (some e) = e.is_active

  effect-IsDisabled :
      (act : Option ℕ) (id : ℕ) (w w' : World')
      → Effect T K D sha256 ttl_seconds city_exists act w w'
      → act ≢ some id
      → Sound w
      → IsDisabled id w
      → IsDisabled id w'
  unfolding is_on
  effect-IsDisabled act id w w' nothing other sound off = off
  effect-IsDisabled act id w w' (edited i current merge tokens found same_id same_phone active)
        other sound (e, f, off) =
      elim (Bool-cases (id == i)) [
        | inl same ↦
            let at : id ≡ i = ==→eq id i same in
            let one : some current ≡ some e =
              (sym found ∙ sym (ap (λ k. find_by_id T k w.users) at) ∙ f) in
            (
              merge current,
              ap (λ k. find_by_id T k (merge_and_save T current merge w.users)) at
                  ∙ find_by_id-merged T w.users i current merge found sound.ordered same_id,
              elim (Bool-cases (merge current).is_active) [
                | inl on ↦ elim (active current on) [
                  | inl was ↦ absurd (cc (was, off, ap is_on one))
                  | inr allowed ↦ absurd (other (allowed ∙ ap some (sym at)))
                ]
                | inr off' ↦ off'
              ],
            )
        | inr differs ↦ (
          e,
          find_by_id-other T w.users i current merge found sound.ordered same_id id
                (λ h. cc (differs, ap (λ k. k == i) h, ==_refl i))
              ∙ f,
          off,
        )
      ]
  effect-IsDisabled act id w w' (inserted phone make absent id_made phone_made) other sound
        (e, f, off) =
      (e, find_by_id-insert T w.users make id e id_made sound.ordered f, off)

  perform-IsDisabled :
      (call : Call) (id : ℕ) (w : World')
      → activates T K D sha256 ttl_seconds city_exists verify_access_token admins call ≢ some id
      → Sound w
      → IsDisabled id w
      → IsDisabled id
          (perform T K D sha256 ttl_seconds city_exists verify_access_token admins call w)
  perform-IsDisabled (request t endpoint r) id w = λ other sound off. off
  perform-IsDisabled (login phone) id w =
      effect-IsDisabled none id w _
        (find_one_or_create_by_phone-Effect T K D sha256 ttl_seconds city_exists w phone)
  perform-IsDisabled (update i dto) id w =
      effect-IsDisabled none id w _ (update_me-Effect T K D sha256 ttl_seconds city_exists w i dto)
  perform-IsDisabled (complete i dto) id w =
      effect-IsDisabled none id w _
        (complete_profile-Effect T K D sha256 ttl_seconds city_exists w i dto)
  perform-IsDisabled (create dto) id w =
      effect-IsDisabled none id w _
        (create_by_admin-Effect T K D sha256 ttl_seconds city_exists w dto)
  perform-IsDisabled (deactivate now i) id w =
      effect-IsDisabled none id w _
        (deactivate_by_admin-Effect T K D sha256 ttl_seconds city_exists w now i)
  perform-IsDisabled (activate i) id w =
      effect-IsDisabled (some i) id w _
        (activate_by_admin-Effect T K D sha256 ttl_seconds city_exists w i)

  pub run-IsDisabled :
      ((p : Principal) → plain (D.copy p) ≡ plain p)
      → (calls : List Call) (id : ℕ) (w : World')
      → All
          (λ call.
            activates T K D sha256 ttl_seconds city_exists verify_access_token admins call
            ≢ some id)
          calls
      → Sound w
      → IsDisabled id w
      → IsDisabled id (run T K D sha256 ttl_seconds city_exists verify_access_token admins calls w)
  run-IsDisabled copies [] id w none_activates sound off = off
  run-IsDisabled copies (call ∷ calls) id w (other, others) sound off =
      run-IsDisabled copies calls id
        (perform T K D sha256 ttl_seconds city_exists verify_access_token admins call w) others
        (perform-IsSound T K D sha256 ttl_seconds city_exists verify_access_token admins copies call
          w sound)
        (perform-IsDisabled call id w other sound off)
