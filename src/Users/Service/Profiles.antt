-- ===== src/Users/Service/Profiles.antt =====
-- Logins and profiles: src/modules/users/services/user.service.ts.
use nestjs_starter.Prelude.{
  ℕ, ◌≡◌, refl, ap, ◌∙◌, String, str_eq, eq_refl, Bool, some, Option-cases, Bool-cases, inl, inr,
  arith, find, if◌then◌else◌,
}
use nestjs_starter.Exec.{ok, throw, bad_request, conflict, tr}
use nestjs_starter.Database.{Table}
use nestjs_starter.Cache.{CacheDriver}
use nestjs_starter.Guards.{Principal}
use nestjs_starter.RefreshTokens.{RefreshTokenEntity}
use nestjs_starter.Users.{UserEntity, stub, has_phone, find_by_id, find_by_phone}
use nestjs_starter.Users.Repository.{IsOrdered, find_by_id-merged}
use nestjs_starter.Users.Service.{
  CompleteUserProfileDto, CreateUserDto, World, complete_fields, find_by_id_or_fail, save_merged,
  invalidate_auth_cache, insert_user, create_if_new, assert_city_exists,
  find_one_or_create_by_phone, complete_profile, create_by_admin,
}

module _ (T : Table UserEntity) (K : Table RefreshTokenEntity) (D : CacheDriver Principal)
    (sha256 : String → String) (ttl_seconds : ℕ) (city_exists : ℕ → Bool) where
  -- the user with the phone after an insertion of it
  find-inserted :
      (db : T.Db) (make : ℕ → UserEntity) (phone : String)
      → (make (T.next_id db)).phone ≡ phone
      → find_by_phone T phone (T.insert make db) ≡ some (make (T.next_id db))
  unfolding find_by_phone
  find-inserted db make phone made =
      ap (find (has_phone phone)) (T.rows-insert make db)
      ∙ ap (λ b. if b then some (make (T.next_id db)) else find (has_phone phone) (T.rows db))
          (ap (λ p. str_eq p phone) made ∙ eq_refl phone)

  -- Logging in by phone always returns a user, and a second login returns the same user and
  -- changes nothing.
  pub find_or_create-idempotent :
      (phone : String) (w : World T K D sha256 ttl_seconds city_exists)
      → let first = find_one_or_create_by_phone T K D sha256 ttl_seconds city_exists phone w in
        (entity : UserEntity) × (first.0 ≡ ok entity)
        × (find_one_or_create_by_phone T K D sha256 ttl_seconds city_exists phone first.1
            ≡ (ok entity, first.1))
  unfolding find_one_or_create_by_phone create_if_new insert_user
  find_or_create-idempotent phone w = elim (Option-cases (find_by_phone T phone w.users)) [
    | inr (existing, f) ↦ simp f (existing, refl, refl)
    | inl n ↦ simp n (
      stub phone (T.next_id w.users),
      refl,
      simp (find-inserted w.users (stub phone) phone refl) refl,
    )
  ]

  pub find_or_create-existing :
      (phone : String) (w : World T K D sha256 ttl_seconds city_exists) (existing : UserEntity)
      → find_by_phone T phone w.users ≡ some existing
      → find_one_or_create_by_phone T K D sha256 ttl_seconds city_exists phone w ≡ (ok existing, w)
  unfolding find_one_or_create_by_phone create_if_new
  find_or_create-existing phone w existing f = simp f refl

  -- A completed profile cannot be completed again: after a success, the next completion of that
  -- user is refused and leaves everything as it was.
  pub complete_profile-complete_profile :
      (id : ℕ) (dto dto' : CompleteUserProfileDto) (w : World T K D sha256 ttl_seconds city_exists)
      (saved : UserEntity)
      → IsOrdered T w.users
      → (complete_profile T K D sha256 ttl_seconds city_exists id dto w).0 ≡ ok saved
      → complete_profile T K D sha256 ttl_seconds city_exists id dto'
          (complete_profile T K D sha256 ttl_seconds city_exists id dto w).1
        ≡ (
          throw (bad_request (tr "user.errors.profile_already_completed")),
          (complete_profile T K D sha256 ttl_seconds city_exists id dto w).1,
        )
  unfolding complete_profile find_by_id_or_fail save_merged assert_city_exists invalidate_auth_cache
  complete_profile-complete_profile id dto dto' w saved ordered e =
      elim (Option-cases (find_by_id T id w.users)) [
        | inl n ↦ absurd (ground (arith, n, e))
        | inr (current, f) ↦ elim (Bool-cases current.is_profile_completed) [
          | inl c ↦ absurd (ground (arith, f, c, e))
          | inr c ↦ elim (Bool-cases (city_exists dto.city_id)) [
            | inl k ↦
                simp
                  (
                    f,
                    c,
                    k,
                    find_by_id-merged T w.users id current (complete_fields dto) f ordered
                        (λ x. refl),
                  )
                  refl
            | inr k ↦ absurd (ground (arith, f, c, k, e))
          ]
        ]
      ]

  -- An admin cannot create a second user with a phone.
  pub create_by_admin-create_by_admin :
      (dto dto' : CreateUserDto) (w : World T K D sha256 ttl_seconds city_exists)
      (created : UserEntity)
      → dto'.phone ≡ dto.phone
      → (create_by_admin T K D sha256 ttl_seconds city_exists dto w).0 ≡ ok created
      → create_by_admin T K D sha256 ttl_seconds city_exists dto'
          (create_by_admin T K D sha256 ttl_seconds city_exists dto w).1
        ≡ (
          throw (conflict (tr "user.errors.phone_taken")),
          (create_by_admin T K D sha256 ttl_seconds city_exists dto w).1,
        )
  unfolding create_by_admin assert_city_exists insert_user
  create_by_admin-create_by_admin dto dto' w created same e =
      elim (Option-cases (find_by_phone T dto.phone w.users)) [
        | inr (existing, f) ↦ absurd (ground (arith, f, e))
        | inl n ↦ elim (Bool-cases (city_exists dto.profile.city_id)) [
          | inl k ↦
              simp
                (
                  n,
                  k,
                  same,
                  find-inserted w.users (λ id. complete_fields dto.profile (stub dto.phone id))
                      dto.phone refl,
                )
                refl
          | inr k ↦ absurd (ground (arith, n, k, e))
        ]
      ]
