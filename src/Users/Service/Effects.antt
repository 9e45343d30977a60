-- ===== src/Users/Service/Effects.antt =====
-- What a call of src/modules/users/services/user.service.ts may do to its tables and its cache.
use nestjs_starter.Prelude.{
  ℕ, ◌≡◌, refl, String, Bool, true, false, Option, none, some, ◌⊎◌, inl, inr, Bool-cases,
  Option-cases, ==→eq,
}
use nestjs_starter.Exec.{HttpException, not_found, tr, ok, throw}
use nestjs_starter.Database.{Table}
use nestjs_starter.Database.Rows.{find_sound}
use nestjs_starter.Domain.{user}
use nestjs_starter.Cache.{CacheDriver}
use nestjs_starter.Cache.Keys.{auth_user}
use nestjs_starter.Guards.{Principal}
use nestjs_starter.RefreshTokens.{RefreshTokenEntity}
use nestjs_starter.Users.{UserEntity, stub, has_id, find_by_id, find_by_phone, merge_and_save}
use nestjs_starter.Users.Service.{
  UpdateUserMeDto, CompleteUserProfileDto, CreateUserDto, city_of, update_fields, complete_fields,
  set_active, World, assert_city_exists, assert_city_given, find_by_id_or_fail,
  invalidate_auth_cache, save_merged, insert_user, create_if_new, find_one_or_create_by_phone,
  update_me, complete_profile, create_by_admin, revoke_sessions, deactivate_by_admin,
  activate_by_admin,
}

module _ (T : Table UserEntity) (K : Table RefreshTokenEntity) (D : CacheDriver Principal)
    (sha256 : String → String) (ttl_seconds : ℕ) (city_exists : ℕ → Bool) where
  -- the account that the call may turn active, the state before, and the state after
  pub data Effect (activates : Option ℕ) (w : World T K D sha256 ttl_seconds city_exists)
      : World T K D sha256 ttl_seconds city_exists → Type 0 where
    nothing : Effect activates w w
    edited :
        (id : ℕ) (current : UserEntity) (merge : UserEntity → UserEntity) (tokens : K.Db)
        → find_by_id T id w.users ≡ some current
        → ((e : UserEntity) → (merge e).id ≡ e.id)
        → ((e : UserEntity) → (merge e).phone ≡ e.phone)
        → ((e : UserEntity)
            → (merge e).is_active ≡ true
            → (e.is_active ≡ true) ⊎ (activates ≡ some id))
        → Effect activates w (record {
          users = merge_and_save T current merge w.users;
          tokens = tokens;
          cache = D.delete (auth_user user id) w.cache;
        })
    inserted :
        (phone : String) (make : ℕ → UserEntity)
        → find_by_phone T phone w.users ≡ none
        → ((id : ℕ) → (make id).id ≡ id)
        → ((id : ℕ) → (make id).phone ≡ phone)
        → Effect activates w (record w { users = T.insert make w.users })

  module _ (w : World T K D sha256 ttl_seconds city_exists) where
    pub deactivate_by_admin-Effect :
        (now id : ℕ)
        → Effect none w (deactivate_by_admin T K D sha256 ttl_seconds city_exists now id w).1
    unfolding deactivate_by_admin find_by_id_or_fail save_merged revoke_sessions
        invalidate_auth_cache
    deactivate_by_admin-Effect now id = elim (Option-cases (find_by_id T id w.users)) [
      | inl n ↦ simp n nothing
      | inr (current, f) ↦
          simp f (edited id current (set_active false) _ f (λ e. refl) (λ e. refl) (λ e a. cc))
    ]

    pub activate_by_admin-Effect :
        (id : ℕ)
        → Effect (some id) w (activate_by_admin T K D sha256 ttl_seconds city_exists id w).1
    unfolding activate_by_admin find_by_id_or_fail save_merged invalidate_auth_cache
    activate_by_admin-Effect id = elim (Option-cases (find_by_id T id w.users)) [
      | inl n ↦ simp n nothing
      | inr (current, f) ↦
          simp f (edited id current (set_active true) _ f (λ e. refl) (λ e. refl) (λ e a. inr refl))
    ]

    id_of :
        (id : ℕ) (current : UserEntity) → find_by_id T id w.users ≡ some current → current.id ≡ id
    unfolding find_by_id
    id_of id current f = ==→eq current.id id (find_sound (has_id id) (T.rows w.users) f)

    city_checked :
        (city : Option ℕ)
        → (assert_city_given T K D sha256 ttl_seconds city_exists city w ≡ (ok tt, w))
          ⊎ ((e : HttpException) × (assert_city_given T K D sha256 ttl_seconds city_exists city w
                ≡ (throw e, w)))
    unfolding assert_city_given assert_city_exists
    city_checked none = inl refl
    city_checked (some city) = elim (Bool-cases (city_exists city)) [
      | inl k ↦ inl (simp k refl)
      | inr k ↦ inr (not_found (tr "city.errors.not_found"), simp k refl)
    ]

    pub update_me-Effect :
        (id : ℕ) (dto : UpdateUserMeDto)
        → Effect none w (update_me T K D sha256 ttl_seconds city_exists id dto w).1
    unfolding update_me find_by_id_or_fail save_merged invalidate_auth_cache
    update_me-Effect id dto = elim (city_checked (city_of dto)) [
      | inl c ↦ elim (Option-cases (find_by_id T id w.users)) [
        | inl n ↦ simp (c, n) nothing
        | inr (current, f) ↦
            simp (c, f, id_of id current f)
              (edited id current (update_fields dto) w.tokens f (λ e. refl) (λ e. refl)
                (λ e a. inl a))
      ]
      | inr (e, c) ↦ simp c nothing
    ]

    pub complete_profile-Effect :
        (id : ℕ) (dto : CompleteUserProfileDto)
        → Effect none w (complete_profile T K D sha256 ttl_seconds city_exists id dto w).1
    unfolding complete_profile assert_city_exists find_by_id_or_fail save_merged
        invalidate_auth_cache
    complete_profile-Effect id dto = elim (Option-cases (find_by_id T id w.users)) [
      | inl n ↦ simp n nothing
      | inr (current, f) ↦ elim (Bool-cases current.is_profile_completed) [
        | inl c ↦ simp (f, c) nothing
        | inr c ↦ elim (Bool-cases (city_exists dto.city_id)) [
          | inl k ↦
              simp (f, c, k, id_of id current f)
                (edited id current (complete_fields dto) w.tokens f (λ e. refl) (λ e. refl)
                  (λ e a. inl a))
          | inr k ↦ simp (f, c, k) nothing
        ]
      ]
    ]

    pub create_by_admin-Effect :
        (dto : CreateUserDto)
        → Effect none w (create_by_admin T K D sha256 ttl_seconds city_exists dto w).1
    unfolding create_by_admin assert_city_exists insert_user
    create_by_admin-Effect dto = elim (Option-cases (find_by_phone T dto.phone w.users)) [
      | inl n ↦ elim (Bool-cases (city_exists dto.profile.city_id)) [
        | inl k ↦ simp (n, k) (inserted dto.phone _ n (λ id. refl) (λ id. refl))
        | inr k ↦ simp (n, k) nothing
      ]
      | inr (existing, f) ↦ simp f nothing
    ]

    pub find_one_or_create_by_phone-Effect :
        (phone : String)
        → Effect none w (find_one_or_create_by_phone T K D sha256 ttl_seconds city_exists phone w).1
    unfolding find_one_or_create_by_phone create_if_new insert_user
    find_one_or_create_by_phone-Effect phone = elim (Option-cases (find_by_phone T phone w.users)) [
      | inl n ↦ simp n (inserted phone (stub phone) n (λ id. refl) (λ id. refl))
      | inr (existing, f) ↦ simp f nothing
    ]
