-- ===== src/Admins/Service/Saved.antt =====
-- What an `updateMe` of src/modules/admins/services/admin.service.ts that succeeded leaves for the
-- logins: the row under the saved username, and the password that the hook made.
use nestjs_starter.Prelude.{
  ℕ, ◌≡◌, refl, sym, ap, ◌∙◌, subst, String, Bool, true, false, ◌||◌, some, Bool-cases, inl, inr,
  ◌≤◌, count_where, find, eq_refl, List, eq_iff, ==→eq,
}
use nestjs_starter.Exec.{Result, ok}
use nestjs_starter.Database.{Table}
use nestjs_starter.Domain.{Role}
use nestjs_starter.Cache.{CacheDriver}
use nestjs_starter.Guards.{Principal}
use nestjs_starter.RefreshTokens.{RefreshTokenEntity}
use nestjs_starter.Lookups.{present_or}
use nestjs_starter.Admins.{
  AdminEntity, has_id, find_by_id, find_by_username, has_username, hash_password_on_save,
}
use nestjs_starter.Admins.Service.{
  UpdateMeDto, UpdateTimes, World, is_changing_credentials, revoke_if, merge,
}
use nestjs_starter.Text.{is_empty}
use nestjs_starter.Lookups.Indexes.{find-none_of_checked, find-written}
use nestjs_starter.Database.Rows.{find_sound}
use nestjs_starter.Admins.Passwords.{trim, is_password_hashed}
use nestjs_starter.Admins.Service.Updates.{Update, refused, updated, written, settled}

found_by_own_id :
    (id : ℕ) (e : AdminEntity) (rows : List AdminEntity)
    → find (has_id id) rows ≡ some e
    → find (has_id e.id) rows ≡ some e
found_by_own_id id e rows f =
    subst (λ i. find (has_id i) rows ≡ some e) (sym (==→eq e.id id (find_sound (has_id id) rows f)))
      f

-- what the hook makes of a plain password, and what it leaves alone
saved_password :
    (bcrypt_hash : String → String → String) (salt : String) (now : ℕ) (entity : AdminEntity)
    → is_empty entity.password ≡ false
    → is_password_hashed entity.password ≡ false
    → (hash_password_on_save bcrypt_hash salt now entity).password
      ≡ bcrypt_hash salt (trim entity.password)
saved_password bcrypt_hash salt now entity e h = rw (e, h) refl

saved_username :
    (bcrypt_hash : String → String → String) (salt : String) (now : ℕ) (entity : AdminEntity)
    → (hash_password_on_save bcrypt_hash salt now entity).username ≡ entity.username
saved_username bcrypt_hash salt now entity =
    elim (Bool-cases (is_empty entity.password || is_password_hashed entity.password)) [
      | inl t ↦ rw t refl
      | inr f ↦ rw f refl
    ]

module _ (T : Table AdminEntity) (K : Table RefreshTokenEntity) (D : CacheDriver Principal)
    (sha256 : String → String) (ttl_seconds : ℕ) (bcrypt_hash : String → String → String)
    (bcrypt_compare : String → String → Bool) (create_access_token : ℕ → Role → String) where
  abbrev World' : Type 0
  World' = World T K D sha256 ttl_seconds bcrypt_hash bcrypt_compare create_access_token

  abbrev Update' : UpdateTimes → ℕ → UpdateMeDto → World' → Result AdminEntity → World' → Type 0
  Update' = Update T K D sha256 ttl_seconds bcrypt_hash bcrypt_compare create_access_token

  abbrev pub IsDistinct : T.Db → Type 0
  IsDistinct db = (name : String) → count_where (has_username name) (T.rows db) ≤ 1

  kept :
      (w : World') (flag : Bool) (now id : ℕ)
      → (revoke_if T K D sha256 ttl_seconds bcrypt_hash bcrypt_compare create_access_token flag now
          id w).admins
        ≡ w.admins
  kept w true now id = refl
  kept w false now id = refl

  pub found_after :
      (t : UpdateTimes) (id : ℕ) (dto : UpdateMeDto) (w : World') (r : Result AdminEntity)
      (w' : World') (saved : AdminEntity)
      → Update' t id dto w r w'
      → r ≡ ok saved
      → IsDistinct w.admins
      → find_by_username T saved.username w'.admins ≡ some saved
  unfolding find_by_username find_by_id
  found_after t id dto w r w' saved (refused e) s distinct = absurd (cc)
  found_after t id dto w r w' saved (updated current f knows free) s distinct =
      let e =
        written T K D sha256 ttl_seconds bcrypt_hash bcrypt_compare create_access_token t id dto w
          current in
      let same : e ≡ saved = cc in
      let name : e.username ≡ present_or dto.username current.username =
        (saved_username bcrypt_hash t.salt t.hashed_at (merge dto current)) in
      let alone =
        find-none_of_checked has_username (has_id current.id) dto.username current.username
          (T.rows w.admins) current (found_by_own_id id current (T.rows w.admins) f)
          (eq_refl current.username) distinct free in
      let there =
        find-written (has_username (present_or dto.username current.username)) (has_id current.id) e
          (T.rows w.admins) current (found_by_own_id id current (T.rows w.admins) f)
          ((eq_iff e.username (present_or dto.username current.username)).1 name) alone in
      subst
        (λ (x : AdminEntity).
          find (has_username x.username) (
            T.rows
              (settled T K D sha256 ttl_seconds bcrypt_hash bcrypt_compare create_access_token t id
                dto w
                (record w { admins = T.update (has_id current.id) (λ row. e) w.admins })).admins)
          ≡ some x)
        same
        (rw
          (
            kept (record w { admins = T.update (has_id current.id) (λ row. e) w.admins })
                (is_changing_credentials dto) t.revoked_at id,
            name,
            T.rows-update (has_id current.id) (λ row. e) w.admins,
          )
          there)

  pub password_after :
      (t : UpdateTimes) (id : ℕ) (dto : UpdateMeDto) (w : World') (r : Result AdminEntity)
      (w' : World') (saved : AdminEntity) (password : String)
      → Update' t id dto w r w'
      → r ≡ ok saved
      → dto.password ≡ some password
      → is_empty password ≡ false
      → is_password_hashed password ≡ false
      → saved.password ≡ bcrypt_hash t.salt (trim password)
  password_after t id dto w r w' saved password (refused e) s p full plain = absurd (cc)
  password_after t id dto w r w' saved password (updated current f knows free) s p full plain =
      let e =
        written T K D sha256 ttl_seconds bcrypt_hash bcrypt_compare create_access_token t id dto w
          current in
      let same : e ≡ saved = cc in
      let given : present_or dto.password current.password ≡ password = (rw p refl) in
      ap (λ (x : AdminEntity). x.password) (sym same)
      ∙ saved_password bcrypt_hash t.salt t.hashed_at (merge dto current) (ap is_empty given ∙ full)
          (ap is_password_hashed given ∙ plain)
      ∙ ap (λ q. bcrypt_hash t.salt (trim q)) given
