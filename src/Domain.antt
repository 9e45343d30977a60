-- ===== src/Domain.antt =====
-- src/domain: the roles of accounts.
use nestjs_starter.Prelude.{Bool, true, false, ◌≡◌, ◌↔◌, refl, String}

pub data Role : Type 0 where
  admin user : Role

abbrev pub role_eq : Role → Role → Bool
role_eq admin admin = true
role_eq user user = true
role_eq _ _ = false

pub role_eq_iff : (a b : Role) → (role_eq a b ≡ true) ↔ (a ≡ b)
role_eq_iff admin admin = (λ _. refl, λ _. refl)
role_eq_iff admin user = (λ e. cc, λ e. cc)
role_eq_iff user admin = (λ e. cc, λ e. cc)
role_eq_iff user user = (λ _. refl, λ _. refl)

-- the enum's values
abbrev pub role_value : Role → String
role_value admin = "admin"
role_value user = "user"
