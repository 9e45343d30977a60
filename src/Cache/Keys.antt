-- ===== src/Cache/Keys.antt =====
-- src/infrastructure/cache/cache.constants.ts: the keys, with the rendering of an id as the
-- template literal writes it.
use Prim.Native.Char.{Char, code}
use Prim.Native.String.{[], ◌∷◌, ◌++◌, char_at}
use Prim.Native.String.append
use text.Mathlib.TextLemmas.{append_cancel_left}
use nestjs_starter.Prelude.{
  Bool-cases, ltb→lt, inl, inr, ℕ, zero, suc, ◌+◌, ◌-◌, ◌*◌, ◌/◌, ◌%◌, ◌<◌, String, ◌≡◌, refl, sym,
  ap, ◌∙◌, ltb, if◌then◌else◌, arith,
}
use nestjs_starter.Domain.{Role, admin, user, role_value}

abbrev digit : ℕ → Char
digit n = char_at "0123456789" n

code-digit : (n : ℕ) → n < 10 → code (digit n) ≡ b'0' + n
code-digit zero h = refl
code-digit (suc zero) h = refl
code-digit (suc (suc zero)) h = refl
code-digit (suc (suc (suc zero))) h = refl
code-digit (suc (suc (suc (suc zero)))) h = refl
code-digit (suc (suc (suc (suc (suc zero))))) h = refl
code-digit (suc (suc (suc (suc (suc (suc zero)))))) h = refl
code-digit (suc (suc (suc (suc (suc (suc (suc zero))))))) h = refl
code-digit (suc (suc (suc (suc (suc (suc (suc (suc zero)))))))) h = refl
code-digit (suc (suc (suc (suc (suc (suc (suc (suc (suc zero))))))))) h = refl
code-digit (suc (suc (suc (suc (suc (suc (suc (suc (suc (suc n)))))))))) h = absurd (omega arith)

-- the digits of a number before a text; the fuel is at least the number
render : ℕ → ℕ → String → String
render zero n s = s
render (suc fuel) n s =
    let rest = render fuel (n / 10) (digit (n % 10) ∷ s) in if ltb n 10 then digit n ∷ s else rest

-- an id in a template literal
unfoldable pub decimal : ℕ → String
unfolding render
decimal n = render (suc n) n []

-- `auth:user:${role}:${userId}`
pub auth_user : Role → ℕ → String
auth_user role user_id = "auth:user:" ++ (role_value role ++ (":" ++ decimal user_id))

read : ℕ → String → ℕ
read n [] = n
read n (c ∷ s) = read (n * 10 + code c - b'0') s

read-digit : (n m k : ℕ) (s : String) → n < 10 → m * 10 + n ≡ k → read m (digit n ∷ s) ≡ read k s
unfolding read
read-digit n m k s h e =
    let value : m * 10 + code (digit n) - b'0' ≡ k = (omega (arith, code-digit n h, e)) in
    ap (λ k. read k s) value

read-render : (fuel n : ℕ) (s : String) → n < fuel → read 0 (render fuel n s) ≡ read n s
unfolding render
read-render zero n s h = absurd (omega arith)
read-render (suc fuel) n s h = elim (Bool-cases (ltb n 10)) [
  | inl small ↦ rw small (read-digit n 0 n s (ltb→lt n 10 small) (omega arith))
  | inr large ↦ rw large (
      read-render fuel (n / 10) (digit (n % 10) ∷ s) (ground arith)
      ∙ read-digit (n % 10) (n / 10) n s (omega arith) (omega arith))
]

decimal_inj : (m n : ℕ) → decimal m ≡ decimal n → m ≡ n
unfolding decimal read
decimal_inj m n e =
    sym (read-render (suc m) m [] (omega arith))
    ∙ ap (read 0) e
    ∙ read-render (suc n) n [] (omega arith)

first : String → ℕ
first [] = 0
first (c ∷ s) = code c

first-admin : (s : String) → first ("admin" ++ s) ≡ 97
unfolding first
first-admin s = ap first (append.cons (char_at "a" 0) "dmin" s)

first-user : (s : String) → first ("user" ++ s) ≡ 117
unfolding first
first-user s = ap first (append.cons (char_at "u" 0) "ser" s)

after_colon : (m n : ℕ) → ":" ++ decimal m ≡ ":" ++ decimal n → m ≡ n
after_colon m n e = decimal_inj m n (append_cancel_left ":" (decimal m) (decimal n) e)

-- Two accounts have two keys.
pub auth_user_inj : (r r' : Role) (m n : ℕ) → auth_user r m ≡ auth_user r' n → (r ≡ r') × (m ≡ n)
unfolding auth_user
auth_user_inj r r' m n e = go r r' (
    append_cancel_left "auth:user:" (role_value r ++ (":" ++ decimal m))
      (role_value r' ++ (":" ++ decimal n)) e)
  where
    go :
        (r r' : Role)
        → role_value r ++ (":" ++ decimal m) ≡ role_value r' ++ (":" ++ decimal n)
        → (r ≡ r') × (m ≡ n)
    go admin admin e = (refl, after_colon m n (append_cancel_left "admin" _ _ e))
    go user user e = (refl, after_colon m n (append_cancel_left "user" _ _ e))
    go admin user e =
        absurd
          (omega (arith, ap first e, first-admin (":" ++ decimal m), first-user (":" ++ decimal n)))
    go user admin e =
        absurd
          (omega (arith, ap first e, first-admin (":" ++ decimal n), first-user (":" ++ decimal m)))
