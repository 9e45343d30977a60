-- ===== src/Admins/Passwords.antt =====
-- src/shared/utils/password.util.ts, and `trim` of JavaScript. The hash and its comparison are
-- bcrypt's, and parameters where they are used.
use Prim.Native.Char.{code}
use Prim.Native.String.{[] as nil, ◌∷◌ as char_then}
use nestjs_starter.Prelude.{
  ℕ, String, Bool, true, false, ◌&&◌, ◌||◌, List, [], ◌∷◌, leb, ◌==◌, if◌then◌else◌,
}
use nestjs_starter.Text.{is_empty}

-- JavaScript's white space and line terminators
abbrev pub is_white : ℕ → Bool
is_white n =
    (leb 9 n && leb n 13)
    || n == 32
    || n == 160
    || n == 5760
    || (leb 8192 n && leb n 8202)
    || n == 8232
    || n == 8233
    || n == 8239
    || n == 8287
    || n == 12288
    || n == 65279

abbrev pub trim_left : String → String
trim_left nil = nil
trim_left (char_then c s) =
    let rest = trim_left s in if is_white (code c) then rest else char_then c s

abbrev pub trim_right : String → String
trim_right nil = nil
trim_right (char_then c s) =
    let rest = trim_right s in if is_white (code c) && is_empty rest then nil else char_then c rest

-- `s.trim()`
abbrev pub trim : String → String
trim s = trim_left (trim_right s)

-- Each test accepts a character of the text, from its start on.
abbrev pub starts_with : List (ℕ → Bool) → String → Bool
starts_with [] s = true
starts_with (p ∷ ps) nil = false
starts_with (p ∷ ps) (char_then c s) = let rest = starts_with ps s in p (code c) && rest

abbrev pub is_dollar : ℕ → Bool
is_dollar n = n == 36

abbrev pub is_digit : ℕ → Bool
is_digit n = leb 48 n && leb n 57

-- `BCRYPT_HASH_PATTERN`: a dollar, 2, one of a, b, y, a dollar, two digits and a dollar
abbrev pub bcrypt_hash_pattern : List (ℕ → Bool)
bcrypt_hash_pattern =
    is_dollar
    ∷ (λ n. n == 50)
    ∷ (λ n. n == 97 || n == 98 || n == 121)
    ∷ is_dollar
    ∷ is_digit
    ∷ is_digit
    ∷ is_dollar
    ∷ []

abbrev pub is_password_hashed : String → Bool
is_password_hashed value = starts_with bcrypt_hash_pattern value
