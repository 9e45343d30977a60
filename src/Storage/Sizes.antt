-- ===== src/Storage/Sizes.antt =====
-- `parseSize` of src/infrastructure/storage/utils/bytes.util.ts. The product is the exact one:
-- that is JavaScript's, as long as the digits of the amount times the unit stay below 2 ^ 53.
use Prim.Native.Char.{code}
use Prim.Native.String.{[] as nil, ◌∷◌ as char_then, ◌++◌ as append}
use nestjs_starter.Prelude.{
  ℕ, zero, suc, ◌+◌, ◌-◌, ◌*◌, ◌/◌, ◌^◌, String, Bool, ◌&&◌, Option, none, some, ◌==◌, leb,
  if◌then◌else◌,
}
use nestjs_starter.Text.{is_empty}
use nestjs_starter.Storage.{Outcome, done, fail, storage_error}
use nestjs_starter.Storage.Names.{is_space}

abbrev pub is_digit : ℕ → Bool
is_digit c = leb b'0' c && leb c b'9'

-- `\d*`: the number that the digits continue, how many there are, and the rest.
abbrev pub read_digits : ℕ → ℕ → String → ℕ × ℕ × String
read_digits n k nil = (n, k, nil)
read_digits n k (char_then c s) =
    let more = read_digits (n * 10 + (code c - b'0')) (k + 1) s in
    if is_digit (code c) then more else (n, k, char_then c s)

abbrev pub skip_spaces : String → String
skip_spaces nil = nil
skip_spaces (char_then c s) =
    let rest = skip_spaces s in if is_space (code c) then rest else char_then c s

abbrev pub upper : ℕ → ℕ
upper c = if leb b'a' c && leb c b'z' then c - 32 else c

-- `(B|KB|MB|GB|TB)\s*$`, in either case: the unit's multiplier.
abbrev pub read_unit : String → Option ℕ
read_unit nil = none
read_unit (char_then c nil) = if upper (code c) == b'B' then some 1 else none
read_unit (char_then c (char_then d nil)) =
    if upper (code d) == b'B'
    then if upper (code c) == b'K'
      then some 1024
      else if upper (code c) == b'M'
      then some (1024 ^ 2)
      else if upper (code c) == b'G'
      then some (1024 ^ 3)
      else if upper (code c) == b'T'
      then some (1024 ^ 4)
      else none
    else none
read_unit (char_then c (char_then d (char_then e s))) = none

-- `Math.floor(amount * multiplier)` for the digits `n`, of which `k` stand after the point
abbrev pub scaled : ℕ → ℕ → Option ℕ → Option ℕ
scaled n k none = none
scaled n k (some m) = some (n * m / 10 ^ k)

-- `none` where the pattern does not match.
abbrev pub read_amount : String → Option ℕ
read_amount s = whole (read_digits 0 0 s)
  where
    fraction : ℕ × ℕ × String → Option ℕ
    fraction (n, zero, s) = none
    fraction (n, suc k, s) = scaled n (suc k) (read_unit (skip_spaces s))

    after : ℕ → String → Option ℕ
    after n nil = none
    after n (char_then c s) =
        if code c == b'.'
        then fraction (read_digits n 0 s)
        else scaled n 0 (read_unit (skip_spaces (char_then c s)))

    whole : ℕ × ℕ × String → Option ℕ
    whole (n, zero, s) = none
    whole (n, suc k, s) = after n s

abbrev pub trim_spaces_end : String → String
trim_spaces_end nil = nil
trim_spaces_end (char_then c s) =
    let rest = trim_spaces_end s in
    if is_space (code c) && is_empty rest then nil else char_then c rest

unfoldable pub parse_size : String → Outcome ℕ
parse_size size = go (read_amount (trim_spaces_end (skip_spaces size)))
  where
    go : Option ℕ → Outcome ℕ
    go none = fail (storage_error (append "Invalid file size unit: " size))
    go (some n) = done n
