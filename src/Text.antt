-- ===== src/Text.antt =====
-- The methods of JavaScript strings that the sources use, on texts of characters: `split`, `join`,
-- `replace` at an end of the text, `includes` of a character.
pub mod Laws
pub mod Absent
use Prim.Native.Char.{Char, code}
use Prim.Native.String.{[] as nil, ◌∷◌ as char_then, ◌++◌ as append}
use nestjs_starter.Prelude.{
  ℕ, String, Bool, true, false, Option, none, some, ◌&&◌, List, [], ◌∷◌, ◌==◌, if◌then◌else◌,
}

abbrev pub is_empty : String → Bool
is_empty nil = true
is_empty (char_then c s) = false

-- `s.includes(c)`
abbrev pub has_char : ℕ → String → Bool
has_char n nil = false
has_char n (char_then c s) = if code c == n then true else has_char n s

-- `s.replace(/a/g, b)` for two characters
abbrev pub replace_char : ℕ → Char → String → String
replace_char a b nil = nil
replace_char a b (char_then c s) = char_then (if code c == a then b else c) (replace_char a b s)

-- `s.replace(/^c+/, '')`
abbrev pub trim_start : ℕ → String → String
trim_start n nil = nil
trim_start n (char_then c s) =
    let rest = trim_start n s in if code c == n then rest else char_then c s

-- `s.replace(/c+$/, '')`
abbrev pub trim_end : ℕ → String → String
trim_end n nil = nil
trim_end n (char_then c s) =
    let rest = trim_end n s in if code c == n && is_empty rest then nil else char_then c rest

abbrev pub prepend : Char → List String → List String
prepend c [] = char_then c nil ∷ []
prepend c (p ∷ ps) = char_then c p ∷ ps

-- `s.split(c)`
abbrev pub split : ℕ → String → List String
split n nil = nil ∷ []
split n (char_then c s) = let rest = split n s in if code c == n then nil ∷ rest else prepend c rest

-- `parts.join(sep)`
abbrev pub join : String → List String → String
join sep [] = nil
join sep (p ∷ []) = p
join sep (p ∷ q ∷ ps) = append p (append sep (join sep (q ∷ ps)))

-- `parts.filter(Boolean)`
abbrev pub filter_nonempty : List String → List String
filter_nonempty [] = []
filter_nonempty (p ∷ ps) = let rest = filter_nonempty ps in if is_empty p then rest else p ∷ rest

-- `parts[0]`, where `split` always gives one
abbrev pub first_part : List String → String
first_part [] = nil
first_part (p ∷ ps) = p

-- What follows the prefix, where the text starts with it.
abbrev pub strip_start : String → String → Option String
strip_start nil s = some s
strip_start (char_then c p) nil = none
strip_start (char_then c p) (char_then d s) =
    let rest = strip_start p s in if code c == code d then rest else none
