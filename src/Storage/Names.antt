-- ===== src/Storage/Names.antt =====
-- src/infrastructure/storage/utils/file-name.util.ts and mime.util.ts. `toLowerCase` is a parameter:
-- its table of characters is Unicode's.
pub mod Clean
use Prim.Native.Char.{Char, code}
use Prim.Native.String.{[] as nil, ◌∷◌ as char_then, ◌++◌ as append, char_at}
use nestjs_starter.Prelude.{
  ℕ, String, str_eq, Bool, true, false, ◌&&◌, ◌||◌, Option, none, some, List, [], ◌∷◌, ◌==◌, leb,
  if◌then◌else◌, or_else,
}
use nestjs_starter.Text.{is_empty, replace_char, trim_start}

-- `\s` of a regular expression
abbrev pub is_space : ℕ → Bool
is_space c =
    leb 9 c && leb c 13
    || (c == 32
        || (c == 0xa0
            || (c == 0x1680
                || (leb 0x2000 c && leb c 0x200a
                    || (c == 0x2028
                        || (c == 0x2029
                            || (c == 0x202f || (c == 0x205f || (c == 0x3000 || c == 0xfeff)))))))))

-- What stands before and after the last dot, where there is a dot.
abbrev pub before_and_after : Char → String → Option (String × String) → Option (String × String)
before_and_after c s none = if code c == b'.' then some (nil, s) else none
before_and_after c s (some (b, a)) = some (char_then c b, a)

abbrev pub last_dot : String → Option (String × String)
last_dot nil = none
last_dot (char_then c s) = before_and_after c s (last_dot s)

-- `name.substring(idx + 1)`, and `''` where `idx <= 0`
abbrev pub dot_extension : Option (String × String) → String
dot_extension none = ""
dot_extension (some (b, a)) = if is_empty b then "" else a

abbrev pub dot_base : String → Option (String × String) → String
dot_base name none = name
dot_base name (some (b, a)) = if is_empty b then name else b

unfoldable pub extract_base_name : String → String
extract_base_name name = dot_base name (last_dot name)

-- `s.replace(/\0/g, '')`
abbrev pub drop_char : ℕ → String → String
drop_char n nil = nil
drop_char n (char_then c s) =
    let rest = drop_char n s in if code c == n then rest else char_then c rest

abbrev pub dash : Char
dash = char_at "-" 0

-- `s.replace(/[…]+/g, '-')`; the flag says that the character before was replaced
abbrev pub collapse : (ℕ → Bool) → Bool → String → String
collapse p after nil = nil
collapse p after (char_then c s) =
    let inside = collapse p true s in
    let outside = collapse p false s in
    if p (code c) then (if after then inside else char_then dash inside) else char_then c outside

-- `s || 'file'`
abbrev pub or_file : String → String
or_file s = if is_empty s then "file" else s

unfoldable pub safe_name : String → String
safe_name original_name =
    drop_char 0 (replace_char b'\\' dash (replace_char b'/' dash original_name))

unfoldable pub safe_base : String → String
safe_base safe = or_file (
    collapse (λ c. c == b'-') false
      (trim_start b'.' (collapse is_space false (extract_base_name safe))))

-- What a property of an object literal is: its own, one of `Object.prototype` (those whose name
-- has no capital letter), or `undefined`.
pub data Member : Type 0 where
  own : String → Member
  inherited absent : Member

abbrev pub member : String → List (String × String) → Member
member k [] = if str_eq k "constructor" || str_eq k "__proto__" then inherited else absent
member k ((j, v) ∷ m) = let rest = member k m in if str_eq k j then own v else rest

-- `m ?? v`
abbrev pub or_own : Member → String → Member
or_own (own w) v = own w
or_own inherited v = inherited
or_own absent v = own v

abbrev pub ext_to_mime : List (String × String)
ext_to_mime =
    ("jpg", "image/jpeg")
    ∷ ("jpeg", "image/jpeg")
    ∷ ("png", "image/png")
    ∷ ("webp", "image/webp")
    ∷ ("gif", "image/gif")
    ∷ ("avif", "image/avif")
    ∷ ("heif", "image/heif")
    ∷ ("svg", "image/svg+xml")
    ∷ ("pdf", "application/pdf")
    ∷ ("txt", "text/plain")
    ∷ ("json", "application/json")
    ∷ ("mp4", "video/mp4")
    ∷ ("mp3", "audio/mpeg")
    ∷ ("ogg", "audio/ogg")
    ∷ ("docx", "application/vnd.openxmlformats-officedocument.wordprocessingml.document")
    ∷ []

module _ (to_lower_case : String → String) where
  unfoldable pub extract_extension : String → String
  extract_extension name =
      let ext = dot_extension (last_dot name) in if is_empty ext then ext else to_lower_case ext

  -- `timestamp` and `random` are the digits that the clock and the random source gave.
  unfoldable pub unique_file_name : String → String → String → String → String
  unique_file_name original_name override_extension timestamp random =
      let safe = safe_name original_name in
      let original_ext = extract_extension safe in
      let ext = if is_empty override_extension then original_ext else override_extension in
      let stem = append (safe_base safe) (append "-" (append timestamp (append "-" random))) in
      if is_empty ext then stem else append stem (append "." ext)

  -- `EXT_TO_MIME[ext] ?? 'application/octet-stream'`
  unfoldable pub mime_from_extension : String → Member
  mime_from_extension filename = go (last_dot filename)
    where
      go : Option (String × String) → Member
      go none = own "application/octet-stream"
      go (some (b, a)) = or_own (member (to_lower_case a) ext_to_mime) "application/octet-stream"
