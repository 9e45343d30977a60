-- ===== src/Storage/Paths.antt =====
-- src/infrastructure/storage/utils/path.util.ts.
pub mod Sanitized
pub mod Prefixes
use Prim.Native.Char.{Char, code}
use Prim.Native.String.{[] as nil, ◌∷◌ as char_then, ◌++◌ as append, char_at}
use nestjs_starter.Prelude.{
  ℕ, String, str_eq, Bool, true, false, ◌||◌, List, Option, none, some, ◌==◌, if◌then◌else◌, any,
  map,
}
use nestjs_starter.Text.{
  is_empty, has_char, replace_char, trim_start, trim_end, split, join, filter_nonempty, strip_start,
}
use nestjs_starter.Storage.{Outcome, done, fail, ◌>>=◌, StorageFault, storage_error}

abbrev pub slash : Char
slash = char_at "/" 0

-- `s === '..' || s === '.' || s === ''`
abbrev pub is_dots : String → Bool
is_dots s = str_eq s ".." || (str_eq s "." || str_eq s "")

abbrev pub invalid_key : StorageFault
invalid_key = storage_error "Invalid storage key"

abbrev pub trim_slashes : String → String
trim_slashes s = trim_end b'/' (trim_start b'/' s)

unfoldable pub sanitize_key : String → Outcome String
sanitize_key input =
    if is_empty input || has_char 0 input
    then fail invalid_key
    else (let key = trim_slashes (replace_char b'\\' slash input) in
        if any is_dots (split b'/' key) then fail invalid_key else done key)

unfoldable pub join_key : List String → String
join_key parts = join "/" (filter_nonempty (map trim_slashes (filter_nonempty parts)))

abbrev pub or_whole : Option String → String → String
or_whole none s = s
or_whole (some rest) s = rest

unfoldable pub strip_prefix : String → String → Outcome String
strip_prefix key prefix = sanitize_key key >>= λ normalized.
    let normalized_prefix = trim_slashes prefix in
    if is_empty normalized_prefix
    then done normalized
    else if str_eq normalized normalized_prefix
    then done ""
    else done (or_whole (strip_start (append normalized_prefix "/") normalized) normalized)
