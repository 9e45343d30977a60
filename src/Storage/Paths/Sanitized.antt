-- ===== src/Storage/Paths/Sanitized.antt =====
-- What `sanitizeKey` accepts: src/infrastructure/storage/utils/path.util.ts.
use Prim.Native.Char.{Char, code}
use Prim.Native.String.{[] as nil, ◌∷◌ as char_then}
use nestjs_starter.Prelude.{
  ℕ, String, Bool, true, false, ◌||◌, ◌≡◌, refl, ap, ◌∙◌, subst, List, [], ◌∷◌, ◌==◌, any,
  Bool-cases, inl, inr, arith,
}
use nestjs_starter.Text.{is_empty, has_char, replace_char, trim_start, trim_end, prepend, split}
use nestjs_starter.Text.Absent.{trim_start-keeps, replace-keeps, replace-removes}
use nestjs_starter.Storage.{done}
use nestjs_starter.Storage.Paths.{slash, is_dots, trim_slashes, sanitize_key}

-- A key as the store knows it: no segment is empty, `.` or `..`, and neither a NUL nor a backslash
-- is in it.
abbrev pub IsKey : String → Type 0
IsKey key =
    (any is_dots (split b'/' key) ≡ false) × (has_char 0 key ≡ false) × (has_char b'\\' key ≡ false)

has_char-trim_end :
    (m n : ℕ) (s : String) → has_char m s ≡ false → has_char m (trim_end n s) ≡ false
has_char-trim_end m n nil h = refl
has_char-trim_end m n (char_then c s) h = ground (arith, h, has_char-trim_end m n s)

replace-absent : (a : ℕ) (b : Char) (s : String) → has_char a s ≡ false → replace_char a b s ≡ s
replace-absent a b nil h = refl
replace-absent a b (char_then c s) h = ground (arith, h, replace-absent a b s)

-- The last character.
abbrev ends_with : ℕ → String → Bool
ends_with n nil = false
ends_with n (char_then c nil) = code c == n
ends_with n (char_then c (char_then d s)) = ends_with n (char_then d s)

abbrev later : List String → List String
later [] = []
later (p ∷ ps) = ps

trim_end-before :
    (n : ℕ) (c : Char) (s : String)
    → is_empty (trim_end n s) ≡ false
    → trim_end n (char_then c s) ≡ char_then c (trim_end n s)
trim_end-before n c s h = ground (arith, h)

trim_end_absent : (n : ℕ) (s : String) → ends_with n s ≡ false → trim_end n s ≡ s
trim_end_absent n nil h = refl
trim_end_absent n (char_then c nil) h = ground (arith, h)
trim_end_absent n (char_then c (char_then d s)) h =
    let again = trim_end_absent n (char_then d s) h in
    trim_end-before n c (char_then d s) (ap is_empty again) ∙ ap (char_then c) again

later-prepend : (c : Char) (ps : List String) → later (prepend c ps) ≡ later ps
later-prepend c [] = refl
later-prepend c (p ∷ ps) = refl

any-later : (ps : List String) → any is_dots (later ps) ≡ true → any is_dots ps ≡ true
any-later [] h = h
any-later (p ∷ ps) h = ground (arith, h)

-- A text that ends with the separator has an empty segment.
ends_with-dots :
    (n : ℕ) (s : String) → ends_with n s ≡ true → any is_dots (later (split n s)) ≡ true
ends_with-dots n nil h = cc
ends_with-dots n (char_then c nil) h = rw h refl
ends_with-dots n (char_then c (char_then d s)) h =
    let again = ends_with-dots n (char_then d s) h in
    elim (Bool-cases (code c == n)) [
      | inl t ↦ rw t (any-later (split n (char_then d s)) again)
      | inr f ↦ rw f (ap (any is_dots) (later-prepend c (split n (char_then d s))) ∙ again)
    ]

-- Neither end of a key is a slash.
pub trim_slashes_absent :
    (key : String) → any is_dots (split b'/' key) ≡ false → trim_slashes key ≡ key
trim_slashes_absent nil h = refl
trim_slashes_absent (char_then c s) h =
    let inside : trim_start b'/' (char_then c s) ≡ char_then c s =
      (elim (Bool-cases (code c == b'/')) [
        | inl t ↦ absurd (ground (arith, t, h))
        | inr f ↦ rw f refl
      ]) in
    ap (trim_end b'/') inside
    ∙ trim_end_absent b'/' (char_then c s) (elim (Bool-cases (ends_with b'/' (char_then c s))) [
      | inl t ↦
          absurd
            (cc (h, any-later (split b'/' (char_then c s)) (ends_with-dots b'/' (char_then c s) t)))
      | inr f ↦ f
    ])

pub key_not_empty : (key : String) → any is_dots (split b'/' key) ≡ false → is_empty key ≡ false
key_not_empty nil h = absurd (cc)
key_not_empty (char_then c s) h = refl

-- A key is left as it is.
pub sanitize_key-IsKey : (key : String) → IsKey key → sanitize_key key ≡ done key
unfolding sanitize_key
sanitize_key-IsKey key h =
    let same : trim_slashes (replace_char b'\\' slash key) ≡ key =
      (ap trim_slashes (replace-absent b'\\' slash key h.2) ∙ trim_slashes_absent key h.0) in
    rw (key_not_empty key h.0, h.1, same, h.0) refl

-- What `sanitizeKey` answers is a key.
pub IsKey-sanitized : (input key : String) → sanitize_key input ≡ done key → IsKey key
unfolding sanitize_key
IsKey-sanitized input key e =
    let replaced = replace_char b'\\' slash input in
    elim (Bool-cases (is_empty input || has_char 0 input)) [
      | inl t ↦ absurd (ground (arith, t, e))
      | inr f ↦ elim (Bool-cases (any is_dots (split b'/' (trim_slashes replaced)))) [
        | inl dots ↦ absurd (ground (arith, f, dots, e))
        | inr clean ↦
            let same : trim_slashes replaced ≡ key = ground (arith, f, clean, e) in
            let no_nul : has_char 0 input ≡ false = ground (arith, f) in
            subst IsKey same (
              clean,
              has_char-trim_end 0 b'/' (trim_start b'/' replaced) (
                  trim_start-keeps 0 b'/' replaced (replace-keeps 0 b'\\' slash input refl no_nul)),
              has_char-trim_end b'\\' b'/' (trim_start b'/' replaced)
                  (trim_start-keeps b'\\' b'/' replaced (replace-removes b'\\' slash input refl)),
            )
      ]
    ]
