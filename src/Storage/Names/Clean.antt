-- ===== src/Storage/Names/Clean.antt =====
-- A generated file name is one segment of a path:
-- src/infrastructure/storage/utils/file-name.util.ts.
use Prim.Native.Char.{Char, code}
use Prim.Native.String.{[] as nil, ◌∷◌ as char_then, ◌++◌ as append}
use nestjs_starter.Prelude.{
  ℕ, String, Bool, true, false, ◌||◌, ◌≡◌, refl, ◌∙◌, Option, none, some, ◌==◌, Bool-cases, inl,
  inr, arith,
}
use nestjs_starter.Text.{is_empty, has_char, replace_char}
use nestjs_starter.Text.Absent.{
  append_absent, has_char-append, absent_head, absent_tail, absent_then, trim_start-keeps,
  replace-keeps, replace-removes,
}
use nestjs_starter.Storage.Names.{
  last_dot, before_and_after, dot_extension, dot_base, drop_char, dash, collapse, is_space, or_file,
  safe_name, safe_base, extract_base_name, extract_extension, unique_file_name,
}

-- The characters that a segment may not have.
pub data Unsafe : ℕ → Type 0 where
  nul : Unsafe 0
  slash_char : Unsafe b'/'
  backslash : Unsafe b'\\'

not_dash : {n : ℕ} → Unsafe n → (code dash == n) ≡ false
not_dash nul = refl
not_dash slash_char = refl
not_dash backslash = refl

not_dot : {n : ℕ} → Unsafe n → has_char n "." ≡ false
not_dot nul = refl
not_dot slash_char = refl
not_dot backslash = refl

not_in_dash : {n : ℕ} → Unsafe n → has_char n "-" ≡ false
not_in_dash nul = refl
not_in_dash slash_char = refl
not_in_dash backslash = refl

not_in_file : {n : ℕ} → Unsafe n → has_char n "file" ≡ false
not_in_file nul = refl
not_in_file slash_char = refl
not_in_file backslash = refl

drop_char-removes : (n : ℕ) (s : String) → has_char n (drop_char n s) ≡ false
drop_char-removes n nil = refl
drop_char-removes n (char_then c s) = elim (Bool-cases (code c == n)) [
  | inl t ↦ rw t (drop_char-removes n s)
  | inr f ↦ rw f (absent_then n c (drop_char n s) f (drop_char-removes n s))
]

drop_char-keeps : (n m : ℕ) (s : String) → has_char n s ≡ false → has_char n (drop_char m s) ≡ false
drop_char-keeps n m nil h = refl
drop_char-keeps n m (char_then c s) h = ground (arith, h, drop_char-keeps n m s)

-- The separators and the NUL are replaced and dropped.
safe_name-absent : {n : ℕ} (u : Unsafe n) (s : String) → has_char n (safe_name s) ≡ false
unfolding safe_name
safe_name-absent nul s = drop_char-removes 0 (replace_char b'\\' dash (replace_char b'/' dash s))
safe_name-absent slash_char s =
    drop_char-keeps b'/' 0 (replace_char b'\\' dash (replace_char b'/' dash s)) (
      replace-keeps b'/' b'\\' dash (replace_char b'/' dash s) refl
        (replace-removes b'/' dash s refl))
safe_name-absent backslash s =
    drop_char-keeps b'\\' 0 (replace_char b'\\' dash (replace_char b'/' dash s))
      (replace-removes b'\\' dash (replace_char b'/' dash s) refl)

module _ (n : ℕ) (u : Unsafe n) where
  collapse-keeps :
      (p : ℕ → Bool) (after : Bool) (s : String)
      → has_char n s ≡ false
      → has_char n (collapse p after s) ≡ false
  collapse-keeps p after nil h = refl
  collapse-keeps p after (char_then c s) h =
      let inside = collapse-keeps p true s (absent_tail n c s h) in
      let outside = collapse-keeps p false s (absent_tail n c s h) in
      elim (Bool-cases (p (code c))) [
        | inl t ↦ elim (Bool-cases after) [
          | inl a ↦ rw (t, a) inside
          | inr b ↦ rw (t, b) (absent_then n dash (collapse p true s) (not_dash u) inside)
        ]
        | inr f ↦ rw f (absent_then n c (collapse p false s) (absent_head n c s h) outside)
      ]

  -- both sides of a dot are without the character
  Parts : Option (String × String) → Type 0
  Parts none = Unit
  Parts (some (b, a)) = (has_char n b ≡ false) × (has_char n a ≡ false)

  before_and_after-Parts :
      (c : Char) (s : String) (o : Option (String × String))
      → has_char n (char_then c s) ≡ false
      → Parts o
      → Parts (before_and_after c s o)
  unfolding Parts
  before_and_after-Parts c s none h p = elim (Bool-cases (code c == b'.')) [
    | inl t ↦ rw t (refl, absent_tail n c s h)
    | inr f ↦ rw f tt
  ]
  before_and_after-Parts c s (some (b, a)) h (left, right) =
      (absent_then n c b (absent_head n c s h) left, right)

  last_dot-Parts : (s : String) → has_char n s ≡ false → Parts (last_dot s)
  unfolding Parts
  last_dot-Parts nil h = tt
  last_dot-Parts (char_then c s) h =
      before_and_after-Parts c s (last_dot s) h (last_dot-Parts s (absent_tail n c s h))

  dot_base-keeps :
      (s : String) (o : Option (String × String))
      → has_char n s ≡ false
      → Parts o
      → has_char n (dot_base s o) ≡ false
  unfolding Parts
  dot_base-keeps s none h p = h
  dot_base-keeps s (some (nil, a)) h p = h
  dot_base-keeps s (some (char_then c b, a)) h p = p.0

  dot_extension-keeps :
      (o : Option (String × String)) → Parts o → has_char n (dot_extension o) ≡ false
  unfolding Parts
  dot_extension-keeps none p = refl
  dot_extension-keeps (some (nil, a)) p = refl
  dot_extension-keeps (some (char_then c b, a)) p = p.1

  extract_base_name-keeps :
      (s : String) → has_char n s ≡ false → has_char n (extract_base_name s) ≡ false
  unfolding extract_base_name
  extract_base_name-keeps s h = dot_base-keeps s (last_dot s) h (last_dot-Parts s h)

  safe_base-keeps : (s : String) → has_char n s ≡ false → has_char n (safe_base s) ≡ false
  unfolding safe_base
  safe_base-keeps s h =
      let base = extract_base_name-keeps s h in
      let undotted =
        trim_start-keeps n b'.' (collapse is_space false (extract_base_name s))
          (collapse-keeps is_space false (extract_base_name s) base) in
      or_file-keeps _ (collapse-keeps (λ c. c == b'-') false _ undotted)
    where
      or_file-keeps : (s : String) → has_char n s ≡ false → has_char n (or_file s) ≡ false
      or_file-keeps nil h = not_in_file u
      or_file-keeps (char_then c s) h = h

  module _ (to_lower_case : String → String)
      (lower : (s : String) → has_char n s ≡ false → has_char n (to_lower_case s) ≡ false) where
    extract_extension-keeps :
        (s : String) → has_char n s ≡ false → has_char n (extract_extension to_lower_case s) ≡ false
    unfolding extract_extension
    extract_extension-keeps s h =
        let found = dot_extension-keeps (last_dot s) (last_dot-Parts s h) in
        elim (Bool-cases (is_empty (dot_extension (last_dot s)))) [
          | inl t ↦ rw t found
          | inr f ↦ rw f (lower (dot_extension (last_dot s)) found)
        ]

    pub unique_file_name_absent :
        (name timestamp random : String)
        → has_char n timestamp ≡ false
        → has_char n random ≡ false
        → has_char n (unique_file_name to_lower_case name "" timestamp random) ≡ false
    unfolding unique_file_name
    unique_file_name_absent name timestamp random h k =
        let safe = safe_name-absent u name in
        let ext = extract_extension-keeps (safe_name name) safe in
        let stem =
          append_absent n (safe_base (safe_name name)) _ (safe_base-keeps (safe_name name) safe) (
            append_absent n "-" _ (not_in_dash u)
              (append_absent n timestamp _ h (append_absent n "-" random (not_in_dash u) k))) in
        elim (Bool-cases (is_empty (extract_extension to_lower_case (safe_name name)))) [
          | inl t ↦ rw t stem
          | inr f ↦ rw f (append_absent n _ _ stem (append_absent n "." _ (not_dot u) ext))
        ]

or_true : (a b : Bool) → b ≡ true → (a || b) ≡ true
or_true true b h = refl
or_true false b h = h

true_or : (a b : Bool) → a ≡ true → (a || b) ≡ true
true_or true b h = refl
true_or false b h = absurd (cc)

-- A generated name has a dash, so that it is neither empty nor one of the dots.
pub unique_file_name-dash :
    (to_lower_case : String → String) (name timestamp random : String)
    → has_char b'-' (unique_file_name to_lower_case name "" timestamp random) ≡ true
unfolding unique_file_name
unique_file_name-dash to_lower_case name timestamp random =
    let base = safe_base (safe_name name) in
    let rest = append timestamp (append "-" random) in
    let stem : has_char b'-' (append base (append "-" rest)) ≡ true =
      (has_char-append b'-' base (append "-" rest)
        ∙ or_true (has_char b'-' base) (has_char b'-' (append "-" rest))
            (has_char-append b'-' "-" rest)) in
    let ext = extract_extension to_lower_case (safe_name name) in
    elim (Bool-cases (is_empty ext)) [
      | inl t ↦ rw t stem
      | inr f ↦ rw f (
          has_char-append b'-' (append base (append "-" rest)) (append "." ext)
          ∙ true_or (has_char b'-' (append base (append "-" rest))) (has_char b'-' (append "." ext))
              stem)
    ]
