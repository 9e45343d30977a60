-- ===== src/Storage/Service/Upload.antt =====
-- Where an upload is stored: src/infrastructure/storage/service/storage.service.ts.
use Prim.Native.String.{[] as nil, ◌∷◌ as char_then, ◌++◌ as append}
use Prim.Native.String.append
use nestjs_starter.Prelude.{
  ℕ, String, str_eq, eq_iff, true, false, ◌≡◌, refl, sym, ap, ◌∙◌, subst, List, [], ◌∷◌, ◌++◌, any,
  or_else, Bool-cases, ◌⊎◌, inl, inr, arith,
}
use nestjs_starter.Text.{is_empty, has_char, trim_end, split, first_part}
use nestjs_starter.Text.Laws.{split_one}
use nestjs_starter.Text.Absent.{append_absent, trim_start_absent, trim_end_absent, split-append_any}
use nestjs_starter.Storage.{Visibility, public, private, visibility_value, UploadInput}
use nestjs_starter.Storage.Paths.{slash, is_dots, trim_slashes, join_key}
use nestjs_starter.Storage.Paths.Sanitized.{IsKey, trim_slashes_absent, key_not_empty}
use nestjs_starter.Storage.Paths.Prefixes.{below}
use nestjs_starter.Storage.Names.{unique_file_name}
use nestjs_starter.Storage.Names.Clean.{
  Unsafe, nul, slash_char, backslash, unique_file_name_absent, unique_file_name-dash,
}
use nestjs_starter.Storage.Provider.{IsFiled}
use nestjs_starter.Storage.Service.{UploadOptions, Stamp, build_save_target}

any-append :
    (xs ys : List String)
    → any is_dots xs ≡ false
    → any is_dots ys ≡ false
    → any is_dots (xs ++ ys) ≡ false
any-append [] ys h k = k
any-append (x ∷ xs) ys h k = elim (Bool-cases (is_dots x)) [
  | inl t ↦ absurd (ground (arith, t, h))
  | inr f ↦ rw f (any-append xs ys (ground (arith, f, h)) k)
]

not_dots : (s : String) → has_char b'-' s ≡ true → is_dots s ≡ false
not_dots s h = elim (Bool-cases (is_dots s)) [ inl t ↦ absurd (dots-dash (which s t)) | inr f ↦ f ]
  where
    which : (s : String) → is_dots s ≡ true → (s ≡ "..") ⊎ ((s ≡ ".") ⊎ (s ≡ ""))
    which s t = elim (Bool-cases (str_eq s "..")) [
      | inl a ↦ inl ((eq_iff s "..").0 a)
      | inr na ↦ elim (Bool-cases (str_eq s ".")) [
        | inl b ↦ inr (inl ((eq_iff s ".").0 b))
        | inr nb ↦ inr (inr ((eq_iff s "").0 (ground (arith, na, nb, t))))
      ]
    ]

    dots-dash : (s ≡ "..") ⊎ ((s ≡ ".") ⊎ (s ≡ "")) → ⊥
    dots-dash (inl e) = absurd (cc (h, ap (has_char b'-') e))
    dots-dash (inr (inl e)) = absurd (cc (h, ap (has_char b'-') e))
    dots-dash (inr (inr e)) = absurd (cc (h, ap (has_char b'-') e))

-- A folder that a caller may name: none, or a key.
abbrev pub IsFolder : String → Type 0
IsFolder folder = (folder ≡ "") ⊎ IsKey folder

trim_slashes-name : (s : String) → has_char b'/' s ≡ false → trim_slashes s ≡ s
trim_slashes-name s h = ap (trim_end b'/') (trim_start_absent b'/' s h) ∙ trim_end_absent b'/' s h

slash_then : (s : String) → append "/" s ≡ char_then slash s
slash_then s = append.cons slash nil s ∙ ap (char_then slash) (append.nil s)

split_below : (p s : String) → split b'/' (below p s) ≡ split b'/' p ++ split b'/' s
split_below p s = ap (λ t. split b'/' (append p t)) (slash_then s) ∙ split-append_any slash p s

below-IsKey : (p s : String) → IsKey p → IsKey s → IsKey (below p s)
below-IsKey p s (dots, no_nul, no_back) (dots', no_nul', no_back') = (
  ap (any is_dots) (split_below p s) ∙ any-append (split b'/' p) (split b'/' s) dots dots',
  append_absent 0 p (append "/" s) no_nul (append_absent 0 "/" s refl no_nul'),
  append_absent b'\\' p (append "/" s) no_back (append_absent b'\\' "/" s refl no_back'),
)

-- One segment.
segment-IsKey :
    (s : String)
    → has_char 0 s ≡ false
    → has_char b'/' s ≡ false
    → has_char b'\\' s ≡ false
    → is_dots s ≡ false
    → IsKey s
segment-IsKey s no_nul no_slash no_back no_dots =
    (rw (split_one b'/' s no_slash, no_dots) refl, no_nul, no_back)

value-IsKey : (v : Visibility) → IsKey (visibility_value v)
value-IsKey public = (refl, refl, refl)
value-IsKey private = (refl, refl, refl)

first_below :
    (v : Visibility) (s : String)
    → first_part (split b'/' (below (visibility_value v) s)) ≡ visibility_value v
first_below public s = ap first_part (split_below "public" s)
first_below private s = ap first_part (split_below "private" s)

join_key_two :
    (v : Visibility) (name : String)
    → trim_slashes name ≡ name
    → is_empty name ≡ false
    → join_key (visibility_value v ∷ "" ∷ name ∷ []) ≡ below (visibility_value v) name
unfolding join_key
join_key_two public name e f = simp (f, e) refl
join_key_two private name e f = simp (f, e) refl

join_key_three :
    (v : Visibility) (folder name : String)
    → trim_slashes folder ≡ folder
    → is_empty folder ≡ false
    → trim_slashes name ≡ name
    → is_empty name ≡ false
    → join_key (visibility_value v ∷ folder ∷ name ∷ [])
      ≡ below (visibility_value v) (below folder name)
unfolding join_key
join_key_three public folder name d g e f = simp (f, e, d, g) refl
join_key_three private folder name d g e f = simp (f, e, d, g) refl

-- `joinKey` leaves keys as they are.
join_key-clean :
    (v : Visibility) (folder name : String)
    → IsFolder folder
    → IsKey name
    → (rest : String) × (join_key (visibility_value v ∷ folder ∷ name ∷ [])
        ≡ below (visibility_value v) rest)
      × IsKey rest
join_key-clean v folder name h k =
    let named = trim_slashes_absent name k.0 in
    let some_name = key_not_empty name k.0 in
    elim h [
      | inl none_given ↦ (
        name,
        ap (λ f. join_key (visibility_value v ∷ f ∷ name ∷ [])) none_given
            ∙ join_key_two v name named some_name,
        k,
      )
      | inr key ↦ (
        below folder name,
        join_key_three v folder name (trim_slashes_absent folder key.0) (key_not_empty folder key.0)
            named some_name,
        below-IsKey folder name key k,
      )
    ]

-- What the clock, the random source and `toLowerCase` bring in stays in one segment.
pub record IsSafeText (to_lower_case : String → String) (stamp : Stamp) : Type 0 where
  pub lower :
      {n : ℕ}
      → Unsafe n
      → (s : String) → has_char n s ≡ false
      → has_char n (to_lower_case s) ≡ false
  pub timestamp_safe : {n : ℕ} → Unsafe n → has_char n stamp.timestamp ≡ false
  pub random_safe : {n : ℕ} → Unsafe n → has_char n stamp.random ≡ false

module _ (to_lower_case : String → String) {Buffer : Type 0} (input : UploadInput Buffer)
    (options : UploadOptions) (stamp : Stamp) (safe : IsSafeText to_lower_case stamp) where
  name-IsKey :
      IsKey (unique_file_name to_lower_case input.original_name "" stamp.timestamp stamp.random)
  name-IsKey =
      let name =
        unique_file_name to_lower_case input.original_name "" stamp.timestamp stamp.random in
      segment-IsKey name (without nul) (without slash_char) (without backslash) (
        not_dots name
          (unique_file_name-dash to_lower_case input.original_name stamp.timestamp stamp.random))
    where
      without :
          {n : ℕ}
          → Unsafe n
          → has_char n
              (unique_file_name to_lower_case input.original_name "" stamp.timestamp stamp.random)
            ≡ false
      without {n} u =
          unique_file_name_absent n u to_lower_case (λ s. safe.lower u s) input.original_name
            stamp.timestamp stamp.random (safe.timestamp_safe u) (safe.random_safe u)

  -- Whatever the client called the file, its key lies below the segment of the visibility.
  pub build_save_target-IsFiled :
      IsFolder (or_else options.folder "")
      → let target = build_save_target to_lower_case input options stamp in
        (target.visibility ≡ options.visibility) × IsFiled options.visibility target.key
  unfolding build_save_target
  build_save_target-IsFiled h =
      let (rest, whole, key) =
        join_key-clean options.visibility (or_else options.folder "")
          (unique_file_name to_lower_case input.original_name "" stamp.timestamp stamp.random) h
          name-IsKey in
      (
        refl,
        subst (λ k. IsFiled options.visibility k) (sym whole)
            (
              below-IsKey (visibility_value options.visibility) rest
                  (value-IsKey options.visibility) key,
              first_below options.visibility rest,
            ),
      )
