-- ===== src/Storage/Validation/Accepted.antt =====
-- What an accepted file is like: src/infrastructure/storage/validation.
use nestjs_starter.Prelude.{
  ℕ, ◌≤◌, ◌<◌, String, Bool, true, false, not, ◌||◌, ◌≡◌, refl, sym, ap, ◌∙◌, subst, Option, none,
  some, List, map, ◌==◌, ltb, if◌then◌else◌, arith,
}
use nestjs_starter.Text.{is_empty, has_char, split}
use nestjs_starter.Storage.{Outcome, done, fail, ◌>>=◌, UploadInput}
use nestjs_starter.Storage.Names.{Member, own, inherited, absent, member, mime_from_extension}
use nestjs_starter.Storage.Sizes.{parse_size}
use nestjs_starter.Storage.Validation.{
  DimensionRule, ValidationPolicy, Check, reject_if, ◌>>◌, includes, Content, second_part,
  subtype_of, present, is_nil, is_mismatch, below_bound, above_bound, is_prefix, all_name_chars,
  ext, check_type_limit, check_types, check_signature, is_text, check_bounds, check_dimensions,
  validate_size, validate_mime_type, validate_filename, validate_dimensions, validate,
}

both : (m n : Check) → m >> n ≡ done tt → (m ≡ done tt) × (n ≡ done tt)
both (done tt) n e = (refl, e)
both (fail f) n e = absurd (cc)

accepted_if : (b : Bool) (c : String) → reject_if b c ≡ done tt → b ≡ false
accepted_if true c e = absurd (cc)
accepted_if false c e = refl

after_parse :
    (r : Outcome ℕ) (f : ℕ → Check) → r >>= f ≡ done tt → (n : ℕ) × (r ≡ done n) × (f n ≡ done tt)
after_parse (done n) f e = (n, refl, e)
after_parse (fail x) f e = absurd (cc)

true_of_not : (b : Bool) → not b ≡ false → b ≡ true
true_of_not true e = refl
true_of_not false e = absurd (cc)

otherwise :
    (a b : Bool) (n : Check)
    → a ≡ true
    → b ≡ false
    → (if not a || b then done tt else n) ≡ done tt
    → n ≡ done tt
otherwise true false n h k e = e
otherwise true true n h k e = absurd (cc)
otherwise false b n h k e = absurd (cc)

otherwise_only :
    (a : Bool) (n : Check) → a ≡ true → (if not a then done tt else n) ≡ done tt → n ≡ done tt
otherwise_only true n h e = e
otherwise_only false n h e = absurd (cc)

all_pass :
    (a b c d e : Bool) (s t u v w : String)
    → reject_if a s >> reject_if b t >> reject_if c u >> reject_if d v >> reject_if e w ≡ done tt
    → (a ≡ false) × (b ≡ false) × (c ≡ false) × (d ≡ false) × (e ≡ false)
all_pass true b c d e s t u v w h = absurd (cc)
all_pass false true c d e s t u v w h = absurd (cc)
all_pass false false true d e s t u v w h = absurd (cc)
all_pass false false false true e s t u v w h = absurd (cc)
all_pass false false false false true s t u v w h = absurd (cc)
all_pass false false false false false s t u v w h = (refl, refl, refl, refl, refl)

within_below : (n m : ℕ) (o : Option ℕ) → below_bound n o ≡ false → o ≡ some m → m ≤ n
within_below n m none h e = absurd (cc)
within_below n m (some k) h e = ground (arith, h, e)

-- A bound of 0 is no bound.
within_above : (n m : ℕ) (o : Option ℕ) → above_bound n o ≡ false → o ≡ some m → 0 < m → n ≤ m
within_above n m none h e p = absurd (cc)
within_above n m (some k) h e p = ground (arith, h, e, p)

-- The dimensions meet the rule.
pub record FitsRule (rule : DimensionRule) (width height : ℕ) : Type 0 where
  pub wide : (m : ℕ) → rule.min_width ≡ some m → m ≤ width
  pub narrow : (m : ℕ) → rule.max_width ≡ some m → 0 < m → width ≤ m
  pub tall : (m : ℕ) → rule.min_height ≡ some m → m ≤ height
  pub short : (m : ℕ) → rule.max_height ≡ some m → 0 < m → height ≤ m

module _ (to_lower_case : String → String) {Buffer : Type 0} (R : Content Buffer)
    (input : UploadInput Buffer) (policy : ValidationPolicy) where
  -- The file has content, and no more than allowed, for its extension too; its name and extension
  -- are there and allowed; the type that its bytes show is that of its extension; an image fits the
  -- rule.
  pub record IsAccepted : Type 0 where
    pub not_empty : 0 < input.size
    pub small : (max : ℕ) × (parse_size policy.max_size ≡ done max) × (input.size ≤ max)
    pub small_for_type :
        (limits : List (String × String)) (limit : String)
        → policy.per_type_max_size ≡ some limits
        → member (ext to_lower_case R input policy) limits ≡ own limit
        → is_empty limit ≡ false
        → (max : ℕ) × (parse_size limit ≡ done max) × (input.size ≤ max)
    pub typed : is_empty (ext to_lower_case R input policy) ≡ false
    pub allowed :
        includes (map to_lower_case policy.allowed_extensions) (ext to_lower_case R input policy)
        ≡ true
    pub named : all_name_chars input.original_name ≡ true
    pub genuine :
        policy.enforce_magic_bytes ≡ true
        → is_text to_lower_case R input policy ≡ false
        → (mime : String) × (mime_from_extension to_lower_case input.original_name ≡ own mime)
          × (is_mismatch
                (present (map subtype_of (R.magic_bytes input.buffer)))
                (second_part (split b'/' mime))
              ≡ false)
    pub fitting :
        (rule : DimensionRule)
        → policy.dimensions ≡ some rule
        → is_prefix "image/" input.mime_type ≡ true
        → (width : ℕ) × (height : ℕ) × (R.metadata input.buffer ≡ some (width, height))
          × FitsRule rule width height

  fits-bounds :
      (rule : DimensionRule) (m : Option (ℕ × ℕ))
      → check_bounds to_lower_case R input policy rule m ≡ done tt
      → (width : ℕ) × (height : ℕ) × (m ≡ some (width, height)) × FitsRule rule width height
  fits-bounds rule none e = absurd (cc)
  fits-bounds rule (some (width, height)) e =
      let (_, narrow, wide, short, tall) =
        all_pass (width == 0 || height == 0) (below_bound width rule.min_width)
          (above_bound width rule.max_width) (below_bound height rule.min_height)
          (above_bound height rule.max_height) "IMAGE_DIMENSIONS_UNKNOWN" "IMAGE_TOO_NARROW"
          "IMAGE_TOO_WIDE" "IMAGE_TOO_SHORT" "IMAGE_TOO_TALL" e in
      (
        width,
        height,
        refl,
        record {
          wide = λ m. within_below width m rule.min_width narrow;
          narrow = λ m. within_above width m rule.max_width wide;
          tall = λ m. within_below height m rule.min_height short;
          short = λ m. within_above height m rule.max_height tall;
        },
      )

  signed-genuine :
      (m : Member)
      → check_signature to_lower_case R input policy m ≡ done tt
      → (mime : String) × (m ≡ own mime)
        × (is_mismatch
              (present (map subtype_of (R.magic_bytes input.buffer)))
              (second_part (split b'/' mime))
            ≡ false)
  signed-genuine (own mime) e = (mime, refl, accepted_if _ "FILE_SIGNATURE_MISMATCH" e)
  signed-genuine inherited e = absurd (cc)
  signed-genuine absent e = absurd (cc)

  size-accepted :
      validate_size to_lower_case R input policy ≡ done tt
      → (0 < input.size)
        × ((max : ℕ) × (parse_size policy.max_size ≡ done max) × (input.size ≤ max))
        × (check_types to_lower_case R input policy policy.per_type_max_size ≡ done tt)
  unfolding validate_size
  size-accepted e =
      let full = reject_if (input.size == 0) "FILE_EMPTY" in
      let under : Check =
        (parse_size policy.max_size >>= λ max. reject_if (ltb max input.size) "FILE_TOO_LARGE") in
      let (two, of_type) =
        both (full >> under) (check_types to_lower_case R input policy policy.per_type_max_size)
          e in
      let (first, second) = both full under two in
      let some_bytes = accepted_if (input.size == 0) "FILE_EMPTY" first in
      let (max, parsed, within) =
        after_parse (parse_size policy.max_size)
          (λ max. reject_if (ltb max input.size) "FILE_TOO_LARGE") second in
      let fits = accepted_if (ltb max input.size) "FILE_TOO_LARGE" within in
      (ground (arith, some_bytes), (max, parsed, ground (arith, fits)), of_type)

  -- The limit of the file's extension, where the policy has one that is not empty.
  type-accepted :
      (m : Member) (limit : String)
      → check_type_limit to_lower_case R input policy m ≡ done tt
      → m ≡ own limit
      → is_empty limit ≡ false
      → (max : ℕ) × (parse_size limit ≡ done max) × (input.size ≤ max)
  type-accepted absent limit e same given = absurd (cc)
  type-accepted inherited limit e same given = absurd (cc)
  type-accepted (own l) limit e same given =
      let at : l ≡ limit = cc in
      let given' : is_empty l ≡ false = (ap is_empty at ∙ given) in
      let tested : (parse_size l >>= λ n. reject_if (ltb n input.size) "FILE_TYPE_TOO_LARGE")
          ≡ done tt =
        (rw given' at e) in
      let (max, parsed, within) =
        after_parse (parse_size l) (λ n. reject_if (ltb n input.size) "FILE_TYPE_TOO_LARGE")
          tested in
      let fits = accepted_if (ltb max input.size) "FILE_TYPE_TOO_LARGE" within in
      (max, ap parse_size (sym at) ∙ parsed, ground (arith, fits))

  mime_type-accepted :
      validate_mime_type to_lower_case R input policy ≡ done tt
      → (is_empty (ext to_lower_case R input policy) ≡ false)
        × (includes (map to_lower_case policy.allowed_extensions) (ext to_lower_case R input policy)
            ≡ true)
        × ((policy.enforce_magic_bytes ≡ true)
            → is_text to_lower_case R input policy ≡ false
            → (mime : String) × (mime_from_extension to_lower_case input.original_name ≡ own mime)
              × (is_mismatch
                    (present (map subtype_of (R.magic_bytes input.buffer)))
                    (second_part (split b'/' mime))
                  ≡ false))
  unfolding validate_mime_type
  mime_type-accepted e =
      let extension = ext to_lower_case R input policy in
      let listed = includes (map to_lower_case policy.allowed_extensions) extension in
      let some_extension = reject_if (is_empty extension) "FILE_EXTENSION_MISSING" in
      let in_list = reject_if (not listed) "FILE_TYPE_NOT_ALLOWED" in
      let known = reject_if (is_nil (R.magic_bytes input.buffer)) "FILE_SIGNATURE_UNKNOWN" in
      let same_type =
        check_signature to_lower_case R input policy
          (mime_from_extension to_lower_case input.original_name) in
      let signature : Check =
        (if not policy.enforce_magic_bytes || is_text to_lower_case R input policy
          then done tt
          else known >> same_type) in
      let (two, third) = both (some_extension >> in_list) signature e in
      let (first, second) = both some_extension in_list two in
      let there = accepted_if (not listed) "FILE_TYPE_NOT_ALLOWED" second in
      (
        accepted_if (is_empty extension) "FILE_EXTENSION_MISSING" first,
        true_of_not listed there,
        λ enforced binary.
            let (_, last) = both known same_type (
              otherwise policy.enforce_magic_bytes (is_text to_lower_case R input policy)
                (known >> same_type) enforced binary third) in
            signed-genuine (mime_from_extension to_lower_case input.original_name) last,
      )

  -- Only a file that is in order passes the four validators.
  pub validate-IsAccepted : validate to_lower_case R input policy ≡ done tt → IsAccepted
  unfolding validate validate_filename validate_dimensions
  validate-IsAccepted e =
      let size = validate_size to_lower_case R input policy in
      let mime = validate_mime_type to_lower_case R input policy in
      let name = validate_filename to_lower_case R input policy in
      let (three, dim) =
        both (size >> mime >> name) (validate_dimensions to_lower_case R input policy) e in
      let (two, named) = both (size >> mime) name three in
      let (sized, typed) = both size mime two in
      let (_, chars) =
        both
          (reject_if (is_empty input.original_name || has_char 0 input.original_name)
            "FILE_NAME_INVALID")
          (reject_if (not (all_name_chars input.original_name)) "FILE_NAME_DISALLOWED_CHARS")
          named in
      let good =
        accepted_if (not (all_name_chars input.original_name)) "FILE_NAME_DISALLOWED_CHARS" chars in
      record {
        not_empty = (size-accepted sized).0;
        small = (size-accepted sized).1;
        small_for_type = λ limits limit has_limits listed.
            type-accepted (member (ext to_lower_case R input policy) limits) limit
              (subst (λ l. check_types to_lower_case R input policy l ≡ done tt) has_limits
                (size-accepted sized).2)
              listed;
        typed = (mime_type-accepted typed).0;
        allowed = (mime_type-accepted typed).1;
        named = true_of_not (all_name_chars input.original_name) good;
        genuine = (mime_type-accepted typed).2;
        fitting = λ rule some_rule image.
            let checked : check_dimensions to_lower_case R input policy (some rule) ≡ done tt =
              (subst (λ r. check_dimensions to_lower_case R input policy r ≡ done tt) some_rule
                dim) in
            fits-bounds rule (R.metadata input.buffer) (
              otherwise_only (is_prefix "image/" input.mime_type)
                (check_bounds to_lower_case R input policy rule (R.metadata input.buffer)) image
                checked);
      }
