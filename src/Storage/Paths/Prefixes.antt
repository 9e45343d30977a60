-- ===== src/Storage/Paths/Prefixes.antt =====
-- Taking the visibility off a key and putting it back: `stripPrefix` of
-- src/infrastructure/storage/utils/path.util.ts.
use Prim.Native.Char.{code}
use Prim.Native.String.{[] as nil, ◌∷◌ as char_then, ◌++◌ as append}
use Prim.Native.String.append
use text.Mathlib.TextLemmas.{append_assoc, append-nil, append_cancel_left}
use nestjs_starter.Prelude.{
  String, str_eq, eq_iff, false, ◌≡◌, ◌≢◌, refl, sym, ap, ◌∙◌, List, [], ◌∷◌, some, any, ==_refl,
  ◌⊎◌, inl, inr, Bool-cases, arith,
}
use nestjs_starter.Text.{is_empty, split, join, first_part, strip_start}
use nestjs_starter.Text.Laws.{join-split}
use nestjs_starter.Storage.{done}
use nestjs_starter.Storage.Paths.{slash, is_dots, trim_slashes, strip_prefix}
use nestjs_starter.Storage.Paths.Sanitized.{IsKey, sanitize_key-IsKey}

pub strip_start-append : (p s : String) → strip_start p (append p s) ≡ some s
strip_start-append nil s = ap (strip_start nil) (append.nil s)
strip_start-append (char_then c p) s =
    ap (strip_start (char_then c p)) (append.cons c p s)
    ∙ rw (==_refl (code c)) (strip_start-append p s)

-- `${prefix}/${rest}`
abbrev pub below : String → String → String
below prefix rest = append prefix (append "/" rest)

append_not_empty : (p s : String) → is_empty p ≡ false → is_empty (append p s) ≡ false
append_not_empty nil s h = absurd (cc)
append_not_empty (char_then c p) s h = ap is_empty (append.cons c p s)

join_not_empty :
    (q : String) (qs : List String)
    → any is_dots (q ∷ qs) ≡ false
    → is_empty (join "/" (q ∷ qs)) ≡ false
join_not_empty nil qs h = absurd (cc)
join_not_empty (char_then c q) [] h = refl
join_not_empty (char_then c q) (r ∷ qs) h = append_not_empty (char_then c q) _ refl

-- A key that starts with a segment is the segment, or goes on below it.
pub key-cases :
    (key prefix : String)
    → IsKey key
    → first_part (split b'/' key) ≡ prefix
    → (key ≡ prefix) ⊎ ((rest : String) × (key ≡ below prefix rest) × (is_empty rest ≡ false))
key-cases key prefix h e = go (split b'/' key) (join-split slash key) h.0 e
  where
    go :
        (parts : List String)
        → join "/" parts ≡ key
        → any is_dots parts ≡ false
        → first_part parts ≡ prefix
        → (key ≡ prefix) ⊎ ((rest : String) × (key ≡ below prefix rest) × (is_empty rest ≡ false))
    go [] j clean e = inl (cc (j, e))
    go (p ∷ []) j clean e = inl (cc (j, e))
    go (p ∷ q ∷ ps) j clean e =
        let later_clean : any is_dots (q ∷ ps) ≡ false = (elim (Bool-cases (is_dots p)) [
          | inl t ↦ absurd (ground (arith, t, clean))
          | inr f ↦ ground (arith, f, clean)
        ]) in
        inr (
          join "/" (q ∷ ps),
          sym j ∙ ap (λ p. below p (join "/" (q ∷ ps))) e,
          join_not_empty q ps later_clean,
        )

below-ne-prefix : (prefix rest : String) → below prefix rest ≢ prefix
below-ne-prefix prefix rest e =
    let gone : append "/" rest ≡ "" =
      (append_cancel_left prefix (append "/" rest) "" (e ∙ sym (append-nil prefix))) in
    absurd (cc (ap is_empty (append.cons slash nil rest), ap is_empty gone))

module _ (key prefix : String) (valid : IsKey key) (trimmed : trim_slashes prefix ≡ prefix)
    (present : is_empty prefix ≡ false) where
  pub strip_prefix_whole : key ≡ prefix → strip_prefix key prefix ≡ done ""
  unfolding strip_prefix
  strip_prefix_whole e =
      rw (sanitize_key-IsKey key valid, trimmed, present, (eq_iff key prefix).1 e) refl

  pub strip_prefix_below :
      (rest : String)
      → key ≡ below prefix rest
      → is_empty rest ≡ false
      → strip_prefix key prefix ≡ done rest
  unfolding strip_prefix
  strip_prefix_below rest e full =
      let longer : str_eq key prefix ≡ false = (elim (Bool-cases (str_eq key prefix)) [
        | inl t ↦ absurd (below-ne-prefix prefix rest (sym e ∙ (eq_iff key prefix).0 t))
        | inr f ↦ f
      ]) in
      let after : strip_start (append prefix "/") key ≡ some rest =
        (ap (strip_start (append prefix "/")) (e ∙ sym (append_assoc prefix "/" rest))
          ∙ strip_start-append (append prefix "/") rest) in
      rw (sanitize_key-IsKey key valid, trimmed, present, longer, after) refl
