-- ===== src/Storage/Local/Confinement.antt =====
-- Where the keys lead on the disk: src/infrastructure/storage/providers/local/local.provider.ts.
use mathlib.Core.List.{reverse, reverse-cons, reverse-reverse, append_assoc, append_cancel_right}
use nestjs_starter.Prelude.{
  String, false, ◌≡◌, ◌≢◌, refl, sym, ap, ◌∙◌, List, [], ◌∷◌, ◌++◌, any, Bool-cases, inl, inr,
  arith,
}
use nestjs_starter.Text.{split, join}
use nestjs_starter.Text.Laws.{join-split, split-ne-nil}
use nestjs_starter.Storage.{done}
use nestjs_starter.Storage.Paths.{slash, is_dots, sanitize_key}
use nestjs_starter.Storage.Paths.Sanitized.{IsKey, IsKey-sanitized}
use nestjs_starter.Storage.Local.{Location, step_into, walk, path_join}

walk_clean :
    (base : Location) (ss : List String)
    → any is_dots ss ≡ false
    → walk base ss ≡ reverse ss ++ base
unfolding walk
walk_clean base [] h = refl
walk_clean base (s ∷ ss) h = elim (Bool-cases (is_dots s)) [
  | inl t ↦ absurd (ground (arith, t, h))
  | inr f ↦
      let down : step_into base s ≡ s ∷ base = ground (arith, f) in
      ap (λ p. walk p ss) down
      ∙ walk_clean (s ∷ base) ss (ground (arith, f, h))
      ∙ sym (append_assoc (reverse ss) (s ∷ []) base)
      ∙ ap (λ l. l ++ base) (sym (reverse-cons s ss))
]

-- The segments of a key are those of the place below the base.
pub path_join-IsKey :
    (base : Location) (key : String)
    → IsKey key
    → path_join base key ≡ reverse (split b'/' key) ++ base
unfolding path_join
path_join-IsKey base key h = walk_clean base (split b'/' key) h.0

reverse_inj : (xs ys : List String) → reverse xs ≡ reverse ys → xs ≡ ys
reverse_inj xs ys e = sym (reverse-reverse xs) ∙ ap reverse e ∙ reverse-reverse ys

split_inj : (s t : String) → split b'/' s ≡ split b'/' t → s ≡ t
split_inj s t e = sym (join-split slash s) ∙ ap (join "/") e ∙ join-split slash t

-- Whatever key is asked for, if `sanitizeKey` lets it pass, it leads to a place strictly below the
-- base, and two keys that lead to one place are one key.
pub path_join-confined :
    (base : Location) (input input' key key' : String)
    → sanitize_key input ≡ done key
    → sanitize_key input' ≡ done key'
    → ((below : Location) × (below ≢ []) × (path_join base key ≡ below ++ base))
      × (path_join base key ≡ path_join base key' → key ≡ key')
path_join-confined base input input' key key' e e' =
    let valid = IsKey-sanitized input key e in
    let valid' = IsKey-sanitized input' key' e' in
    let at = path_join-IsKey base key valid in
    let at' = path_join-IsKey base key' valid' in
    let some_segment : reverse (split b'/' key) ≢ [] =
      (λ h. split-ne-nil b'/' key (reverse_inj (split b'/' key) [] h)) in
    (
      (reverse (split b'/' key), some_segment, at),
      λ same. split_inj key key' (
          reverse_inj (split b'/' key) (split b'/' key') (
            append_cancel_right (reverse (split b'/' key)) (reverse (split b'/' key')) base
              (sym at ∙ same ∙ at'))),
    )
