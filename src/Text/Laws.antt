-- ===== src/Text/Laws.antt =====
-- Splitting and joining undo each other; trimming leaves no separator at the end it trims.
use Prim.Native.Char.{Char, code}
use Prim.Native.String.{[] as nil, ◌∷◌ as char_then, ◌++◌ as append}
use Prim.Native.String.append
use text.Mathlib.TextEquality.{Char-path}
use nestjs_starter.Prelude.{
  ℕ, String, false, ◌≡◌, ◌≢◌, refl, sym, ap, ◌∙◌, List, [], ◌∷◌, All, ◌==◌, ==→eq, ==_refl,
  Bool-cases, inl, inr, arith,
}
use nestjs_starter.Text.{has_char, prepend, split, join}

-- the text of one character
abbrev pub one_char : Char → String
one_char c = char_then c nil

prepend-ne-nil : (c : Char) (ps : List String) → prepend c ps ≢ []
prepend-ne-nil c [] e = cc
prepend-ne-nil c (p ∷ ps) e = cc

pub split-ne-nil : (n : ℕ) (s : String) → split n s ≢ []
split-ne-nil n nil e = cc
split-ne-nil n (char_then c s) e = elim (Bool-cases (code c == n)) [
  | inl t ↦ ground (arith, t, e)
  | inr f ↦ prepend-ne-nil c (split n s) (ground (arith, f, e))
]

join-prepend :
    (sep : String) (c : Char) (ps : List String)
    → ps ≢ []
    → join sep (prepend c ps) ≡ char_then c (join sep ps)
join-prepend sep c [] h = absurd (h refl)
join-prepend sep c (p ∷ []) h = refl
join-prepend sep c (p ∷ q ∷ ps) h = append.cons c p (append sep (join sep (q ∷ ps)))

join-nil_then :
    (sep : Char) (ps : List String)
    → ps ≢ []
    → join (one_char sep) (nil ∷ ps) ≡ char_then sep (join (one_char sep) ps)
join-nil_then sep [] h = absurd (h refl)
join-nil_then sep (p ∷ ps) h =
    append.nil _ ∙ append.cons sep nil _ ∙ ap (char_then sep) (append.nil _)

-- Joining the parts gives the text back.
pub join-split : (sep : Char) (s : String) → join (one_char sep) (split (code sep) s) ≡ s
join-split sep nil = refl
join-split sep (char_then c s) =
    let some_part = split-ne-nil (code sep) s in
    let again = join-split sep s in
    elim (Bool-cases (code c == code sep)) [
      | inl t ↦ rw t (
          join-nil_then sep (split (code sep) s) some_part
          ∙ ap (char_then sep) again
          ∙ ap (λ c. char_then c s) (sym (Char-path c sep (==→eq (code c) (code sep) t))))
      | inr f ↦
          rw f
            (join-prepend (one_char sep) c (split (code sep) s) some_part ∙ ap (char_then c) again)
    ]

-- A part without the separator is one part, and what follows a separator is split on its own.
pub split-append :
    (sep : Char) (p s : String)
    → has_char (code sep) p ≡ false
    → split (code sep) (append p (char_then sep s)) ≡ p ∷ split (code sep) s
split-append sep nil s h =
    ap (split (code sep)) (append.nil (char_then sep s)) ∙ rw (==_refl (code sep)) refl
split-append sep (char_then c p) s h = elim (Bool-cases (code c == code sep)) [
  | inl t ↦ absurd (ground (arith, t, h))
  | inr f ↦
      ap (split (code sep)) (append.cons c p (char_then sep s))
      ∙ rw f (ap (prepend c) (split-append sep p s (ground (arith, f, h))))
]

pub split_one : (n : ℕ) (p : String) → has_char n p ≡ false → split n p ≡ p ∷ []
split_one n nil h = refl
split_one n (char_then c p) h = elim (Bool-cases (code c == n)) [
  | inl t ↦ absurd (ground (arith, t, h))
  | inr f ↦ rw f (ap (prepend c) (split_one n p (ground (arith, f, h))))
]

-- Splitting the joined parts gives them back, if there is a part and none has the separator.
pub split-join :
    (sep : Char) (ps : List String)
    → ps ≢ []
    → All (λ p. has_char (code sep) p ≡ false) ps
    → split (code sep) (join (one_char sep) ps) ≡ ps
split-join sep [] h all = absurd (h refl)
split-join sep (p ∷ []) h all = split_one (code sep) p all.0
split-join sep (p ∷ q ∷ ps) h all =
    ap (λ t. split (code sep) (append p t))
      (append.cons sep nil _ ∙ ap (char_then sep) (append.nil _))
    ∙ split-append sep p (join (one_char sep) (q ∷ ps)) all.0
    ∙ ap (λ qs. p ∷ qs) (split-join sep (q ∷ ps) (λ e. absurd (cc)) all.1)

-- No part has the separator.
pub All-split : (n : ℕ) (s : String) → All (λ p. has_char n p ≡ false) (split n s)
All-split n nil = (refl, tt)
All-split n (char_then c s) = elim (Bool-cases (code c == n)) [
  | inl t ↦ rw t (refl, All-split n s)
  | inr f ↦ rw f (go (split n s) f (All-split n s))
]
  where
    go :
        (ps : List String)
        → (code c == n) ≡ false
        → All (λ p. has_char n p ≡ false) ps
        → All (λ p. has_char n p ≡ false) (prepend c ps)
    go [] f all = (rw f refl, tt)
    go (p ∷ ps) f all = (rw f all.0, all.1)
