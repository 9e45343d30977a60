-- ===== src/Text/Absent.antt =====
-- Characters that a text does not have stay away from what is made of it.
use Prim.Native.Char.{Char, code}
use Prim.Native.String.{[] as nil, ◌∷◌ as char_then, ◌++◌ as append}
use Prim.Native.String.append
use nestjs_starter.Prelude.{
  ℕ, String, false, ◌||◌, ◌≡◌, ◌≢◌, refl, ap, ◌∙◌, List, [], ◌∷◌, ◌++◌, ◌==◌, ==_refl, Bool-cases,
  inl, inr, arith,
}
use nestjs_starter.Text.Laws.{split-ne-nil}
use nestjs_starter.Text.{has_char, replace_char, trim_start, trim_end, prepend, split}

pub has_char-append :
    (n : ℕ) (s t : String) → has_char n (append s t) ≡ (has_char n s || has_char n t)
has_char-append n nil t = ap (has_char n) (append.nil t)
has_char-append n (char_then c s) t =
    ap (has_char n) (append.cons c s t)
    ∙ elim (Bool-cases (code c == n)) [ inl t ↦ rw t refl | inr f ↦ rw f (has_char-append n s t) ]

pub append_absent :
    (n : ℕ) (s t : String)
    → has_char n s ≡ false
    → has_char n t ≡ false
    → has_char n (append s t) ≡ false
append_absent n s t h k = has_char-append n s t ∙ rw (h, k) refl

pub absent_then :
    (n : ℕ) (c : Char) (s : String)
    → (code c == n) ≡ false
    → has_char n s ≡ false
    → has_char n (char_then c s) ≡ false
absent_then n c s h k = rw h k

pub absent_head :
    (n : ℕ) (c : Char) (s : String) → has_char n (char_then c s) ≡ false → (code c == n) ≡ false
absent_head n c s h = ground (arith, h)

pub absent_tail :
    (n : ℕ) (c : Char) (s : String) → has_char n (char_then c s) ≡ false → has_char n s ≡ false
absent_tail n c s h = ground (arith, h)

pub trim_start-keeps :
    (m n : ℕ) (s : String) → has_char m s ≡ false → has_char m (trim_start n s) ≡ false
trim_start-keeps m n nil h = refl
trim_start-keeps m n (char_then c s) h = ground (arith, h, trim_start-keeps m n s)

pub trim_start_absent : (n : ℕ) (s : String) → has_char n s ≡ false → trim_start n s ≡ s
trim_start_absent n nil h = refl
trim_start_absent n (char_then c s) h = rw (absent_head n c s h) refl

pub trim_end_absent : (n : ℕ) (s : String) → has_char n s ≡ false → trim_end n s ≡ s
trim_end_absent n nil h = refl
trim_end_absent n (char_then c s) h =
    rw (absent_head n c s h) (ap (char_then c) (trim_end_absent n s (absent_tail n c s h)))

pub replace-removes :
    (a : ℕ) (b : Char) (s : String)
    → (code b == a) ≡ false
    → has_char a (replace_char a b s) ≡ false
replace-removes a b nil h = refl
replace-removes a b (char_then c s) h = elim (Bool-cases (code c == a)) [
  | inl t ↦ rw t (absent_then a b (replace_char a b s) h (replace-removes a b s h))
  | inr f ↦ rw f (absent_then a c (replace_char a b s) f (replace-removes a b s h))
]

pub replace-keeps :
    (m a : ℕ) (b : Char) (s : String)
    → (code b == m) ≡ false
    → has_char m s ≡ false
    → has_char m (replace_char a b s) ≡ false
replace-keeps m a b nil h k = refl
replace-keeps m a b (char_then c s) h k =
    let rest = replace-keeps m a b s h (absent_tail m c s k) in
    elim (Bool-cases (code c == a)) [
      | inl t ↦ rw t (absent_then m b (replace_char a b s) h rest)
      | inr f ↦ rw f (absent_then m c (replace_char a b s) (absent_head m c s k) rest)
    ]

-- Splitting at a separator splits what stands on its two sides.
pub split-append_any :
    (sep : Char) (p s : String)
    → split (code sep) (append p (char_then sep s)) ≡ split (code sep) p ++ split (code sep) s
split-append_any sep nil s =
    ap (split (code sep)) (append.nil (char_then sep s)) ∙ rw (==_refl (code sep)) refl
split-append_any sep (char_then c p) s =
    ap (split (code sep)) (append.cons c p (char_then sep s))
    ∙ elim (Bool-cases (code c == code sep)) [
      | inl t ↦ rw t (ap (λ l. nil ∷ l) (split-append_any sep p s))
      | inr f ↦ rw f (
          ap (prepend c) (split-append_any sep p s)
          ∙ prepend-append c (split (code sep) p) (split (code sep) s) (split-ne-nil (code sep) p))
    ]
  where
    prepend-append :
        (c : Char) (ps qs : List String) → ps ≢ [] → prepend c (ps ++ qs) ≡ prepend c ps ++ qs
    prepend-append c [] qs h = absurd (h refl)
    prepend-append c (p ∷ ps) qs h = refl
