-- ===== src/Lookups/Preserved/Shared.antt =====
-- Two rows that one query for a name finds share that name.
use nestjs_starter.Prelude.{
  ℕ, ◌≡◌, refl, sym, ◌∙◌, subst, String, str_eq, eq_iff, Bool, true, false, ◌&&◌, ◌||◌, Bool-cases,
  inl, inr, arith, ◌==◌, ==→eq, ==_refl,
}

pub shared : (a b n : String) → str_eq a n ≡ true → str_eq b n ≡ true → str_eq a b ≡ true
shared a b n s t = (eq_iff a b).1 ((eq_iff a n).0 s ∙ sym ((eq_iff b n).0 t))

pub and_true : (a b : Bool) → (a && b) ≡ true → (a ≡ true) × (b ≡ true)
and_true true b e = (refl, e)
and_true false b e = absurd (cc)

pub both : (a b : Bool) → a ≡ true → b ≡ true → (a && b) ≡ true
both a b e f = ground (arith, e, f)

pub or_left : (a b : Bool) → a ≡ true → (a || b) ≡ true
or_left a b e = ground (arith, e)

pub or_right : (a b : Bool) → b ≡ true → (a || b) ≡ true
or_right a b e = elim (Bool-cases a) [ inl t ↦ ground (arith, t) | inr f ↦ ground (arith, f, e) ]

same_number : (a b n : ℕ) → (a == n) ≡ true → (b == n) ≡ true → (a == b) ≡ true
same_number a b n s t = subst (λ k. (a == k) ≡ true) (==→eq a n s ∙ sym (==→eq b n t)) (==_refl a)

-- Two areas that a query for a name of a city both finds share that name and that city.
pub area_shared :
    (c d : ℕ) (a b : String) (city : ℕ) (name : String)
    → (c == city && str_eq a name) ≡ true
    → (d == city && str_eq b name) ≡ true
    → (c == d && str_eq a b) ≡ true
area_shared c d a b city name s t =
    let (s0, s1) = and_true (c == city) (str_eq a name) s in
    let (t0, t1) = and_true (d == city) (str_eq b name) t in
    both (c == d) (str_eq a b) (same_number c d city s0 t0) (shared a b name s1 t1)
