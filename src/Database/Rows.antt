-- ===== src/Database/Rows.antt =====
-- What queries answer after the rows were changed.
use nestjs_starter.Prelude.{
  if◌then◌else◌, ℕ, ◌≤◌, ◌<◌, ◌≡◌, refl, Bool, true, false, none, some, List, [], ◌∷◌, arith, find,
  sum_where, count_where, update_where, delete_where, All, Bool-cases, inl, inr,
}

module _ {ℓ} {A : Type ℓ} where
  pub find_sound : (p : A → Bool) (xs : List A) {x : A} → find p xs ≡ some x → p x ≡ true
  find_sound p [] e = cc
  find_sound p (x ∷ xs) e = elim (Bool-cases (p x)) [
    | inl t ↦ ground arith
    | inr f ↦ find_sound p xs (ground arith)
  ]

  pub find-All :
      (P : A → Type ℓ) (p : A → Bool) (xs : List A) {x : A} → All P xs → find p xs ≡ some x → P x
  find-All P p [] h e = absurd (cc)
  find-All P p (y ∷ xs) {x} h e = elim (Bool-cases (p y)) [
    | inl t ↦ let same : y ≡ x = ground arith in rw same at (h.0)
    | inr f ↦ find-All P p xs h.1 (ground arith)
  ]

  -- An update that the query does not see changes the found row in place.
  pub find-update :
      (s p : A → Bool) (g : A → A) (xs : List A) (r : A)
      → ((x : A) → s (g x) ≡ s x)
      → find s xs ≡ some r
      → find s (update_where p g xs) ≡ some (if p r then g r else r)
  find-update s p g [] r w e = absurd (cc)
  find-update s p g (x ∷ xs) r w e = ground (arith, w x, find-update s p g xs r w)

  pub find-update_none :
      (s p : A → Bool) (g : A → A) (xs : List A)
      → ((x : A) → s (g x) ≡ s x)
      → find s xs ≡ none
      → find s (update_where p g xs) ≡ none
  find-update_none s p g [] w e = refl
  find-update_none s p g (x ∷ xs) w e = ground (arith, w x, find-update_none s p g xs w)

  -- A row that was found is counted.
  pub count-pos_of_find :
      (s q : A → Bool) (xs : List A) (r : A)
      → find s xs ≡ some r
      → q r ≡ true
      → 0 < count_where q xs
  count-pos_of_find s q [] r e h = absurd (cc)
  count-pos_of_find s q (x ∷ xs) r e h = ground (arith, count-pos_of_find s q xs r)

  -- A narrower query finds nothing where a wider one counts nothing.
  pub find-none_of_count :
      (p q : A → Bool) (xs : List A)
      → ((x : A) → p x ≡ true → q x ≡ true)
      → count_where q xs ≡ 0
      → find p xs ≡ none
  find-none_of_count p q [] w e = refl
  find-none_of_count p q (x ∷ xs) w e = ground (arith, w x, find-none_of_count p q xs w)

  pub sum-delete_le :
      (p q : A → Bool) (f : A → ℕ) (xs : List A)
      → sum_where p f (delete_where q xs) ≤ sum_where p f xs
  sum-delete_le p q f [] = omega arith
  sum-delete_le p q f (x ∷ xs) = ground (arith, sum-delete_le p q f xs)

  -- The only row of a query is gone after a deletion that takes it.
  pub find-delete_none :
      (q p : A → Bool) (xs : List A) (r : A)
      → count_where q xs ≡ 1
      → find q xs ≡ some r
      → p r ≡ true
      → find q (delete_where p xs) ≡ none
  find-delete_none q p [] r one e h = absurd (cc)
  find-delete_none q p (x ∷ xs) r one e h = elim (Bool-cases (q x)) [
    | inl t ↦
        let same : x ≡ r = ground arith in
        let gone : count_where q xs ≡ 0 = ground arith in
        let fewer = sum-delete_le q p (λ _. 1) xs in
        ground (
          arith,
          same,
          find-none_of_count q q (delete_where p xs) (λ y k. k) (omega (arith, gone, fewer)),
        )
    | inr f ↦ ground (arith, find-delete_none q p xs r)
  ]

  pub sum_mono :
      (p q : A → Bool) (f : A → ℕ) (xs : List A)
      → ((x : A) → p x ≡ true → q x ≡ true)
      → sum_where p f xs ≤ sum_where q f xs
  sum_mono p q f [] w = omega arith
  sum_mono p q f (x ∷ xs) w = ground (arith, w x, sum_mono p q f xs w)

  pub sum-delete :
      (p q : A → Bool) (f : A → ℕ) (xs : List A)
      → ((x : A) → p x ≡ true → q x ≡ false)
      → sum_where p f (delete_where q xs) ≡ sum_where p f xs
  sum-delete p q f [] w = refl
  sum-delete p q f (x ∷ xs) w = ground (arith, w x, sum-delete p q f xs w)

  -- An update that brings no row into the query, and raises no row's share, does not raise the sum.
  pub sum-update_le :
      (p q : A → Bool) (g : A → A) (f : A → ℕ) (xs : List A)
      → ((x : A) → q (g x) ≡ true → q x ≡ true)
      → ((x : A) → f (g x) ≤ f x)
      → sum_where q f (update_where p g xs) ≤ sum_where q f xs
  sum-update_le p q g f [] w v = omega arith
  sum-update_le p q g f (x ∷ xs) w v = ground (arith, w x, v x, sum-update_le p q g f xs w v)

  -- An update that keeps every row's share keeps the sum.
  pub sum-update_eq :
      (p q : A → Bool) (g : A → A) (f : A → ℕ) (xs : List A)
      → ((x : A) → q (g x) ≡ q x)
      → ((x : A) → f (g x) ≡ f x)
      → sum_where q f (update_where p g xs) ≡ sum_where q f xs
  sum-update_eq p q g f [] w v = refl
  sum-update_eq p q g f (x ∷ xs) w v = ground (arith, w x, v x, sum-update_eq p q g f xs w v)

  -- An update of all that the query finds, out of the query, leaves it nothing.
  pub count-update_zero :
      (p q : A → Bool) (g : A → A) (xs : List A)
      → ((x : A) → q x ≡ true → p x ≡ true)
      → ((x : A) → q (g x) ≡ false)
      → count_where q (update_where p g xs) ≡ 0
  count-update_zero p q g [] w v = refl
  count-update_zero p q g (x ∷ xs) w v = ground (arith, w x, v x, count-update_zero p q g xs w v)

  -- An update that takes a found row out of the query lowers the count.
  pub count-update_lt :
      (s p q : A → Bool) (g : A → A) (xs : List A) (r : A)
      → find s xs ≡ some r
      → p r ≡ true
      → q r ≡ true
      → ((x : A) → q (g x) ≡ false)
      → count_where q (update_where p g xs) < count_where q xs
  count-update_lt s p q g [] r e hp hq w = absurd (cc)
  count-update_lt s p q g (x ∷ xs) r e hp hq w = ground (
    arith,
    w x,
    count-update_lt s p q g xs r,
    sum-update_le p q g (λ _. 1) xs (λ y h. absurd (cc (w y))) (λ y. omega arith),
  )

  pub count-zero : (p : A → Bool) (xs : List A) → find p xs ≡ none → count_where p xs ≡ 0
  count-zero p [] e = refl
  count-zero p (x ∷ xs) e = elim (Bool-cases (p x)) [
    | inl t ↦ absurd (ground (arith, t, e))
    | inr f ↦ ground (arith, f, count-zero p xs (ground (arith, f, e)))
  ]
