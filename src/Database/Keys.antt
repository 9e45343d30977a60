-- ===== src/Database/Keys.antt =====
-- Queries and changes by a key that falls along the rows.
use nestjs_starter.Prelude.{
  ℕ, ◌+◌, ◌≤◌, ◌<◌, ◌≡◌, refl, Bool, true, false, some, List, [], ◌∷◌, ◌==◌, arith, find, sum_where,
  count_where, update_where, delete_where, Descending, Bool-cases, inl, inr,
}

module _ {ℓ} {A : Type ℓ} where
  module _ (key : A → ℕ) where
    pub Descending-weaken :
        (b c : ℕ) (xs : List A) → b ≤ c → Descending key b xs → Descending key c xs
    Descending-weaken b c [] h d = tt
    Descending-weaken b c (x ∷ xs) h d = (omega arith, d.1)

    pub Descending-update :
        (p : A → Bool) (g : A → A) (b : ℕ) (xs : List A)
        → ((x : A) → key (g x) ≡ key x)
        → Descending key b xs
        → Descending key b (update_where p g xs)
    Descending-update p g b [] same d = tt
    Descending-update p g b (x ∷ xs) same d = elim (Bool-cases (p x)) [
      | inl t ↦ rw (t, same x) (d.0, Descending-update p g (key x) xs same d.1)
      | inr f ↦ rw f (d.0, Descending-update p g (key x) xs same d.1)
    ]

    pub Descending-delete :
        (p : A → Bool) (b : ℕ) (xs : List A)
        → Descending key b xs
        → Descending key b (delete_where p xs)
    Descending-delete p b [] d = tt
    Descending-delete p b (x ∷ xs) d = elim (Bool-cases (p x)) [
      | inl t ↦
          rw t (Descending-weaken (key x) b _ (omega arith) (Descending-delete p (key x) xs d.1))
      | inr f ↦ rw f (d.0, Descending-delete p (key x) xs d.1)
    ]

    -- No row holds a key at or above the bound.
    sum-update_absent :
        (i b : ℕ) (q : A → Bool) (g : A → A) (f : A → ℕ) (xs : List A)
        → b ≤ i
        → Descending key b xs
        → sum_where q f (update_where (λ x. key x == i) g xs) ≡ sum_where q f xs
    sum-update_absent i b q g f [] h d = refl
    sum-update_absent i b q g f (x ∷ xs) h d = ground (arith, sum-update_absent i (key x) q g f xs)

    -- A key is held by one row at most, so that an update by key changes one row's share at most.
    pub sum-update_key :
        (i b : ℕ) (q : A → Bool) (g : A → A) (f : A → ℕ) (xs : List A)
        → ((x : A) → q (g x) ≡ q x)
        → ((x : A) → f (g x) ≡ f x + 1)
        → Descending key b xs
        → sum_where q f (update_where (λ x. key x == i) g xs) ≤ sum_where q f xs + 1
    sum-update_key i b q g f [] w v d = omega arith
    sum-update_key i b q g f (x ∷ xs) w v d = ground (
      arith,
      w x,
      v x,
      sum-update_absent i (key x) q g f xs,
      sum-update_key i (key x) q g f xs w v,
    )

    pub find-key_lt :
        (b : ℕ) (s : A → Bool) (xs : List A) (r : A)
        → Descending key b xs
        → find s xs ≡ some r
        → key r < b
    find-key_lt b s [] r d e = absurd (cc)
    find-key_lt b s (x ∷ xs) r d e = ground (arith, find-key_lt (key x) s xs r d.1)

    -- An update by the key of a found row leaves a query alone that does not find that row.
    pub sum-update_other :
        (b : ℕ) (s q : A → Bool) (g : A → A) (f : A → ℕ) (xs : List A) (r : A)
        → ((x : A) → q (g x) ≡ q x)
        → Descending key b xs
        → find s xs ≡ some r
        → q r ≡ false
        → sum_where q f (update_where (λ x. key x == key r) g xs) ≡ sum_where q f xs
    sum-update_other b s q g f [] r w d e n = refl
    sum-update_other b s q g f (x ∷ xs) r w d e n = elim (Bool-cases (s x)) [
      | inl t ↦
          let same : x ≡ r = ground arith in
          ground (arith, w x, same, sum-update_absent (key r) (key x) q g f xs)
      | inr t ↦
          let later : find s xs ≡ some r = ground arith in
          let lower : key r < key x = find-key_lt (key x) s xs r d.1 later in
          ground (arith, later, lower, sum-update_other (key x) s q g f xs r w d.1 later n)
    ]

    -- Nobody is counted under a key at or above the bound.
    pub count-key_absent :
        (i b : ℕ) (q : A → Bool) (xs : List A)
        → b ≤ i
        → Descending key b xs
        → ((x : A) → q x ≡ true → key x ≡ i)
        → count_where q xs ≡ 0
    count-key_absent i b q [] h d w = refl
    count-key_absent i b q (x ∷ xs) h d w = ground (arith, w x, count-key_absent i (key x) q xs)

    -- A key is counted once at most.
    pub count-key_le :
        (i b : ℕ) (q : A → Bool) (xs : List A)
        → Descending key b xs
        → ((x : A) → q x ≡ true → key x ≡ i)
        → count_where q xs ≤ 1
    count-key_le i b q [] d w = omega arith
    count-key_le i b q (x ∷ xs) d w =
        ground (arith, w x, count-key_absent i (key x) q xs, count-key_le i (key x) q xs)
