-- ===== src/Lookups/Indexes.antt =====
-- What the queries before a write say of the unique indexes that check it again, for
-- src/modules/cities and src/modules/areas.
use nestjs_starter.Prelude.{
  ◌≤◌, ◌≡◌, refl, sym, subst, String, str_eq, eq_iff, Bool, true, false, not, ◌&&◌, ◌||◌, Option,
  none, some, is_some, List, [], ◌∷◌, find, count_where, update_where, delete_where, Bool-cases,
  Option-cases, inl, inr, arith,
}
use nestjs_starter.Database.Rows.{find_sound, find-none_of_count, count-pos_of_find}
use nestjs_starter.Lookups.{changed, present_or, taken_by_other}

module _ {A : Type 0} where
  pub find-or_none :
      (p q : A → Bool) (xs : List A)
      → find p xs ≡ none
      → find q xs ≡ none
      → find (λ x. p x || q x) xs ≡ none
  find-or_none p q [] e f = refl
  find-or_none p q (x ∷ xs) e f = ground (arith, find-or_none p q xs)

  pub find-or_and_none :
      (p q h : A → Bool) (xs : List A)
      → find (λ x. p x && h x) xs ≡ none
      → find (λ x. q x && h x) xs ≡ none
      → find (λ x. (p x || q x) && h x) xs ≡ none
  find-or_and_none p q h [] e f = refl
  find-or_and_none p q h (x ∷ xs) e f = ground (arith, find-or_and_none p q h xs)

  pub find-none_narrower :
      (p q : A → Bool) (xs : List A)
      → ((x : A) → q x ≡ true → p x ≡ true)
      → find p xs ≡ none
      → find q xs ≡ none
  find-none_narrower p q [] w e = refl
  find-none_narrower p q (x ∷ xs) w e = ground (arith, w x, find-none_narrower p q xs w)

  -- A row that was found hinders another query too, if that query accepts it.
  pub find-some_of :
      (s q : A → Bool) (xs : List A) (r : A)
      → find s xs ≡ some r
      → q r ≡ true
      → is_some (find q xs) ≡ true
  find-some_of s q [] r e t = cc
  find-some_of s q (x ∷ xs) r e t = ground (arith, find-some_of s q xs r)

  -- The only row of a query is the one that is written.
  pub lone :
      (s q h : A → Bool) (xs : List A) (r : A)
      → count_where q xs ≤ 1
      → find s xs ≡ some r
      → q r ≡ true
      → h r ≡ true
      → find (λ x. q x && not (h x)) xs ≡ none
  lone s q h [] r one e t u = refl
  lone s q h (x ∷ xs) r one e t u = elim (Bool-cases (s x)) [
    | inl k ↦
        let same : x ≡ r = ground arith in
        let rest : count_where q xs ≡ 0 = ground arith in
        let gone = find-none_of_count (λ x. q x && not (h x)) q xs (λ y m. ground arith) rest in
        ground (arith, same, gone)
    | inr k ↦
        let later : find s xs ≡ some r = ground arith in
        let more = count-pos_of_find s q xs r later t in
        ground (arith, more, lone s q h xs r (ground arith) later t u)
  ]

  pub free-of_taken :
      (q h : A → Bool) (xs : List A)
      → count_where q xs ≤ 1
      → taken_by_other h (find q xs) ≡ false
      → find (λ x. q x && not (h x)) xs ≡ none
  free-of_taken q h xs one e = elim (Option-cases (find q xs)) [
    | inl n ↦ find-none_narrower q (λ x. q x && not (h x)) xs (λ x t. ground arith) n
    | inr (r, f) ↦
        let mine : h r ≡ true =
          (let g = subst (λ o. taken_by_other h o ≡ false) f e in ground arith) in
        lone q q h xs r one f (find_sound q xs f) mine
  ]

  -- A row that no other hinders, written over the rows of its id, leaves a name to one row.
  pub count-written :
      (q h : A → Bool) (e : A) (xs : List A)
      → find (λ x. q x && not (h x)) xs ≡ none
      → count_where q (update_where h (λ x. e) xs) ≤ count_where h xs
  count-written q h e [] n = omega arith
  count-written q h e (x ∷ xs) n = ground (arith, count-written q h e xs)

  -- Deleting every row that a change may bring into a query keeps the query empty.
  pub count-delete_mono :
      (p q q' : A → Bool) (xs : List A)
      → ((x : A) → p x ≡ false → q' x ≡ true → q x ≡ true)
      → count_where q' (delete_where p xs) ≤ count_where q xs
  count-delete_mono p q q' [] w = omega arith
  count-delete_mono p q q' (x ∷ xs) w = ground (arith, w x, count-delete_mono p q q' xs w)

  pub find-delete_other :
      (s p : A → Bool) (xs : List A)
      → ((x : A) → s x ≡ true → p x ≡ false)
      → find s (delete_where p xs) ≡ find s xs
  find-delete_other s p [] w = refl
  find-delete_other s p (x ∷ xs) w = ground (arith, w x, find-delete_other s p xs w)

pub changed-none :
    (given : Option String) (old : String) → changed given old ≡ none → present_or given old ≡ old
changed-none none old e = refl
changed-none (some name) old e = elim (Bool-cases (str_eq name old)) [
  | inl t ↦ (eq_iff name old).0 t
  | inr f ↦ ground arith
]

pub changed-some :
    (given : Option String) (old name : String)
    → changed given old ≡ some name
    → present_or given old ≡ name
changed-some none old name e = cc
changed-some (some new) old name e = elim (Bool-cases (str_eq new old)) [
  | inl t ↦ ground arith
  | inr f ↦ ground arith
]

-- A name that stays, or that a query found free, hinders no other row.
pub find-none_of_checked :
    {A : Type 0} (has_name : String → A → Bool) (h : A → Bool) (given : Option String)
    (old : String) (xs : List A) (current : A)
    → find h xs ≡ some current
    → has_name old current ≡ true
    → ((name : String) → count_where (has_name name) xs ≤ 1)
    → ((name : String)
        → changed given old ≡ some name
        → taken_by_other h (find (has_name name) xs) ≡ false)
    → find (λ x. has_name (present_or given old) x && not (h x)) xs ≡ none
find-none_of_checked has_name h given old xs current f own once free =
    elim (Option-cases (changed given old)) [
      | inl n ↦
          subst (λ name. find (λ x. has_name name x && not (h x)) xs ≡ none)
            (sym (changed-none given old n))
            (lone h (has_name old) h xs current (once old) f own (find_sound h xs f))
      | inr (name, c) ↦
          subst (λ name. find (λ x. has_name name x && not (h x)) xs ≡ none)
            (sym (changed-some given old name c))
            (free-of_taken (has_name name) h xs (once name) (free name c))
    ]

-- A row that no other hinders is what its name finds, once it is written.
pub find-written :
    {A : Type 0} (q h : A → Bool) (e : A) (xs : List A) (r : A)
    → find h xs ≡ some r
    → q e ≡ true
    → find (λ x. q x && not (h x)) xs ≡ none
    → find q (update_where h (λ x. e) xs) ≡ some e
find-written q h e [] r f own n = absurd (cc)
find-written q h e (x ∷ xs) r f own n = ground (arith, find-written q h e xs r)
