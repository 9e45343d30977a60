-- ===== src/Users/Repository.antt =====
-- Queries after writes: src/modules/users/repositories/user.repository.ts.
use nestjs_starter.Prelude.{
  ℕ, ◌≤◌, ◌≡◌, ◌≢◌, refl, ap, sym, subst, ◌∙◌, String, str_eq, eq_iff, false, none, some, List, [],
  ◌∷◌, inl, inr, find, update_where, count_where, Descending, ==→eq, ◌==◌, Bool-cases, Option-cases,
  arith, if◌then◌else◌,
}
use nestjs_starter.Database.{Table}
use nestjs_starter.Database.Rows.{
  count-zero, find_sound, find-update, find-update_none, sum-update_eq,
}
use nestjs_starter.Database.Keys.{find-key_lt, Descending-update}
use nestjs_starter.Users.{UserEntity, has_id, has_phone, find_by_id, find_by_phone, merge_and_save}

ne→==_false : (a b : ℕ) → a ≢ b → (a == b) ≡ false
ne→==_false a b n = ground arith

module _ {A : Type 0} (key : A → ℕ) where
  update-below :
      (i b : ℕ) (g : A → A) (xs : List A)
      → b ≤ i
      → Descending key b xs
      → update_where (λ x. key x == i) g xs ≡ xs
  update-below i b g [] h d = refl
  update-below i b g (x ∷ xs) h (below, d) =
      ground (arith, h, below, update-below i (key x) g xs (omega (arith, h, below)) d)

  -- The key names one row, so that writing a changed copy of that row is changing it in place.
  pub update-found :
      (i b : ℕ) (g : A → A) (xs : List A) (r : A)
      → Descending key b xs
      → find (λ x. key x == i) xs ≡ some r
      → update_where (λ x. key x == i) (λ x. g r) xs ≡ update_where (λ x. key x == i) g xs
  update-found i b g [] r d e = cc
  update-found i b g (x ∷ xs) r (below, d) e = elim (Bool-cases (key x == i)) [
    | inl t ↦
        let same : some x ≡ some r = (ground (arith, t, e)) in
        let at : key x ≡ i = ==→eq (key x) i t in
        ground (
          arith,
          t,
          same,
          update-below i (key x) g xs (omega (arith, at)) d,
          update-below i (key x) (λ x. g r) xs (omega (arith, at)) d,
        )
    | inr f ↦ ground (arith, f, update-found i (key x) g xs r d (ground (arith, f, e)))
  ]

module _ (T : Table UserEntity) where
  -- the table's ids are those that its sequence has given out, each once
  abbrev pub IsOrdered : T.Db → Type 0
  IsOrdered db = Descending (λ e. e.id) (T.next_id db) (T.rows db)

  module _ (db : T.Db) (id : ℕ) (current : UserEntity) (merge : UserEntity → UserEntity)
      (found : find_by_id T id db ≡ some current) (ordered : IsOrdered db)
      (same_id : (e : UserEntity) → (merge e).id ≡ e.id) where
    pub found-id : current.id ≡ id
    unfolding find_by_id
    found-id = ==→eq current.id id (find_sound (has_id id) (T.rows db) found)

    pub rows-merge_and_save :
        T.rows (merge_and_save T current merge db) ≡ update_where (has_id id) merge (T.rows db)
    unfolding merge_and_save find_by_id
    rows-merge_and_save =
        T.rows-update (has_id current.id) (λ row. merge current) db
        ∙ ap (λ i. update_where (has_id i) (λ row. merge current) (T.rows db)) found-id
        ∙ update-found (λ e. e.id) id (T.next_id db) merge (T.rows db) current ordered found

    pub merge_and_save-IsOrdered : IsOrdered (merge_and_save T current merge db)
    unfolding merge_and_save
    merge_and_save-IsOrdered =
        subst (λ n. Descending (λ e. e.id) n (T.rows (merge_and_save T current merge db)))
          (sym (T.next_id-update (has_id current.id) (λ row. merge current) db))
          (subst (λ xs. Descending (λ e. e.id) (T.next_id db) xs) (sym rows-merge_and_save)
            (Descending-update (λ e. e.id) (has_id id) merge (T.next_id db) (T.rows db) same_id
              ordered))

    pub find_by_id-merged :
        find_by_id T id (merge_and_save T current merge db) ≡ some (merge current)
    unfolding find_by_id
    find_by_id-merged =
        ap (find (has_id id)) rows-merge_and_save
        ∙ find-update (has_id id) (has_id id) merge (T.rows db) current
            (λ x. ap (λ i. i == id) (same_id x)) found
        ∙ ap (λ b. some (if b then merge current else current))
            (find_sound (has_id id) (T.rows db) found)

    pub find_by_id-other :
        (other : ℕ)
        → other ≢ id
        → find_by_id T other (merge_and_save T current merge db) ≡ find_by_id T other db
    unfolding find_by_id
    find_by_id-other other n =
        ap (find (has_id other)) rows-merge_and_save
        ∙ elim (Option-cases (find (has_id other) (T.rows db))) [
          | inl none_found ↦
              find-update_none (has_id other) (has_id id) merge (T.rows db)
                (λ x. ap (λ i. i == other) (same_id x)) none_found
              ∙ sym none_found
          | inr (r, f) ↦
              let at : r.id ≡ other = ==→eq r.id other (find_sound (has_id other) (T.rows db) f) in
              find-update (has_id other) (has_id id) merge (T.rows db) r
                (λ x. ap (λ i. i == other) (same_id x)) f
              ∙ ap (λ b. some (if b then merge r else r))
                  (ne→==_false r.id id (λ e. n (cc (e, at))))
              ∙ sym f
        ]

    pub count-merged :
        (phone : String)
        → ((e : UserEntity) → (merge e).phone ≡ e.phone)
        → count_where (has_phone phone) (T.rows (merge_and_save T current merge db))
          ≡ count_where (has_phone phone) (T.rows db)
    count-merged phone same_phone =
        ap (count_where (has_phone phone)) rows-merge_and_save
        ∙ sum-update_eq (has_id id) (has_phone phone) merge (λ e. 1) (T.rows db)
            (λ e. ap (λ p. str_eq p phone) (same_phone e)) (λ e. refl)

  pub insert-IsOrdered :
      (db : T.Db) (make : ℕ → UserEntity)
      → ((id : ℕ) → (make id).id ≡ id)
      → IsOrdered db
      → IsOrdered (T.insert make db)
  insert-IsOrdered db make same_id ordered =
      subst (λ xs. Descending (λ e. e.id) (T.next_id (T.insert make db)) xs)
        (sym (T.rows-insert make db))
        (
          omega (arith, same_id (T.next_id db), T.next_id-insert make db),
          subst (λ b. Descending (λ e. e.id) b (T.rows db)) (sym (same_id (T.next_id db))) ordered,
        )

  pub find_by_id-insert :
      (db : T.Db) (make : ℕ → UserEntity) (id : ℕ) (e : UserEntity)
      → ((id : ℕ) → (make id).id ≡ id)
      → IsOrdered db
      → find_by_id T id db ≡ some e
      → find_by_id T id (T.insert make db) ≡ some e
  unfolding find_by_id
  find_by_id-insert db make id e same_id ordered f =
      let below = find-key_lt (λ x. x.id) (T.next_id db) (has_id id) (T.rows db) e ordered f in
      let at : e.id ≡ id = ==→eq e.id id (find_sound (has_id id) (T.rows db) f) in
      let new : (make (T.next_id db)).id ≢ id =
        (λ h. omega (arith, h, same_id (T.next_id db), below, at)) in
      ap (find (has_id id)) (T.rows-insert make db)
      ∙ ap (λ b. if b then some (make (T.next_id db)) else find (has_id id) (T.rows db))
          (ne→==_false (make (T.next_id db)).id id new)
      ∙ f

  -- An inserted phone that the table did not have occurs once.
  pub count-insert :
      (db : T.Db) (make : ℕ → UserEntity) (phone other : String)
      → find_by_phone T phone db ≡ none
      → (make (T.next_id db)).phone ≡ phone
      → count_where (has_phone other) (T.rows db) ≤ 1
      → count_where (has_phone other) (T.rows (T.insert make db)) ≤ 1
  unfolding find_by_phone
  count-insert db make phone other absent made once =
      let old = count-zero (has_phone phone) (T.rows db) absent in
      let rows = T.rows-insert make db in
      subst (λ xs. count_where (has_phone other) xs ≤ 1) (sym rows)
        (elim (Bool-cases (str_eq phone other)) [
          | inl same ↦
              let zero_old : count_where (has_phone other) (T.rows db) ≡ 0 =
                (subst (λ p. count_where (has_phone p) (T.rows db) ≡ 0)
                  ((eq_iff phone other).0 same) old) in
              ground (arith, zero_old)
          | inr differ ↦
              let not_new : has_phone other (make (T.next_id db)) ≡ false =
                (ap (λ p. str_eq p other) made ∙ differ) in
              ground (arith, not_new, once)
        ])
