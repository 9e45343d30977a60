-- ===== src/Lookups/Writes.antt =====
-- What one statement does to a table's ids and to its unique names, for src/modules/cities and
-- src/modules/areas.
use nestjs_starter.Prelude.{
  ℕ, ◌≤◌, ◌<◌, ◌≡◌, sym, ◌∙◌, subst, Bool, true, not, ◌&&◌, none, List, [], ◌∷◌, find, count_where,
  update_where, Bool-cases, inl, inr, arith, ◌==◌, ==→eq, Descending,
}
use nestjs_starter.Database.{Table}
use nestjs_starter.Database.Rows.{count-zero, sum-delete_le, sum-update_le}
use nestjs_starter.Database.Keys.{Descending-delete, count-key_le}
use nestjs_starter.Lookups.Indexes.{count-written}

module _ {A : Type 0} (T : Table A) (key : A → ℕ) where
  -- the table's ids are those that its sequence has given out, each once
  abbrev pub IsOrdered : T.Db → Type 0
  IsOrdered db = Descending key (T.next_id db) (T.rows db)

  pub insert-IsOrdered :
      (make : ℕ → A) (db : T.Db)
      → ((id : ℕ) → key (make id) ≡ id)
      → IsOrdered db
      → IsOrdered (T.insert make db)
  insert-IsOrdered make db made o =
      let first : key (make (T.next_id db)) < T.next_id (T.insert make db) =
        (omega (arith, made (T.next_id db), T.next_id-insert make db)) in
      rw (T.rows-insert make db)
        (first, subst (λ b. Descending key b (T.rows db)) (sym (made (T.next_id db))) o)

  pub delete-IsOrdered : (p : A → Bool) (db : T.Db) → IsOrdered db → IsOrdered (T.delete p db)
  delete-IsOrdered p db o =
      rw (T.rows-delete p db, T.next_id-delete p db)
        (Descending-delete key p (T.next_id db) (T.rows db) o)

  -- a query that nothing but the new row may have joined
  pub insert-once :
      (q : A → Bool) (make : ℕ → A) (db : T.Db)
      → (q (make (T.next_id db)) ≡ true → find q (T.rows db) ≡ none)
      → count_where q (T.rows db) ≤ 1
      → count_where q (T.rows (T.insert make db)) ≤ 1
  insert-once q make db alone once =
      subst (λ xs. count_where q xs ≤ 1) (sym (T.rows-insert make db))
        (elim (Bool-cases (q (make (T.next_id db)))) [
          | inl t ↦ ground (arith, t, count-zero q (T.rows db) (alone t))
          | inr f ↦ ground (arith, f, once)
        ])

  pub delete-once :
      (q p : A → Bool) (db : T.Db)
      → count_where q (T.rows db) ≤ 1
      → count_where q (T.rows (T.delete p db)) ≤ 1
  delete-once q p db once =
      let fewer = sum-delete_le q p (λ _. 1) (T.rows db) in
      subst (λ xs. count_where q xs ≤ 1) (sym (T.rows-delete p db)) (omega (arith, once, fewer))

  Descending-write :
      (id b : ℕ) (e : A) (xs : List A)
      → key e ≡ id
      → Descending key b xs
      → Descending key b (update_where (λ x. key x == id) (λ x. e) xs)
  Descending-write id b e [] k d = tt
  Descending-write id b e (x ∷ xs) k d = elim (Bool-cases (key x == id)) [
    | inl t ↦
        let same : key x ≡ key e = ==→eq (key x) id t ∙ sym k in
        let rest = Descending-write id (key x) e xs k d.1 in
        rw t (
          subst (λ n. n < b) same d.0,
          subst (λ n. Descending key n (update_where (λ x. key x == id) (λ x. e) xs)) same rest,
        )
    | inr f ↦ rw f (d.0, Descending-write id (key x) e xs k d.1)
  ]

  -- a changed copy of a row in that row's place
  module _ (id : ℕ) (e : A) (db : T.Db) where
    pub write-IsOrdered :
        key e ≡ id → IsOrdered db → IsOrdered (T.update (λ x. key x == id) (λ x. e) db)
    write-IsOrdered k o =
        rw
          (
            T.rows-update (λ x. key x == id) (λ x. e) db,
            T.next_id-update (λ x. key x == id) (λ x. e) db,
          )
          (Descending-write id (T.next_id db) e (T.rows db) k o)

    pub write-once :
        (q : A → Bool)
        → IsOrdered db
        → (q e ≡ true → find (λ x. q x && not (key x == id)) (T.rows db) ≡ none)
        → count_where q (T.rows db) ≤ 1
        → count_where q (T.rows (T.update (λ x. key x == id) (λ x. e) db)) ≤ 1
    write-once q o alone once =
        subst (λ xs. count_where q xs ≤ 1) (sym (T.rows-update (λ x. key x == id) (λ x. e) db))
          (elim (Bool-cases (q e)) [
            | inl t ↦
                let at_most = count-written q (λ x. key x == id) e (T.rows db) (alone t) in
                let one =
                  count-key_le key id (T.next_id db) (λ x. key x == id) (T.rows db) o
                    (λ x. ==→eq (key x) id) in
                omega (arith, at_most, one)
            | inr f ↦
                let fewer =
                  sum-update_le (λ x. key x == id) q (λ x. e) (λ _. 1) (T.rows db)
                    (λ x t. absurd (cc)) (λ x. omega arith) in
                omega (arith, fewer, once)
          ])
