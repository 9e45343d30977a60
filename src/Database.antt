-- ===== src/Database.antt =====
-- The database as the repositories use it through TypeORM: one table of rows with a generated id.
-- TypeORM and Postgres are not in the repository: a table is a parameter of the model, and its
-- laws are the documented meaning of INSERT, UPDATE, DELETE and ROLLBACK.
pub mod Memory
pub mod Rows
pub mod Keys
use nestjs_starter.Prelude.{ℕ, ◌≤◌, ◌<◌, ◌≡◌, Bool, List, ◌∷◌, update_where, delete_where}

pub record Table (Row : Type 0) : Type 1 where
  pub Db : Type 0
  -- the rows, the greatest id first
  pub rows : Db → List Row
  -- the next value of the id's sequence
  pub next_id : Db → ℕ
  -- `save` of a created entity, given its generated id
  pub insert : (ℕ → Row) → Db → Db
  pub update : (Row → Bool) → (Row → Row) → Db → Db
  pub delete : (Row → Bool) → Db → Db
  -- the state after a transaction, begun at the first state, was abandoned at the second
  pub rollback : Db → Db → Db
  pub rows-insert : (f : ℕ → Row) (db : Db) → rows (insert f db) ≡ f (next_id db) ∷ rows db
  pub rows-update :
      (p : Row → Bool) (f : Row → Row) (db : Db) → rows (update p f db) ≡ update_where p f (rows db)
  pub rows-delete : (p : Row → Bool) (db : Db) → rows (delete p db) ≡ delete_where p (rows db)
  pub rows-rollback : (before after : Db) → rows (rollback before after) ≡ rows before
  pub next_id-insert : (f : ℕ → Row) (db : Db) → next_id db < next_id (insert f db)
  pub next_id-update :
      (p : Row → Bool) (f : Row → Row) (db : Db) → next_id (update p f db) ≡ next_id db
  pub next_id-delete : (p : Row → Bool) (db : Db) → next_id (delete p db) ≡ next_id db
  pub next_id-rollback : (before after : Db) → next_id before ≤ next_id (rollback before after)
