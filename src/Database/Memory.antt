-- ===== src/Database/Memory.antt =====
-- A table in memory, which meets the laws; the tests run on it.
use nestjs_starter.Prelude.{
  ℕ, suc, ◌≤◌, ◌<◌, refl, List, [], ◌∷◌, update_where, delete_where, arith,
}
use nestjs_starter.Database.{Table}

pub record Contents (Row : Type 0) : Type 0 where
  pub rows : List Row
  pub next_id : ℕ

pub lt-suc : (n : ℕ) → n < suc n
lt-suc n = omega arith

pub le_refl : (n : ℕ) → n ≤ n
le_refl n = omega arith

abbrev pub memory : {Row : Type 0} → Table Row
memory {Row} = record {
  Db = Contents Row;
  rows = λ db. db.rows;
  next_id = λ db. db.next_id;
  insert = λ f db. record { rows = f db.next_id ∷ db.rows; next_id = suc db.next_id };
  update = λ p f db. record { rows = update_where p f db.rows; next_id = db.next_id };
  delete = λ p db. record { rows = delete_where p db.rows; next_id = db.next_id };
  rollback = λ before after. before;
  rows-insert = λ f db. refl;
  rows-update = λ p f db. refl;
  rows-delete = λ p db. refl;
  rows-rollback = λ before after. refl;
  next_id-insert = λ f db. lt-suc db.next_id;
  next_id-update = λ p f db. refl;
  next_id-delete = λ p db. refl;
  next_id-rollback = λ before after. le_refl before.next_id;
}

abbrev pub empty : {Row : Type 0} → Contents Row
empty = record { rows = []; next_id = 1 }
