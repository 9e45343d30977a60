-- ===== src/Lookups.antt =====
-- The lookup tables: src/modules/cities/entities/city.entity.ts and
-- src/modules/areas/entities/area.entity.ts, with the statements of their repositories that write.
-- The unique indexes and the cascade are those that the entities declare. What the foreign keys of
-- other tables answer to a deletion is a parameter.
pub mod Cities
pub mod Areas
pub mod Indexes
pub mod Writes
pub mod Integrity
pub mod Preserved
pub mod Effects
pub mod Accepted
pub mod Verdicts
pub mod Soundness
mod Tests
use nestjs_starter.Prelude.{
  ℕ, String, str_eq, Bool, true, false, ◌&&◌, ◌||◌, not, Option, none, some, is_some, ◌==◌, find,
  if◌then◌else◌,
}
use nestjs_starter.Exec.{Exec, ok, raise, pure, conflict, tr}
use nestjs_starter.Database.{Table}

pub record CityEntity : Type 0 where
  pub id : ℕ
  pub name_en : String
  pub name_ar : String

pub record AreaEntity : Type 0 where
  pub id : ℕ
  pub city_id : ℕ
  pub name_en : String
  pub name_ar : String

-- an error of the driver, with its `code`
pub data DriverError : Type 0 where
  driver_error : Option String → DriverError

-- How the promise of a statement ends. An error of the driver is no HTTP exception.
pub data Statement (A : Type 0) : Type 0 where
  done : A → Statement A
  failed : DriverError → Statement A

abbrev pub unique_violation : DriverError
unique_violation = driver_error (some "23505")

-- `if (existing && existing.id !== id)`
abbrev pub taken_by_other {ℓ} : {A : Type ℓ} → (A → Bool) → Option A → Bool
taken_by_other is_it none = false
taken_by_other is_it (some existing) = not (is_it existing)

-- `if (dto.name !== undefined && dto.name !== entity.name)`: the name to check
abbrev pub changed : Option String → String → Option String
changed none old = none
changed (some name) old = if str_eq name old then none else some name

-- `merge` of a field of the changes
abbrev pub present_or {ℓ} : {A : Type ℓ} → Option A → A → A
present_or none old = old
present_or (some new) old = new

module _ (C : Table CityEntity) (A : Table AreaEntity) where
  pub record World : Type 0 where
    pub cities : C.Db
    pub areas : A.Db

  -- a statement that a unique index may reject
  abbrev pub unless_clash : {R : Type 0} → Bool → R → (World → World) → Exec World (Statement R)
  unless_clash true row write w = (ok (failed unique_violation), w)
  unless_clash false row write w = (ok (done row), write w)

  -- a deletion, which a foreign key may reject
  abbrev pub unless_restricted :
      Option DriverError → (World → World) → Exec World (Statement (Unit {0}))
  unless_restricted (some e) write w = (ok (failed e), w)
  unless_restricted none write w = (ok (done tt), write w)

  unfoldable pub cities_find : (CityEntity → Bool) → World → Option CityEntity
  cities_find p w = find p (C.rows w.cities)

  unfoldable pub areas_find : (AreaEntity → Bool) → World → Option AreaEntity
  areas_find p w = find p (A.rows w.areas)
