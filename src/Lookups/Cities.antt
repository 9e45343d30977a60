-- ===== src/Lookups/Cities.antt =====
-- src/modules/cities/services/city.service.ts and repositories/city.repository.ts. The service
-- checks the names by queries of its own before it writes; the table's indexes check again. The
-- list, which changes nothing, and names that are null are left out.
use nestjs_starter.Prelude.{
  ℕ, String, str_eq, Bool, false, ◌&&◌, ◌||◌, not, Option, none, some, is_none, is_some, ◌==◌,
}
use nestjs_starter.Exec.{Exec, not_found, conflict, tr, pure, gets, throw_if, or_throw, ◌>>=◌, ◌>>◌}
use nestjs_starter.Database.{Table}
use nestjs_starter.Lookups.{
  CityEntity, AreaEntity, DriverError, driver_error, Statement, done, failed, changed,
  taken_by_other, present_or, World, unless_clash, unless_restricted, cities_find,
}

abbrev pub has_id : ℕ → CityEntity → Bool
has_id id row = row.id == id

abbrev pub has_name_en : String → CityEntity → Bool
has_name_en name row = str_eq row.name_en name

abbrev pub has_name_ar : String → CityEntity → Bool
has_name_ar name row = str_eq row.name_ar name

pub record CreateCityDto : Type 0 where
  pub name_en : String
  pub name_ar : String

-- a field that is absent stays
pub record UpdateCityDto : Type 0 where
  pub name_en : Option String
  pub name_ar : Option String

-- `repo.create(dto)`, given its generated id
abbrev pub create : CreateCityDto → ℕ → CityEntity
create dto id = record { id = id; name_en = dto.name_en; name_ar = dto.name_ar }

-- `repo.merge(city, dto)`
abbrev pub merge : UpdateCityDto → CityEntity → CityEntity
merge dto city = record city {
  name_en = present_or dto.name_en city.name_en;
  name_ar = present_or dto.name_ar city.name_ar;
}

-- `uq_cities_name_en` and `uq_cities_name_ar`: a row that hinders a new row, or a changed one
abbrev pub shares_name : CityEntity → CityEntity → Bool
shares_name city row = has_name_en city.name_en row || has_name_ar city.name_ar row

abbrev pub clashes : CityEntity → CityEntity → Bool
clashes city row = shares_name city row && not (has_id city.id row)

-- `code === '23503' || code === 'ER_ROW_IS_REFERENCED'`
abbrev pub is_in_use : DriverError → Bool
is_in_use (driver_error none) = false
is_in_use (driver_error (some code)) = str_eq code "23503" || str_eq code "ER_ROW_IS_REFERENCED"

abbrev pub name_en_taken : String
name_en_taken = "city.errors.name_en_taken"

abbrev pub name_ar_taken : String
name_ar_taken = "city.errors.name_ar_taken"

abbrev pub in_use : String
in_use = "city.errors.cannot_delete_in_use"

module _ (C : Table CityEntity) (A : Table AreaEntity) where
  abbrev pub W : Type 0
  W = World C A

  unfoldable pub find_by_id_or_fail : ℕ → Exec W CityEntity
  find_by_id_or_fail id = do
    city ← gets (cities_find C A (has_id id))
    or_throw city (not_found (tr "city.errors.not_found"))

  unfoldable pub assert_exists : ℕ → Exec W (Unit {0})
  assert_exists city_id = do
    city ← gets (cities_find C A (has_id city_id))
    throw_if (is_none city) (not_found (tr "city.errors.not_found"))

  unfoldable pub save : (ℕ → CityEntity) → Exec W (Statement CityEntity)
  save make w =
      let city = make (C.next_id w.cities) in
      unless_clash C A (is_some (cities_find C A (shares_name city) w)) city
        (λ w. record w { cities = C.insert make w.cities }) w

  unfoldable pub merge_and_save : CityEntity → UpdateCityDto → Exec W (Statement CityEntity)
  merge_and_save city dto w =
      let merged = merge dto city in
      unless_clash C A (is_some (cities_find C A (clashes merged) w)) merged
        (λ w. record w { cities = C.update (has_id city.id) (λ row. merged) w.cities }) w

  unfoldable pub create_for_admin : CreateCityDto → Exec W (Statement CityEntity)
  create_for_admin dto = do
    existing_by_name_en ← gets (cities_find C A (has_name_en dto.name_en))
    throw_if (is_some existing_by_name_en) (conflict (tr name_en_taken))
    existing_by_name_ar ← gets (cities_find C A (has_name_ar dto.name_ar))
    throw_if (is_some existing_by_name_ar) (conflict (tr name_ar_taken))
    save (create dto)

  -- the check of a changed name: its query, and the message
  unfoldable pub check_name :
      (String → CityEntity → Bool) → String → ℕ → Option String → Exec W (Unit {0})
  check_name has_name message id none = pure tt
  check_name has_name message id (some name) = do
    existing ← gets (cities_find C A (has_name name))
    throw_if (taken_by_other (has_id id) existing) (conflict (tr message))

  unfoldable pub update_for_admin : ℕ → UpdateCityDto → Exec W (Statement CityEntity)
  update_for_admin id dto = do
    city ← find_by_id_or_fail id
    check_name has_name_en name_en_taken id (changed dto.name_en city.name_en)
    check_name has_name_ar name_ar_taken id (changed dto.name_ar city.name_ar)
    merge_and_save city dto

  -- `repo.delete`; the areas of the city go with it
  unfoldable pub delete_row : ℕ → W → W
  delete_row id w = record w {
    cities = C.delete (has_id id) w.cities;
    areas = A.delete (λ area. area.city_id == id) w.areas;
  }

  -- the `catch` of the deletion
  unfoldable pub explain : Statement (Unit {0}) → Exec W (Statement (Unit {0}))
  explain (done a) = pure (done a)
  explain (failed e) = do throw_if (is_in_use e) (conflict (tr in_use)); pure (failed e)

  unfoldable pub delete_for_admin : (ℕ → Option DriverError) → ℕ → Exec W (Statement (Unit {0}))
  delete_for_admin restricted id = do
    city ← find_by_id_or_fail id
    outcome ← unless_restricted C A (restricted city.id) (delete_row city.id)
    explain outcome
