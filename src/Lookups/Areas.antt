-- ===== src/Lookups/Areas.antt =====
-- src/modules/areas/services/area.service.ts and repositories/area.repository.ts. The names of an
-- area are unique within its city. The page of areas, which changes nothing, is left out.
use nestjs_starter.Prelude.{
  ℕ, String, str_eq, Bool, false, ◌&&◌, ◌||◌, not, Option, none, some, is_none, is_some, ◌==◌,
}
use nestjs_starter.Exec.{Exec, not_found, conflict, tr, pure, gets, throw_if, or_throw, ◌>>=◌, ◌>>◌}
use nestjs_starter.Database.{Table}
use nestjs_starter.Lookups.{
  CityEntity, AreaEntity, DriverError, driver_error, Statement, done, failed, changed,
  taken_by_other, present_or, World, unless_clash, unless_restricted, areas_find,
}
use nestjs_starter.Lookups.Cities.{assert_exists as assert_city_exists}

abbrev pub has_id : ℕ → AreaEntity → Bool
has_id id row = row.id == id

abbrev pub has_name_en : ℕ → String → AreaEntity → Bool
has_name_en city_id name row = row.city_id == city_id && str_eq row.name_en name

abbrev pub has_name_ar : ℕ → String → AreaEntity → Bool
has_name_ar city_id name row = row.city_id == city_id && str_eq row.name_ar name

pub record CreateAreaDto : Type 0 where
  pub city_id : ℕ
  pub name_en : String
  pub name_ar : String

-- a field that is absent stays
pub record UpdateAreaDto : Type 0 where
  pub city_id : Option ℕ
  pub name_en : Option String
  pub name_ar : Option String

-- `repo.create(data)`, given its generated id
abbrev pub create : CreateAreaDto → ℕ → AreaEntity
create dto id = record {
  id = id;
  city_id = dto.city_id;
  name_en = dto.name_en;
  name_ar = dto.name_ar;
}

-- `repo.merge(entity, changes)`
abbrev pub merge : UpdateAreaDto → AreaEntity → AreaEntity
merge dto area = record area {
  city_id = present_or dto.city_id area.city_id;
  name_en = present_or dto.name_en area.name_en;
  name_ar = present_or dto.name_ar area.name_ar;
}

-- `uq_areas_city_id_name_en` and `uq_areas_city_id_name_ar`: a row that hinders a new row, or a
-- changed one
abbrev pub shares_name : AreaEntity → AreaEntity → Bool
shares_name area row =
    has_name_en area.city_id area.name_en row || has_name_ar area.city_id area.name_ar row

abbrev pub clashes : AreaEntity → AreaEntity → Bool
clashes area row = shares_name area row && not (has_id area.id row)

-- `code === '23503'`
abbrev pub is_in_use : DriverError → Bool
is_in_use (driver_error none) = false
is_in_use (driver_error (some code)) = str_eq code "23503"

abbrev pub name_en_taken : String
name_en_taken = "area.errors.name_en_taken"

abbrev pub name_ar_taken : String
name_ar_taken = "area.errors.name_ar_taken"

abbrev pub in_use : String
in_use = "area.errors.cannot_delete_in_use"

module _ (C : Table CityEntity) (A : Table AreaEntity) where
  abbrev pub W : Type 0
  W = World C A

  unfoldable pub find_by_id_or_fail : ℕ → Exec W AreaEntity
  find_by_id_or_fail id = do
    area ← gets (areas_find C A (has_id id))
    or_throw area (not_found (tr "area.errors.not_found"))

  unfoldable pub assert_exists : ℕ → Exec W (Unit {0})
  assert_exists area_id = do
    area ← gets (areas_find C A (has_id area_id))
    throw_if (is_none area) (not_found (tr "area.errors.not_found"))

  unfoldable pub validate_city_and_area : ℕ → ℕ → Exec W AreaEntity
  validate_city_and_area area_id city_id = do
    area ← find_by_id_or_fail area_id
    throw_if (not (area.city_id == city_id)) (conflict (tr "area.errors.area_not_in_city"))
    pure area

  unfoldable pub save : (ℕ → AreaEntity) → Exec W (Statement AreaEntity)
  save make w =
      let area = make (A.next_id w.areas) in
      unless_clash C A (is_some (areas_find C A (shares_name area) w)) area
        (λ w. record w { areas = A.insert make w.areas }) w

  unfoldable pub merge_and_save : AreaEntity → UpdateAreaDto → Exec W (Statement AreaEntity)
  merge_and_save area dto w =
      let merged = merge dto area in
      unless_clash C A (is_some (areas_find C A (clashes merged) w)) merged
        (λ w. record w { areas = A.update (has_id area.id) (λ row. merged) w.areas }) w

  unfoldable pub create_for_admin : CreateAreaDto → Exec W (Statement AreaEntity)
  create_for_admin dto = do
    assert_city_exists C A dto.city_id
    existing_by_name_en ← gets (areas_find C A (has_name_en dto.city_id dto.name_en))
    throw_if (is_some existing_by_name_en) (conflict (tr name_en_taken))
    existing_by_name_ar ← gets (areas_find C A (has_name_ar dto.city_id dto.name_ar))
    throw_if (is_some existing_by_name_ar) (conflict (tr name_ar_taken))
    save (create dto)

  unfoldable pub assert_city_given : Option ℕ → Exec W (Unit {0})
  assert_city_given none = pure tt
  assert_city_given (some city_id) = assert_city_exists C A city_id

  -- the check of a changed name: its query, and the message
  unfoldable pub check_name :
      (String → AreaEntity → Bool) → String → ℕ → Option String → Exec W (Unit {0})
  check_name has_name message id none = pure tt
  check_name has_name message id (some name) = do
    existing ← gets (areas_find C A (has_name name))
    throw_if (taken_by_other (has_id id) existing) (conflict (tr message))

  unfoldable pub update_for_admin : ℕ → UpdateAreaDto → Exec W (Statement AreaEntity)
  update_for_admin id dto = do
    area ← find_by_id_or_fail id
    let effective_city_id = present_or dto.city_id area.city_id
    assert_city_given dto.city_id
    check_name (has_name_en effective_city_id) name_en_taken id (changed dto.name_en area.name_en)
    check_name (has_name_ar effective_city_id) name_ar_taken id (changed dto.name_ar area.name_ar)
    merge_and_save area dto

  unfoldable pub delete_row : ℕ → W → W
  delete_row id w = record w { areas = A.delete (has_id id) w.areas }

  -- the `catch` of the deletion
  unfoldable pub explain : Statement (Unit {0}) → Exec W (Statement (Unit {0}))
  explain (done a) = pure (done a)
  explain (failed e) = do throw_if (is_in_use e) (conflict (tr in_use)); pure (failed e)

  unfoldable pub delete_for_admin : (ℕ → Option DriverError) → ℕ → Exec W (Statement (Unit {0}))
  delete_for_admin restricted id = do
    area ← find_by_id_or_fail id
    outcome ← unless_restricted C A (restricted area.id) (delete_row area.id)
    explain outcome
