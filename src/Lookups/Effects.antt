-- ===== src/Lookups/Effects.antt =====
-- What a call of src/modules/cities/services/city.service.ts may write.
pub mod OfAreas
use nestjs_starter.Prelude.{
  ℕ, ◌≡◌, refl, String, Bool, false, Option, none, some, is_none, is_some, find, ◌⊎◌, inl, inr,
  Bool-cases, Option-cases,
}
use nestjs_starter.Exec.{Exec, HttpException, conflict, not_found, tr, ok, throw}
use nestjs_starter.Database.{Table}
use nestjs_starter.Lookups.{
  CityEntity, AreaEntity, DriverError, World, cities_find, areas_find, changed, taken_by_other,
  present_or,
}
use nestjs_starter.Lookups.Cities as Cities
use nestjs_starter.Lookups.Areas as Areas
use nestjs_starter.Lookups.Integrity.{
  is_homeless, Effect, nothing, city_added, city_changed, city_removed, area_added, area_changed,
  area_removed,
}

pub is_some-none : {A : Type 0} (o : Option A) → is_some o ≡ false → o ≡ none
is_some-none none e = refl
is_some-none (some a) e = absurd (cc)

module _ (C : Table CityEntity) (A : Table AreaEntity) (w : World C A) where
  -- A check either lets the call go on or stops it, and writes nothing.
  pub data Check (m : Exec (World C A) (Unit {0})) : Type 0 where
    passed : m w ≡ (ok tt, w) → Check m
    stopped : (e : HttpException) → m w ≡ (throw e, w) → Check m

  city_save-Effect :
      (make : ℕ → CityEntity)
      → ((id : ℕ) → (make id).id ≡ id)
      → Effect C A w (Cities.save C A make w).1
  unfolding Cities.save cities_find
  city_save-Effect make made =
      elim (Bool-cases
        (is_some (find (Cities.shares_name (make (C.next_id w.cities))) (C.rows w.cities)))) [
          | inl t ↦ rw t nothing
          | inr f ↦ rw f (city_added make made (is_some-none _ f))
        ]

  city_merge-Effect :
      (city : CityEntity) (dto : Cities.UpdateCityDto)
      → Effect C A w (Cities.merge_and_save C A city dto w).1
  unfolding Cities.merge_and_save cities_find
  city_merge-Effect city dto =
      elim (Bool-cases
        (is_some (find (Cities.clashes (Cities.merge dto city)) (C.rows w.cities)))) [
          | inl t ↦ rw t nothing
          | inr f ↦ rw f (city_changed (Cities.merge dto city) (is_some-none _ f))
        ]

  pub create_city-Effect :
      (dto : Cities.CreateCityDto) → Effect C A w (Cities.create_for_admin C A dto w).1
  unfolding Cities.create_for_admin
  create_city-Effect dto =
      elim (Option-cases (cities_find C A (Cities.has_name_en dto.name_en) w)) [
        | inl n ↦ elim (Option-cases (cities_find C A (Cities.has_name_ar dto.name_ar) w)) [
          | inl m ↦ simp (n, m) (city_save-Effect (Cities.create dto) (λ id. refl))
          | inr (r, f) ↦ simp (n, f) nothing
        ]
        | inr (r, f) ↦ simp f nothing
      ]

  pub city_check_name-Check :
      (has_name : String → CityEntity → Bool) (message : String) (id : ℕ) (given : Option String)
      → Check (Cities.check_name C A has_name message id given)
  unfolding Cities.check_name
  city_check_name-Check has_name message id none = passed refl
  city_check_name-Check has_name message id (some name) =
      elim (Bool-cases (taken_by_other (Cities.has_id id) (cities_find C A (has_name name) w))) [
        | inl t ↦ stopped (conflict (tr message)) (rw t refl)
        | inr f ↦ passed (rw f refl)
      ]

  pub update_city-Effect :
      (id : ℕ) (dto : Cities.UpdateCityDto) → Effect C A w (Cities.update_for_admin C A id dto w).1
  unfolding Cities.update_for_admin Cities.find_by_id_or_fail
  update_city-Effect id dto = elim (Option-cases (cities_find C A (Cities.has_id id) w)) [
    | inl n ↦ simp n nothing
    | inr (city, f) ↦
        elim (city_check_name-Check Cities.has_name_en Cities.name_en_taken id
          (changed dto.name_en city.name_en)) [
            | passed p ↦
                elim (city_check_name-Check Cities.has_name_ar Cities.name_ar_taken id
                  (changed dto.name_ar city.name_ar)) [
                    | passed q ↦ simp (f, p, q) (city_merge-Effect city dto)
                    | stopped e q ↦ simp (f, p, q) nothing
                  ]
            | stopped e p ↦ simp (f, p) nothing
          ]
  ]

  pub delete_city-Effect :
      (restricted : ℕ → Option DriverError) (id : ℕ)
      → Effect C A w (Cities.delete_for_admin C A restricted id w).1
  unfolding Cities.delete_for_admin Cities.find_by_id_or_fail Cities.explain
  delete_city-Effect restricted id = elim (Option-cases (cities_find C A (Cities.has_id id) w)) [
    | inl n ↦ simp n nothing
    | inr (city, f) ↦ elim (Option-cases (restricted city.id)) [
      | inl n ↦ simp (f, n) (city_removed city.id)
      | inr (e, r) ↦ elim (Bool-cases (Cities.is_in_use e)) [
        | inl t ↦ simp (f, r, t) nothing
        | inr t ↦ simp (f, r, t) nothing
      ]
    ]
  ]

  -- The city of a new area exists, or the call stops.
  pub city_asserted :
      (city_id : ℕ)
      → ((Cities.assert_exists C A city_id w ≡ (ok tt, w))
          × (is_none (find (Cities.has_id city_id) (C.rows w.cities)) ≡ false))
        ⊎ (Cities.assert_exists C A city_id w ≡ (throw (not_found (tr "city.errors.not_found")), w))
  unfolding Cities.assert_exists cities_find
  city_asserted city_id = elim (Option-cases (find (Cities.has_id city_id) (C.rows w.cities))) [
    | inl n ↦ inr (rw n refl)
    | inr (city, f) ↦ inl (rw f refl, rw f refl)
  ]
