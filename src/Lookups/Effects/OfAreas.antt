-- ===== src/Lookups/Effects/OfAreas.antt =====
-- What a call of src/modules/areas/services/area.service.ts may write.
use nestjs_starter.Prelude.{
  ℕ, ◌≡◌, refl, String, Bool, false, Option, none, some, is_none, is_some, find, ◌⊎◌, inl, inr,
  Bool-cases, Option-cases,
}
use nestjs_starter.Exec.{conflict, not_found, tr, ok, throw}
use nestjs_starter.Database.{Table}
use nestjs_starter.Lookups.{
  CityEntity, AreaEntity, DriverError, World, areas_find, changed, taken_by_other, present_or,
}
use nestjs_starter.Lookups.Cities as Cities
use nestjs_starter.Lookups.Areas as Areas
use nestjs_starter.Lookups.Integrity.{
  is_homeless, Effect, nothing, area_added, area_changed, area_removed,
}
use nestjs_starter.Lookups.Effects.{is_some-none, Check, passed, stopped, city_asserted}

module _ (C : Table CityEntity) (A : Table AreaEntity) (w : World C A) where
  pub delete_area-Effect :
      (restricted : ℕ → Option DriverError) (id : ℕ)
      → Effect C A w (Areas.delete_for_admin C A restricted id w).1
  unfolding Areas.delete_for_admin Areas.find_by_id_or_fail Areas.explain
  delete_area-Effect restricted id = elim (Option-cases (areas_find C A (Areas.has_id id) w)) [
    | inl n ↦ simp n nothing
    | inr (area, f) ↦ elim (Option-cases (restricted area.id)) [
      | inl n ↦ simp (f, n) (area_removed area.id)
      | inr (e, r) ↦ elim (Bool-cases (Areas.is_in_use e)) [
        | inl t ↦ simp (f, r, t) nothing
        | inr t ↦ simp (f, r, t) nothing
      ]
    ]
  ]

  area_save-Effect :
      (make : ℕ → AreaEntity)
      → ((id : ℕ) → (make id).id ≡ id)
      → is_homeless (C.rows w.cities) (make (A.next_id w.areas)) ≡ false
      → Effect C A w (Areas.save C A make w).1
  unfolding Areas.save areas_find
  area_save-Effect make made home =
      elim (Bool-cases
        (is_some (find (Areas.shares_name (make (A.next_id w.areas))) (A.rows w.areas)))) [
          | inl t ↦ rw t nothing
          | inr f ↦ rw f (area_added make made home (is_some-none _ f))
        ]

  area_merge-Effect :
      (area : AreaEntity) (dto : Areas.UpdateAreaDto)
      → is_homeless (C.rows w.cities) (Areas.merge dto area) ≡ false
      → Effect C A w (Areas.merge_and_save C A area dto w).1
  unfolding Areas.merge_and_save areas_find
  area_merge-Effect area dto home =
      elim (Bool-cases (is_some (find (Areas.clashes (Areas.merge dto area)) (A.rows w.areas)))) [
        | inl t ↦ rw t nothing
        | inr f ↦ rw f (area_changed (Areas.merge dto area) home (is_some-none _ f))
      ]

  pub create_area-Effect :
      (dto : Areas.CreateAreaDto) → Effect C A w (Areas.create_for_admin C A dto w).1
  unfolding Areas.create_for_admin
  create_area-Effect dto = elim (city_asserted C A w dto.city_id) [
    | inl (c, home) ↦
        elim (Option-cases (areas_find C A (Areas.has_name_en dto.city_id dto.name_en) w)) [
          | inl n ↦
              elim (Option-cases (areas_find C A (Areas.has_name_ar dto.city_id dto.name_ar) w)) [
                | inl m ↦ simp (c, n, m) (area_save-Effect (Areas.create dto) (λ id. refl) home)
                | inr (r, f) ↦ simp (c, n, f) nothing
              ]
          | inr (r, f) ↦ simp (c, f) nothing
        ]
    | inr c ↦ simp c nothing
  ]

  pub area_check_name-Check :
      (has_name : String → AreaEntity → Bool) (message : String) (id : ℕ) (given : Option String)
      → Check C A w (Areas.check_name C A has_name message id given)
  unfolding Areas.check_name
  area_check_name-Check has_name message id none = passed refl
  area_check_name-Check has_name message id (some name) =
      elim (Bool-cases (taken_by_other (Areas.has_id id) (areas_find C A (has_name name) w))) [
        | inl t ↦ stopped (conflict (tr message)) (rw t refl)
        | inr f ↦ passed (rw f refl)
      ]

  -- The city that an area keeps or moves to exists, or the call stops.
  pub city_given :
      (given : Option ℕ) (old : ℕ)
      → is_none (find (Cities.has_id old) (C.rows w.cities)) ≡ false
      → ((Areas.assert_city_given C A given w ≡ (ok tt, w))
          × (is_none (find (Cities.has_id (present_or given old)) (C.rows w.cities)) ≡ false))
        ⊎ (Areas.assert_city_given C A given w
            ≡ (throw (not_found (tr "city.errors.not_found")), w))
  unfolding Areas.assert_city_given
  city_given none old home = inl (refl, home)
  city_given (some city_id) old home = city_asserted C A w city_id

  pub update_area-Effect :
      (id : ℕ) (dto : Areas.UpdateAreaDto)
      → ((area : AreaEntity)
          → areas_find C A (Areas.has_id id) w ≡ some area
          → is_homeless (C.rows w.cities) area ≡ false)
      → Effect C A w (Areas.update_for_admin C A id dto w).1
  unfolding Areas.update_for_admin Areas.find_by_id_or_fail
  update_area-Effect id dto homes = elim (Option-cases (areas_find C A (Areas.has_id id) w)) [
    | inl n ↦ simp n nothing
    | inr (area, f) ↦ elim (city_given dto.city_id area.city_id (homes area f)) [
      | inl (c, home) ↦
          let city = present_or dto.city_id area.city_id in
          elim (area_check_name-Check (Areas.has_name_en city) Areas.name_en_taken id
            (changed dto.name_en area.name_en)) [
              | passed p ↦
                  elim (area_check_name-Check (Areas.has_name_ar city) Areas.name_ar_taken id
                    (changed dto.name_ar area.name_ar)) [
                      | passed q ↦ simp (f, c, p, q) (area_merge-Effect area dto home)
                      | stopped e q ↦ simp (f, c, p, q) nothing
                    ]
              | stopped e p ↦ simp (f, c, p) nothing
            ]
      | inr c ↦ simp (f, c) nothing
    ]
  ]
