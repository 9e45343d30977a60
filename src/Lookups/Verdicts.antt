-- ===== src/Lookups/Verdicts.antt =====
-- What the unique indexes of src/modules/cities and src/modules/areas answer to the admin calls.
use nestjs_starter.Prelude.{
  ℕ, ◌≡◌, ◌≢◌, refl, eq_iff, true, false, none, some, ==→eq, ==_refl, arith,
}
use nestjs_starter.Exec.{ok}
use nestjs_starter.Database.{Table}
use nestjs_starter.Database.Rows.{find_sound}
use nestjs_starter.Lookups.{
  CityEntity, AreaEntity, DriverError, failed, unique_violation, World, cities_find, areas_find,
  present_or,
}
use nestjs_starter.Lookups.Cities as Cities
use nestjs_starter.Lookups.Areas as Areas
use nestjs_starter.Lookups.Integrity.{IsSound, is_homeless}
use nestjs_starter.Lookups.Indexes.{find-some_of}
use nestjs_starter.Lookups.Accepted.{create_city-accepted, update_city-accepted}
use nestjs_starter.Lookups.Accepted.OfAreas.{create_area-accepted, update_area-accepted}

module _ (C : Table CityEntity) (A : Table AreaEntity) (w : World C A) where
  -- In sound tables the checks of the services cover the unique indexes: no creation, no change of a
  -- city, and no change of an area that stays in its city, is rejected by the database.
  pub writes-accepted :
      IsSound C A w
      → (e : DriverError)
      → ((dto : Cities.CreateCityDto) → (Cities.create_for_admin C A dto w).0 ≢ ok (failed e))
        × ((id : ℕ) (dto : Cities.UpdateCityDto)
            → (Cities.update_for_admin C A id dto w).0 ≢ ok (failed e))
        × ((dto : Areas.CreateAreaDto) → (Areas.create_for_admin C A dto w).0 ≢ ok (failed e))
        × ((id : ℕ) (dto : Areas.UpdateAreaDto)
            → ((area : AreaEntity)
                → areas_find C A (Areas.has_id id) w ≡ some area
                → present_or dto.city_id area.city_id ≡ area.city_id)
            → (Areas.update_for_admin C A id dto w).0 ≢ ok (failed e))
  writes-accepted sound e = (
    λ dto. create_city-accepted C A w dto e,
    λ id dto. update_city-accepted C A w sound id dto e,
    λ dto. create_area-accepted C A w dto e,
    λ id dto stays. update_area-accepted C A w sound id dto stays e,
  )

  -- An area that is moved, its names unchanged, into the city of an area of the same English name
  -- passes every check of the service, and the call fails with the error of the unique index, not
  -- with a conflict; nothing is written.
  pub move-rejected :
      (id other_id : ℕ) (area other : AreaEntity)
      → areas_find C A (Areas.has_id id) w ≡ some area
      → areas_find C A (Areas.has_id other_id) w ≡ some other
      → is_homeless (C.rows w.cities) other ≡ false
      → other_id ≢ id
      → other.name_en ≡ area.name_en
      → Areas.update_for_admin C A id
          (record { city_id = some other.city_id; name_en = none; name_ar = none })
          w
        ≡ (ok (failed unique_violation), w)
  unfolding Areas.update_for_admin Areas.find_by_id_or_fail Areas.merge_and_save areas_find
      Areas.assert_city_given Areas.check_name Cities.assert_exists cities_find
  move-rejected id other_id area other f g home differ same =
      let merged : AreaEntity = record area { city_id = other.city_id } in
      let at : area.id ≡ id = ==→eq area.id id (find_sound (Areas.has_id id) (A.rows w.areas) f) in
      let there : other.id ≡ other_id =
        ==→eq other.id other_id (find_sound (Areas.has_id other_id) (A.rows w.areas) g) in
      let hinders : Areas.clashes merged other ≡ true =
        (let name = (eq_iff other.name_en area.name_en).1 same in
          let apart : other.id ≢ area.id = (λ h. differ (cc)) in
          ground (arith, name, apart, ==_refl other.city_id)) in
      simp
        (
          f,
          home,
          find-some_of (Areas.has_id other_id) (Areas.clashes merged) (A.rows w.areas) other g
              hinders,
        )
        refl
