-- ===== src/Lookups/Tests.antt =====
-- The admin calls of src/modules/cities and src/modules/areas on tables in memory.
use nestjs_starter.Prelude.{
  ℕ, ◌≤◌, ◌≡◌, ◌≢◌, refl, String, Option, none, some, List, [], ◌∷◌, ◌++◌, arith,
}
use nestjs_starter.Exec.{ok, throw, conflict, not_found, tr}
use nestjs_starter.Database.{Table}
use nestjs_starter.Database.Memory.{memory, empty}
use nestjs_starter.Lookups.{
  CityEntity, AreaEntity, DriverError, driver_error, done, failed, unique_violation, World,
  areas_find, cities_find, present_or,
}
use nestjs_starter.Lookups.Cities as Cities
use nestjs_starter.Lookups.Areas as Areas
use nestjs_starter.Lookups.Integrity.{IsSound}
use nestjs_starter.Lookups.Soundness.{
  Call, create_city, delete_city, create_area, run, lookups-IsSound,
}
use nestjs_starter.Lookups.Verdicts.{writes-accepted, move-rejected}

abbrev C : Table CityEntity
C = memory

abbrev A : Table AreaEntity
A = memory

abbrev nowhere : World C A
nowhere = record { cities = empty; areas = empty }

le_one : 0 ≤ 1
le_one = omega arith

nowhere-IsSound : IsSound C A nowhere
nowhere-IsSound = record {
  city_ids = tt;
  area_ids = tt;
  city_en = λ name. le_one;
  city_ar = λ name. le_one;
  area_en = λ city name. le_one;
  area_ar = λ city name. le_one;
  housed = refl;
}

abbrev free : ℕ → Option DriverError
free id = none

abbrev in_use : ℕ → Option DriverError
in_use id = some (driver_error (some "23503"))

abbrev settled : List Call
settled =
    create_city (record { name_en = "Aleppo"; name_ar = "H" })
    ∷ create_city (record { name_en = "Homs"; name_ar = "S" })
    ∷ create_area (record { city_id = 1; name_en = "Center"; name_ar = "M" })
    ∷ create_area (record { city_id = 2; name_en = "Center"; name_ar = "M" })
    ∷ []

abbrev towns : World C A
towns = run C A settled nowhere

abbrev to_homs : Areas.UpdateAreaDto
to_homs = record { city_id = some 2; name_en = none; name_ar = none }

abbrev rename : String → Areas.UpdateAreaDto
rename name = record { city_id = none; name_en = some name; name_ar = none }

abbrev gone : Call
gone = delete_city free 1

cascade :
    (run C A (settled ++ (gone ∷ [])) nowhere).areas.rows
    ≡ (record { id = 2; city_id = 2; name_en = "Center"; name_ar = "M" } ∷ [])
unfolding Cities.create_for_admin Cities.save Cities.delete_for_admin Cities.find_by_id_or_fail
    Cities.delete_row Cities.explain Cities.assert_exists Areas.create_for_admin Areas.save
    areas_find cities_find
cascade = refl

kept_in_use :
    (Cities.delete_for_admin C A in_use 1 towns).0
    ≡ throw (conflict (tr "city.errors.cannot_delete_in_use"))
unfolding Cities.create_for_admin Cities.save Cities.delete_for_admin Cities.find_by_id_or_fail
    Cities.delete_row Cities.explain Cities.assert_exists Areas.create_for_admin Areas.save
    areas_find cities_find
kept_in_use = refl

twice :
    (Cities.create_for_admin C A (record { name_en = "Homs"; name_ar = "X" }) towns).0
    ≡ throw (conflict (tr "city.errors.name_en_taken"))
unfolding Cities.create_for_admin Cities.save Cities.assert_exists Areas.create_for_admin Areas.save
    areas_find cities_find
twice = refl

elsewhere :
    (Areas.validate_city_and_area C A 1 2 towns).0
    ≡ throw (conflict (tr "area.errors.area_not_in_city"))
unfolding Cities.create_for_admin Cities.save Cities.assert_exists Areas.create_for_admin Areas.save
    Areas.validate_city_and_area Areas.find_by_id_or_fail areas_find cities_find
elsewhere = refl

unknown_area : (Areas.assert_exists C A 3 towns).0 ≡ throw (not_found (tr "area.errors.not_found"))
unfolding Cities.create_for_admin Cities.save Cities.assert_exists Areas.create_for_admin Areas.save
    Areas.assert_exists areas_find cities_find
unknown_area = refl

renamed :
    (Areas.update_for_admin C A 1 (rename "Old town") towns).0
    ≡ ok (done (record { id = 1; city_id = 1; name_en = "Old town"; name_ar = "M" }))
unfolding Cities.create_for_admin Cities.save Cities.assert_exists Areas.create_for_admin Areas.save
    Areas.update_for_admin Areas.find_by_id_or_fail Areas.assert_city_given Areas.check_name
    Areas.merge_and_save areas_find cities_find
renamed = refl

towns-IsSound : IsSound C A towns
towns-IsSound = lookups-IsSound C A settled nowhere nowhere-IsSound

lookups-IsSound_example : IsSound C A (run C A (settled ++ (gone ∷ [])) nowhere)
lookups-IsSound_example = lookups-IsSound C A (settled ++ (gone ∷ [])) nowhere nowhere-IsSound

abbrev homs_center : AreaEntity
homs_center = record { id = 2; city_id = 2; name_en = "Center"; name_ar = "M" }

abbrev aleppo_center : AreaEntity
aleppo_center = record { id = 1; city_id = 1; name_en = "Center"; name_ar = "M" }

abbrev drawn : World C A
drawn = record {
  cities = record {
    rows =
        record { id = 2; name_en = "Homs"; name_ar = "S" }
        ∷ record { id = 1; name_en = "Aleppo"; name_ar = "H" }
        ∷ [];
    next_id = 3;
  };
  areas = record { rows = homs_center ∷ aleppo_center ∷ []; next_id = 3 };
}

drawn-towns : towns ≡ drawn
unfolding Cities.create_for_admin Cities.save Cities.assert_exists Areas.create_for_admin Areas.save
    areas_find cities_find
drawn-towns = refl

move-rejected_example :
    Areas.update_for_admin C A 1 to_homs drawn ≡ (ok (failed unique_violation), drawn)
unfolding areas_find
move-rejected_example =
    move-rejected C A drawn 1 2 aleppo_center homs_center refl refl refl (λ h. absurd (cc)) refl

writes-accepted_example :
    ((dto : Cities.CreateCityDto)
      → (Cities.create_for_admin C A dto towns).0 ≢ ok (failed unique_violation))
    × ((id : ℕ) (dto : Cities.UpdateCityDto)
        → (Cities.update_for_admin C A id dto towns).0 ≢ ok (failed unique_violation))
    × ((dto : Areas.CreateAreaDto)
        → (Areas.create_for_admin C A dto towns).0 ≢ ok (failed unique_violation))
    × ((id : ℕ) (dto : Areas.UpdateAreaDto)
        → ((area : AreaEntity)
            → areas_find C A (Areas.has_id id) towns ≡ some area
            → present_or dto.city_id area.city_id ≡ area.city_id)
        → (Areas.update_for_admin C A id dto towns).0 ≢ ok (failed unique_violation))
writes-accepted_example = writes-accepted C A towns towns-IsSound unique_violation
