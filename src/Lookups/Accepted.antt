-- ===== src/Lookups/Accepted.antt =====
-- Whether the unique indexes of src/modules/cities ever reject what the checks of its service let
-- pass.
pub mod OfAreas
use nestjs_starter.Prelude.{
  ℕ, ◌≡◌, ◌≢◌, refl, sym, subst, String, eq_refl, Bool, true, false, not, ◌&&◌, Option, none, some,
  find, inl, inr, Bool-cases, Option-cases, ==→eq, ==_refl, arith,
}
use nestjs_starter.Exec.{ok, not_found, tr}
use nestjs_starter.Database.{Table}
use nestjs_starter.Database.Rows.{find_sound}
use nestjs_starter.Lookups.{
  CityEntity, AreaEntity, DriverError, failed, World, cities_find, areas_find, changed,
  taken_by_other, present_or,
}
use nestjs_starter.Lookups.Cities as Cities
use nestjs_starter.Lookups.Areas as Areas
use nestjs_starter.Lookups.Integrity.{IsSound}
use nestjs_starter.Lookups.Effects.{Check, passed, stopped, city_check_name-Check, city_asserted}
use nestjs_starter.Lookups.Indexes.{find-or_none, find-or_and_none, find-none_of_checked}

module _ (C : Table CityEntity) (A : Table AreaEntity) (w : World C A) where
  pub create_city-accepted :
      (dto : Cities.CreateCityDto) (e : DriverError)
      → (Cities.create_for_admin C A dto w).0 ≢ ok (failed e)
  unfolding Cities.create_for_admin Cities.save cities_find
  create_city-accepted dto e =
      elim (Option-cases (find (Cities.has_name_en dto.name_en) (C.rows w.cities))) [
        | inl n ↦ elim (Option-cases (find (Cities.has_name_ar dto.name_ar) (C.rows w.cities))) [
          | inl m ↦
              simp
                (
                  n,
                  m,
                  find-or_none (Cities.has_name_en dto.name_en) (Cities.has_name_ar dto.name_ar)
                      (C.rows w.cities) n m,
                )
                (λ h. cc)
          | inr (r, f) ↦ simp (n, f) (λ h. cc)
        ]
        | inr (r, f) ↦ simp f (λ h. cc)
      ]

  city_free :
      (has_name : String → CityEntity → Bool) (message : String) (id : ℕ) (given : Option String)
      (name : String)
      → given ≡ some name
      → Cities.check_name C A has_name message id given w ≡ (ok tt, w)
      → taken_by_other (Cities.has_id id) (find (has_name name) (C.rows w.cities)) ≡ false
  unfolding Cities.check_name cities_find
  city_free has_name message id none name given p = absurd (cc)
  city_free has_name message id (some new) name given p =
      elim (Bool-cases
        (taken_by_other (Cities.has_id id) (find (has_name name) (C.rows w.cities)))) [
          | inl t ↦
              let u : taken_by_other (Cities.has_id id) (find (has_name new) (C.rows w.cities))
                  ≡ true =
                (cc (t, given)) in
              absurd (cc (p, u))
          | inr f ↦ f
        ]

  -- A renamed city whose checks passed hinders no other row.
  city_unhindered :
      (id : ℕ) (dto : Cities.UpdateCityDto) (city : CityEntity)
      → IsSound C A w
      → find (Cities.has_id id) (C.rows w.cities) ≡ some city
      → Cities.check_name C A Cities.has_name_en Cities.name_en_taken id
          (changed dto.name_en city.name_en)
          w
        ≡ (ok tt, w)
      → Cities.check_name C A Cities.has_name_ar Cities.name_ar_taken id
          (changed dto.name_ar city.name_ar)
          w
        ≡ (ok tt, w)
      → find (Cities.clashes (Cities.merge dto city)) (C.rows w.cities) ≡ none
  city_unhindered id dto city sound f p q =
      let same : city.id ≡ id =
        ==→eq city.id id (find_sound (Cities.has_id id) (C.rows w.cities) f) in
      let merged = Cities.merge dto city in
      subst
        (λ i.
          find (λ row. Cities.shares_name merged row && not (Cities.has_id i row)) (C.rows w.cities)
          ≡ none)
        (sym same)
        (find-or_and_none (Cities.has_name_en merged.name_en) (Cities.has_name_ar merged.name_ar)
          (λ row. not (Cities.has_id id row)) (C.rows w.cities)
          (find-none_of_checked Cities.has_name_en (Cities.has_id id) dto.name_en city.name_en
            (C.rows w.cities) city f (eq_refl city.name_en) sound.city_en
            (λ name c. city_free Cities.has_name_en Cities.name_en_taken id _ name c p))
          (find-none_of_checked Cities.has_name_ar (Cities.has_id id) dto.name_ar city.name_ar
            (C.rows w.cities) city f (eq_refl city.name_ar) sound.city_ar
            (λ name c. city_free Cities.has_name_ar Cities.name_ar_taken id _ name c q)))

  pub update_city-accepted :
      IsSound C A w
      → (id : ℕ) (dto : Cities.UpdateCityDto) (e : DriverError)
      → (Cities.update_for_admin C A id dto w).0 ≢ ok (failed e)
  unfolding Cities.update_for_admin Cities.find_by_id_or_fail Cities.merge_and_save cities_find
  update_city-accepted sound id dto e =
      elim (Option-cases (find (Cities.has_id id) (C.rows w.cities))) [
        | inl n ↦ simp n (λ h. cc)
        | inr (city, f) ↦
            elim (city_check_name-Check C A w Cities.has_name_en Cities.name_en_taken id
              (changed dto.name_en city.name_en)) [
                | passed p ↦
                    elim (city_check_name-Check C A w Cities.has_name_ar Cities.name_ar_taken id
                      (changed dto.name_ar city.name_ar)) [
                        | passed q ↦
                            simp (f, p, q, city_unhindered id dto city sound f p q) (λ h. cc)
                        | stopped s q ↦ simp (f, p, q) (λ h. cc)
                      ]
                | stopped s p ↦ simp (f, p) (λ h. cc)
              ]
      ]
