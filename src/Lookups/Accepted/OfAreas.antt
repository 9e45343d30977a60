-- ===== src/Lookups/Accepted/OfAreas.antt =====
-- The same for src/modules/areas: what the checks of its service let pass.
use nestjs_starter.Prelude.{
  ℕ, ◌≡◌, ◌≢◌, refl, sym, subst, String, eq_refl, Bool, true, false, not, ◌&&◌, Option, none, some,
  find, inl, inr, Bool-cases, Option-cases, ==→eq, ==_refl, arith,
}
use nestjs_starter.Exec.{ok, not_found, tr}
use nestjs_starter.Database.{Table}
use nestjs_starter.Database.Rows.{find_sound}
use nestjs_starter.Lookups.{
  CityEntity, AreaEntity, DriverError, failed, World, areas_find, changed, taken_by_other,
  present_or,
}
use nestjs_starter.Lookups.Areas as Areas
use nestjs_starter.Lookups.Integrity.{IsSound}
use nestjs_starter.Lookups.Effects.{Check, passed, stopped, city_asserted}
use nestjs_starter.Lookups.Effects.OfAreas.{area_check_name-Check}
use nestjs_starter.Lookups.Indexes.{find-or_none, find-or_and_none, find-none_of_checked}

own_name_en : (area : AreaEntity) → Areas.has_name_en area.city_id area.name_en area ≡ true
own_name_en area = ground (arith, ==_refl area.city_id, eq_refl area.name_en)

own_name_ar : (area : AreaEntity) → Areas.has_name_ar area.city_id area.name_ar area ≡ true
own_name_ar area = ground (arith, ==_refl area.city_id, eq_refl area.name_ar)

module _ (C : Table CityEntity) (A : Table AreaEntity) (w : World C A) where
  area_free :
      (has_name : String → AreaEntity → Bool) (message : String) (id : ℕ) (given : Option String)
      (name : String)
      → given ≡ some name
      → Areas.check_name C A has_name message id given w ≡ (ok tt, w)
      → taken_by_other (Areas.has_id id) (find (has_name name) (A.rows w.areas)) ≡ false
  unfolding Areas.check_name areas_find
  area_free has_name message id none name given p = absurd (cc)
  area_free has_name message id (some new) name given p =
      elim (Bool-cases (taken_by_other (Areas.has_id id) (find (has_name name) (A.rows w.areas)))) [
        | inl t ↦
            let u : taken_by_other (Areas.has_id id) (find (has_name new) (A.rows w.areas)) ≡ true =
              (cc (t, given)) in
            absurd (cc (p, u))
        | inr f ↦ f
      ]

  pub create_area-accepted :
      (dto : Areas.CreateAreaDto) (e : DriverError)
      → (Areas.create_for_admin C A dto w).0 ≢ ok (failed e)
  unfolding Areas.create_for_admin Areas.save areas_find
  create_area-accepted dto e = elim (city_asserted C A w dto.city_id) [
    | inl (c, home) ↦
        elim (Option-cases (find (Areas.has_name_en dto.city_id dto.name_en) (A.rows w.areas))) [
          | inl n ↦
              elim (Option-cases
                (find (Areas.has_name_ar dto.city_id dto.name_ar) (A.rows w.areas))) [
                  | inl m ↦
                      simp
                        (
                          c,
                          n,
                          m,
                          find-or_none (Areas.has_name_en dto.city_id dto.name_en)
                              (Areas.has_name_ar dto.city_id dto.name_ar) (A.rows w.areas) n m,
                        )
                        (λ h. cc)
                  | inr (r, f) ↦ simp (c, n, f) (λ h. cc)
                ]
          | inr (r, f) ↦ simp (c, f) (λ h. cc)
        ]
    | inr c ↦ simp c (λ h. cc)
  ]

  -- A renamed area that stays in its city, and whose checks passed, hinders no other row.
  area_unhindered :
      (id : ℕ) (dto : Areas.UpdateAreaDto) (area : AreaEntity) (city : ℕ)
      → IsSound C A w
      → find (Areas.has_id id) (A.rows w.areas) ≡ some area
      → present_or dto.city_id area.city_id ≡ city
      → area.city_id ≡ city
      → Areas.check_name C A
          (Areas.has_name_en city)
          Areas.name_en_taken
          id
          (changed dto.name_en area.name_en)
          w
        ≡ (ok tt, w)
      → Areas.check_name C A
          (Areas.has_name_ar city)
          Areas.name_ar_taken
          id
          (changed dto.name_ar area.name_ar)
          w
        ≡ (ok tt, w)
      → find (Areas.clashes (Areas.merge dto area)) (A.rows w.areas) ≡ none
  area_unhindered id dto area city sound f goes stays p q =
      let same : area.id ≡ id =
        ==→eq area.id id (find_sound (Areas.has_id id) (A.rows w.areas) f) in
      let merged : AreaEntity = record (Areas.merge dto area) { city_id = city } in
      let own_en =
        subst (λ c. Areas.has_name_en c area.name_en area ≡ true) stays (own_name_en area) in
      let own_ar =
        subst (λ c. Areas.has_name_ar c area.name_ar area ≡ true) stays (own_name_ar area) in
      subst
        (λ (i : ℕ × ℕ).
          find
            (λ row.
              Areas.shares_name (record (Areas.merge dto area) { city_id = i.1 }) row
              && not (Areas.has_id i.0 row))
            (A.rows w.areas)
          ≡ none)
        (λ k. (sym same k, sym goes k))
        (find-or_and_none (Areas.has_name_en city merged.name_en)
          (Areas.has_name_ar city merged.name_ar) (λ row. not (Areas.has_id id row))
          (A.rows w.areas)
          (find-none_of_checked (Areas.has_name_en city) (Areas.has_id id) dto.name_en area.name_en
            (A.rows w.areas) area f own_en (sound.area_en city)
            (λ name c. area_free (Areas.has_name_en city) Areas.name_en_taken id _ name c p))
          (find-none_of_checked (Areas.has_name_ar city) (Areas.has_id id) dto.name_ar area.name_ar
            (A.rows w.areas) area f own_ar (sound.area_ar city)
            (λ name c. area_free (Areas.has_name_ar city) Areas.name_ar_taken id _ name c q)))

  city_given-Check : (given : Option ℕ) → Check C A w (Areas.assert_city_given C A given)
  unfolding Areas.assert_city_given
  city_given-Check none = passed refl
  city_given-Check (some city_id) = elim (city_asserted C A w city_id) [
    | inl (c, home) ↦ passed c
    | inr c ↦ stopped (not_found (tr "city.errors.not_found")) c
  ]

  pub update_area-accepted :
      IsSound C A w
      → (id : ℕ) (dto : Areas.UpdateAreaDto)
      → ((area : AreaEntity)
          → areas_find C A (Areas.has_id id) w ≡ some area
          → present_or dto.city_id area.city_id ≡ area.city_id)
      → (e : DriverError) → (Areas.update_for_admin C A id dto w).0 ≢ ok (failed e)
  unfolding Areas.update_for_admin Areas.find_by_id_or_fail Areas.merge_and_save areas_find
  update_area-accepted sound id dto stays e =
      elim (Option-cases (find (Areas.has_id id) (A.rows w.areas))) [
        | inl n ↦ simp n (λ h. cc)
        | inr (area, f) ↦ elim (city_given-Check dto.city_id) [
          | passed c ↦
              let city = present_or dto.city_id area.city_id in
              elim (area_check_name-Check C A w (Areas.has_name_en city) Areas.name_en_taken id
                (changed dto.name_en area.name_en)) [
                  | passed p ↦
                      elim (area_check_name-Check C A w (Areas.has_name_ar city) Areas.name_ar_taken
                        id (changed dto.name_ar area.name_ar)) [
                          | passed q ↦
                              let free =
                                area_unhindered id dto area city sound f refl (sym (stays area f)) p
                                  q in
                              simp (f, c, p, q, free) (λ h. cc)
                          | stopped s q ↦ simp (f, c, p, q) (λ h. cc)
                        ]
                  | stopped s p ↦ simp (f, c, p) (λ h. cc)
                ]
          | stopped s c ↦ simp (f, c) (λ h. cc)
        ]
      ]
