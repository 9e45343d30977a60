-- ===== src/Lookups/Preserved/AreaWrites.antt =====
-- What the writes to the areas preserve: src/modules/areas.
use nestjs_starter.Prelude.{ℕ, ◌≡◌, refl, false, not, none, find, arith, ◌==◌}
use nestjs_starter.Database.{Table}
use nestjs_starter.Database.Rows.{sum-delete_le, sum-update_le}
use nestjs_starter.Lookups.{CityEntity, AreaEntity, World}
use nestjs_starter.Lookups.Areas as Areas
use nestjs_starter.Lookups.Indexes.{find-none_narrower}
use nestjs_starter.Lookups.Writes.{
  insert-IsOrdered, delete-IsOrdered, write-IsOrdered, insert-once, delete-once, write-once,
}
use nestjs_starter.Lookups.Integrity.{is_homeless, IsSound}
use nestjs_starter.Lookups.Preserved.Shared.{and_true, both, or_left, or_right, area_shared}

module _ (C : Table CityEntity) (A : Table AreaEntity) where
  pub area_added-IsSound :
      (w : World C A) (make : ℕ → AreaEntity)
      → ((id : ℕ) → (make id).id ≡ id)
      → is_homeless (C.rows w.cities) (make (A.next_id w.areas)) ≡ false
      → find (Areas.shares_name (make (A.next_id w.areas))) (A.rows w.areas) ≡ none
      → IsSound C A w
      → IsSound C A (record w { areas = A.insert make w.areas })
  area_added-IsSound w make made home free sound =
      let new = make (A.next_id w.areas) in
      record {
        city_ids = sound.city_ids;
        area_ids = insert-IsOrdered A (λ e. e.id) make w.areas made sound.area_ids;
        city_en = sound.city_en;
        city_ar = sound.city_ar;
        area_en = λ city name.
            insert-once A (λ e. e.id) (Areas.has_name_en city name) make w.areas
              (λ t.
                find-none_narrower (Areas.shares_name new) (Areas.has_name_en city name) _
                  (λ x u.
                    or_left _ _
                      (area_shared x.city_id new.city_id x.name_en new.name_en city name u t))
                  free)
              (sound.area_en city name);
        area_ar = λ city name.
            insert-once A (λ e. e.id) (Areas.has_name_ar city name) make w.areas
              (λ t.
                find-none_narrower (Areas.shares_name new) (Areas.has_name_ar city name) _
                  (λ x u.
                    or_right _ _
                      (area_shared x.city_id new.city_id x.name_ar new.name_ar city name u t))
                  free)
              (sound.area_ar city name);
        housed = rw (A.rows-insert make w.areas) (rw home (omega (arith, sound.housed)));
      }

  pub area_changed-IsSound :
      (w : World C A) (e : AreaEntity)
      → is_homeless (C.rows w.cities) e ≡ false
      → find (Areas.clashes e) (A.rows w.areas) ≡ none
      → IsSound C A w
      → IsSound C A (record w { areas = A.update (Areas.has_id e.id) (λ row. e) w.areas })
  area_changed-IsSound w e home free sound = record {
    city_ids = sound.city_ids;
    area_ids = write-IsOrdered A (λ e. e.id) e.id e w.areas refl sound.area_ids;
    city_en = sound.city_en;
    city_ar = sound.city_ar;
    area_en = λ city name.
        write-once A (λ e. e.id) e.id e w.areas (Areas.has_name_en city name) sound.area_ids
          (λ t.
            find-none_narrower (Areas.clashes e) _ _
              (λ x u.
                let (v, other) = and_true (Areas.has_name_en city name x) (not (x.id == e.id)) u in
                both _ _
                  (or_left _ _ (area_shared x.city_id e.city_id x.name_en e.name_en city name v t))
                  other)
              free)
          (sound.area_en city name);
    area_ar = λ city name.
        write-once A (λ e. e.id) e.id e w.areas (Areas.has_name_ar city name) sound.area_ids
          (λ t.
            find-none_narrower (Areas.clashes e) _ _
              (λ x u.
                let (v, other) = and_true (Areas.has_name_ar city name x) (not (x.id == e.id)) u in
                both _ _
                  (or_right _ _ (area_shared x.city_id e.city_id x.name_ar e.name_ar city name v t))
                  other)
              free)
          (sound.area_ar city name);
    housed =
        let fewer =
          sum-update_le (Areas.has_id e.id) (is_homeless (C.rows w.cities)) (λ x. e) (λ _. 1)
            (A.rows w.areas) (λ x t. absurd (cc)) (λ x. omega arith) in
        rw (A.rows-update (Areas.has_id e.id) (λ row. e) w.areas)
          (omega (arith, fewer, sound.housed));
  }

  pub area_removed-IsSound :
      (w : World C A) (id : ℕ) → IsSound C A w → IsSound C A (Areas.delete_row C A id w)
  unfolding Areas.delete_row
  area_removed-IsSound w id sound = record {
    city_ids = sound.city_ids;
    area_ids = delete-IsOrdered A (λ e. e.id) (Areas.has_id id) w.areas sound.area_ids;
    city_en = sound.city_en;
    city_ar = sound.city_ar;
    area_en = λ city name.
        delete-once A (λ e. e.id) _ (Areas.has_id id) w.areas (sound.area_en city name);
    area_ar = λ city name.
        delete-once A (λ e. e.id) _ (Areas.has_id id) w.areas (sound.area_ar city name);
    housed =
        let fewer =
          sum-delete_le (is_homeless (C.rows w.cities)) (Areas.has_id id) (λ _. 1)
            (A.rows w.areas) in
        rw (A.rows-delete (Areas.has_id id) w.areas) (omega (arith, fewer, sound.housed));
  }
