-- ===== src/Lookups/Preserved/CityWrites.antt =====
-- What the writes to the cities preserve: src/modules/cities.
use nestjs_starter.Prelude.{
  ℕ, ◌≡◌, refl, subst, true, not, none, is_none, List, [], ◌∷◌, find, count_where, update_where,
  delete_where, arith, ◌==◌,
}
use nestjs_starter.Database.{Table}
use nestjs_starter.Database.Rows.{sum_mono}
use nestjs_starter.Lookups.{CityEntity, AreaEntity, World}
use nestjs_starter.Lookups.Cities as Cities
use nestjs_starter.Lookups.Indexes.{find-none_narrower, count-delete_mono, find-delete_other}
use nestjs_starter.Lookups.Writes.{
  insert-IsOrdered, delete-IsOrdered, write-IsOrdered, insert-once, delete-once, write-once,
}
use nestjs_starter.Lookups.Integrity.{is_homeless, IsSound}
use nestjs_starter.Lookups.Preserved.Shared.{shared, and_true, both, or_left, or_right}

find-write_none :
    (c : ℕ) (e : CityEntity) (xs : List CityEntity)
    → is_none (find (Cities.has_id c) (update_where (Cities.has_id e.id) (λ row. e) xs)) ≡ true
    → is_none (find (Cities.has_id c) xs) ≡ true
find-write_none c e [] n = refl
find-write_none c e (x ∷ xs) n = ground (arith, find-write_none c e xs)

module _ (C : Table CityEntity) (A : Table AreaEntity) where
  rehoused :
      (cities cities' : List CityEntity) (areas : List AreaEntity)
      → ((x : AreaEntity) → is_homeless cities' x ≡ true → is_homeless cities x ≡ true)
      → count_where (is_homeless cities) areas ≡ 0
      → count_where (is_homeless cities') areas ≡ 0
  rehoused cities cities' areas keeps none_homeless =
      let fewer = sum_mono (is_homeless cities') (is_homeless cities) (λ _. 1) areas keeps in
      omega (arith, fewer, none_homeless)

  pub city_added-IsSound :
      (w : World C A) (make : ℕ → CityEntity)
      → ((id : ℕ) → (make id).id ≡ id)
      → find (Cities.shares_name (make (C.next_id w.cities))) (C.rows w.cities) ≡ none
      → IsSound C A w
      → IsSound C A (record w { cities = C.insert make w.cities })
  city_added-IsSound w make made free sound =
      let new = make (C.next_id w.cities) in
      record {
        city_ids = insert-IsOrdered C (λ e. e.id) make w.cities made sound.city_ids;
        area_ids = sound.area_ids;
        city_en = λ name.
            insert-once C (λ e. e.id) (Cities.has_name_en name) make w.cities
              (λ t.
                find-none_narrower (Cities.shares_name new) (Cities.has_name_en name) _
                  (λ x u. or_left _ _ (shared x.name_en new.name_en name u t)) free)
              (sound.city_en name);
        city_ar = λ name.
            insert-once C (λ e. e.id) (Cities.has_name_ar name) make w.cities
              (λ t.
                find-none_narrower (Cities.shares_name new) (Cities.has_name_ar name) _
                  (λ x u. or_right _ _ (shared x.name_ar new.name_ar name u t)) free)
              (sound.city_ar name);
        area_en = sound.area_en;
        area_ar = sound.area_ar;
        housed =
            rehoused (C.rows w.cities) (C.rows (C.insert make w.cities)) (A.rows w.areas)
              (λ x t.
                let u : is_homeless (make (C.next_id w.cities) ∷ C.rows w.cities) x ≡ true =
                  (subst (λ xs. is_homeless xs x ≡ true) (C.rows-insert make w.cities) t) in
                ground arith)
              sound.housed;
      }

  pub city_changed-IsSound :
      (w : World C A) (e : CityEntity)
      → find (Cities.clashes e) (C.rows w.cities) ≡ none
      → IsSound C A w
      → IsSound C A (record w { cities = C.update (Cities.has_id e.id) (λ row. e) w.cities })
  city_changed-IsSound w e free sound = record {
    city_ids = write-IsOrdered C (λ e. e.id) e.id e w.cities refl sound.city_ids;
    area_ids = sound.area_ids;
    city_en = λ name.
        write-once C (λ e. e.id) e.id e w.cities (Cities.has_name_en name) sound.city_ids
          (λ t.
            find-none_narrower (Cities.clashes e) _ _
              (λ x u.
                let (v, other) = and_true (Cities.has_name_en name x) (not (x.id == e.id)) u in
                both _ _ (or_left _ _ (shared x.name_en e.name_en name v t)) other)
              free)
          (sound.city_en name);
    city_ar = λ name.
        write-once C (λ e. e.id) e.id e w.cities (Cities.has_name_ar name) sound.city_ids
          (λ t.
            find-none_narrower (Cities.clashes e) _ _
              (λ x u.
                let (v, other) = and_true (Cities.has_name_ar name x) (not (x.id == e.id)) u in
                both _ _ (or_right _ _ (shared x.name_ar e.name_ar name v t)) other)
              free)
          (sound.city_ar name);
    area_en = sound.area_en;
    area_ar = sound.area_ar;
    housed =
        rehoused (C.rows w.cities) _ (A.rows w.areas)
          (λ x t. find-write_none x.city_id e (C.rows w.cities) (
            subst (λ xs. is_homeless xs x ≡ true)
              (C.rows-update (Cities.has_id e.id) (λ row. e) w.cities) t))
          sound.housed;
  }

  pub city_removed-IsSound :
      (w : World C A) (id : ℕ) → IsSound C A w → IsSound C A (Cities.delete_row C A id w)
  unfolding Cities.delete_row
  city_removed-IsSound w id sound = record {
    city_ids = delete-IsOrdered C (λ e. e.id) (Cities.has_id id) w.cities sound.city_ids;
    area_ids = delete-IsOrdered A (λ e. e.id) (λ area. area.city_id == id) w.areas sound.area_ids;
    city_en = λ name. delete-once C (λ e. e.id) _ (Cities.has_id id) w.cities (sound.city_en name);
    city_ar = λ name. delete-once C (λ e. e.id) _ (Cities.has_id id) w.cities (sound.city_ar name);
    area_en = λ city name.
        delete-once A (λ e. e.id) _ (λ area. area.city_id == id) w.areas (sound.area_en city name);
    area_ar = λ city name.
        delete-once A (λ e. e.id) _ (λ area. area.city_id == id) w.areas (sound.area_ar city name);
    housed =
        let fewer =
          count-delete_mono (λ area. area.city_id == id) (is_homeless (C.rows w.cities))
            (is_homeless (delete_where (Cities.has_id id) (C.rows w.cities))) (A.rows w.areas)
            (λ x other t.
              subst (λ o. is_none o ≡ true)
                (find-delete_other (Cities.has_id x.city_id) (Cities.has_id id) (C.rows w.cities)
                  (λ y u. ground arith))
                t) in
        rw
          (
            C.rows-delete (Cities.has_id id) w.cities,
            A.rows-delete (λ area. area.city_id == id) w.areas,
          )
          (omega (arith, fewer, sound.housed));
  }
