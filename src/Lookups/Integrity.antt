-- ===== src/Lookups/Integrity.antt =====
-- The integrity of the tables of src/modules/cities and src/modules/areas, and what the writes that
-- the indexes accept do to it.
use nestjs_starter.Prelude.{
  ℕ, ◌≤◌, ◌≡◌, String, Bool, false, none, is_none, List, find, count_where,
}
use nestjs_starter.Database.{Table}
use nestjs_starter.Lookups.{CityEntity, AreaEntity, World}
use nestjs_starter.Lookups.Cities as Cities
use nestjs_starter.Lookups.Areas as Areas
use nestjs_starter.Lookups.Writes.{IsOrdered}

-- an area whose city is not in the table
abbrev pub is_homeless : List CityEntity → AreaEntity → Bool
is_homeless cities area = is_none (find (Cities.has_id area.city_id) cities)

module _ (C : Table CityEntity) (A : Table AreaEntity) where
  -- Ids are given out once; the names of cities are unique, those of areas within their city; the
  -- city of an area exists.
  pub record IsSound (w : World C A) : Type 0 where
    pub city_ids : IsOrdered C (λ e. e.id) w.cities
    pub area_ids : IsOrdered A (λ e. e.id) w.areas
    pub city_en : (name : String) → count_where (Cities.has_name_en name) (C.rows w.cities) ≤ 1
    pub city_ar : (name : String) → count_where (Cities.has_name_ar name) (C.rows w.cities) ≤ 1
    pub area_en :
        (city : ℕ) (name : String) → count_where (Areas.has_name_en city name) (A.rows w.areas) ≤ 1
    pub area_ar :
        (city : ℕ) (name : String) → count_where (Areas.has_name_ar city name) (A.rows w.areas) ≤ 1
    pub housed : count_where (is_homeless (C.rows w.cities)) (A.rows w.areas) ≡ 0

  -- the state before, and the state after
  pub data Effect (w : World C A) : World C A → Type 0 where
    nothing : Effect w w
    city_added :
        (make : ℕ → CityEntity)
        → ((id : ℕ) → (make id).id ≡ id)
        → find (Cities.shares_name (make (C.next_id w.cities))) (C.rows w.cities) ≡ none
        → Effect w (record w { cities = C.insert make w.cities })
    city_changed :
        (e : CityEntity)
        → find (Cities.clashes e) (C.rows w.cities) ≡ none
        → Effect w (record w { cities = C.update (Cities.has_id e.id) (λ row. e) w.cities })
    city_removed : (id : ℕ) → Effect w (Cities.delete_row C A id w)
    area_added :
        (make : ℕ → AreaEntity)
        → ((id : ℕ) → (make id).id ≡ id)
        → is_homeless (C.rows w.cities) (make (A.next_id w.areas)) ≡ false
        → find (Areas.shares_name (make (A.next_id w.areas))) (A.rows w.areas) ≡ none
        → Effect w (record w { areas = A.insert make w.areas })
    area_changed :
        (e : AreaEntity)
        → is_homeless (C.rows w.cities) e ≡ false
        → find (Areas.clashes e) (A.rows w.areas) ≡ none
        → Effect w (record w { areas = A.update (Areas.has_id e.id) (λ row. e) w.areas })
    area_removed : (id : ℕ) → Effect w (Areas.delete_row C A id w)
