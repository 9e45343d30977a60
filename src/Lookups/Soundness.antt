-- ===== src/Lookups/Soundness.antt =====
-- The admin calls on src/modules/cities and src/modules/areas, in any order.
use nestjs_starter.Prelude.{ℕ, ◌≡◌, false, Option, some, List, [], ◌∷◌, Bool-cases, inl, inr, arith}
use nestjs_starter.Database.{Table}
use nestjs_starter.Database.Rows.{count-pos_of_find}
use nestjs_starter.Lookups.{CityEntity, AreaEntity, DriverError, World, areas_find}
use nestjs_starter.Lookups.Cities as Cities
use nestjs_starter.Lookups.Areas as Areas
use nestjs_starter.Lookups.Integrity.{is_homeless, IsSound}
use nestjs_starter.Lookups.Preserved.{effect-IsSound}
use nestjs_starter.Lookups.Effects.{create_city-Effect, update_city-Effect, delete_city-Effect}
use nestjs_starter.Lookups.Effects.OfAreas.{
  create_area-Effect, update_area-Effect, delete_area-Effect,
}

-- a call, and for a deletion what the foreign keys of other tables answer
pub data Call : Type 0 where
  create_city : Cities.CreateCityDto → Call
  update_city : ℕ → Cities.UpdateCityDto → Call
  delete_city : (ℕ → Option DriverError) → ℕ → Call
  create_area : Areas.CreateAreaDto → Call
  update_area : ℕ → Areas.UpdateAreaDto → Call
  delete_area : (ℕ → Option DriverError) → ℕ → Call

module _ (C : Table CityEntity) (A : Table AreaEntity) where
  abbrev pub perform : Call → World C A → World C A
  perform (create_city dto) w = (Cities.create_for_admin C A dto w).1
  perform (update_city id dto) w = (Cities.update_for_admin C A id dto w).1
  perform (delete_city restricted id) w = (Cities.delete_for_admin C A restricted id w).1
  perform (create_area dto) w = (Areas.create_for_admin C A dto w).1
  perform (update_area id dto) w = (Areas.update_for_admin C A id dto w).1
  perform (delete_area restricted id) w = (Areas.delete_for_admin C A restricted id w).1

  abbrev pub run : List Call → World C A → World C A
  run [] w = w
  run (call ∷ calls) w = run calls (perform call w)

  home_of :
      (w : World C A) (id : ℕ) (area : AreaEntity)
      → IsSound C A w
      → areas_find C A (Areas.has_id id) w ≡ some area
      → is_homeless (C.rows w.cities) area ≡ false
  unfolding areas_find
  home_of w id area sound f = elim (Bool-cases (is_homeless (C.rows w.cities) area)) [
    | inl t ↦
        let counted =
          count-pos_of_find (Areas.has_id id) (is_homeless (C.rows w.cities)) (A.rows w.areas) area
            f t in
        absurd (omega (arith, counted, sound.housed))
    | inr t ↦ t
  ]

  pub perform-IsSound : (call : Call) (w : World C A) → IsSound C A w → IsSound C A (perform call w)
  perform-IsSound (create_city dto) w sound =
      effect-IsSound C A w _ (create_city-Effect C A w dto) sound
  perform-IsSound (update_city id dto) w sound =
      effect-IsSound C A w _ (update_city-Effect C A w id dto) sound
  perform-IsSound (delete_city restricted id) w sound =
      effect-IsSound C A w _ (delete_city-Effect C A w restricted id) sound
  perform-IsSound (create_area dto) w sound =
      effect-IsSound C A w _ (create_area-Effect C A w dto) sound
  perform-IsSound (update_area id dto) w sound =
      effect-IsSound C A w _ (update_area-Effect C A w id dto (λ area f. home_of w id area sound f))
        sound
  perform-IsSound (delete_area restricted id) w sound =
      effect-IsSound C A w _ (delete_area-Effect C A w restricted id) sound

  -- Any sequence of admin calls on cities and areas, refused deletions included, keeps every id
  -- given out once, the names of cities unique, the names of areas unique within their city, and
  -- every area with a city that exists.
  pub lookups-IsSound :
      (calls : List Call) (w : World C A) → IsSound C A w → IsSound C A (run calls w)
  lookups-IsSound [] w sound = sound
  lookups-IsSound (call ∷ calls) w sound =
      lookups-IsSound calls (perform call w) (perform-IsSound call w sound)
