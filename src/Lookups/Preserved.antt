-- ===== src/Lookups/Preserved.antt =====
-- What the writes to the tables of src/modules/cities and src/modules/areas preserve.
mod Shared
mod CityWrites
mod AreaWrites
use nestjs_starter.Prelude.{
  ℕ, ◌≤◌, ◌≡◌, refl, sym, ap, ◌∙◌, subst, String, str_eq, eq_iff, Bool, true, false, not, ◌&&◌,
  ◌||◌, Option, none, some, is_none, List, [], ◌∷◌, find, count_where, update_where, delete_where,
  Bool-cases, inl, inr, arith, ◌==◌, ==→eq, ==_refl,
}
use nestjs_starter.Database.{Table}
use nestjs_starter.Database.Rows.{sum-delete_le, sum-update_le, sum_mono}
use nestjs_starter.Lookups.{CityEntity, AreaEntity, World, cities_find, areas_find}
use nestjs_starter.Lookups.Cities as Cities
use nestjs_starter.Lookups.Areas as Areas
use nestjs_starter.Lookups.Indexes.{find-none_narrower, count-delete_mono, find-delete_other}
use nestjs_starter.Lookups.Writes.{
  IsOrdered, insert-IsOrdered, delete-IsOrdered, write-IsOrdered, insert-once, delete-once,
  write-once,
}
use nestjs_starter.Lookups.Integrity.{
  is_homeless, IsSound, Effect, nothing, city_added, city_changed, city_removed, area_added,
  area_changed, area_removed,
}
use nestjs_starter.Lookups.Preserved.CityWrites.{
  city_added-IsSound, city_changed-IsSound, city_removed-IsSound,
}
use nestjs_starter.Lookups.Preserved.AreaWrites.{
  area_added-IsSound, area_changed-IsSound, area_removed-IsSound,
}

module _ (C : Table CityEntity) (A : Table AreaEntity) where
  pub effect-IsSound : (w w' : World C A) → Effect C A w w' → IsSound C A w → IsSound C A w'
  effect-IsSound w w' (nothing) sound = sound
  effect-IsSound w w' (city_added make made free) sound =
      city_added-IsSound C A w make made free sound
  effect-IsSound w w' (city_changed e free) sound = city_changed-IsSound C A w e free sound
  effect-IsSound w w' (city_removed id) sound = city_removed-IsSound C A w id sound
  effect-IsSound w w' (area_added make made home free) sound =
      area_added-IsSound C A w make made home free sound
  effect-IsSound w w' (area_changed e home free) sound =
      area_changed-IsSound C A w e home free sound
  effect-IsSound w w' (area_removed id) sound = area_removed-IsSound C A w id sound
