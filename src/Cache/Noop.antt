-- ===== src/Cache/Noop.antt =====
-- src/infrastructure/cache/drivers/noop-cache.driver.ts: every read answers null, every write is
-- dropped.
use nestjs_starter.Prelude.{refl, none, inr}
use nestjs_starter.Cache.{CacheDriver}

abbrev pub noop_driver : {V : Type 0} → CacheDriver V
noop_driver {V} = record {
  Store = Unit;
  copy = λ v. v;
  get = λ now k s. none;
  set = λ now k v ttl s. s;
  delete = λ k s. s;
  get-set = λ now at ttl k k' v w s e. inr e;
  get-delete = λ now k s. refl;
  get-delete_other = λ now k k' v s e. e;
  get-later = λ now later k v s h e. e;
}
