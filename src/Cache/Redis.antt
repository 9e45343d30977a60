-- ===== src/Cache/Redis.antt =====
-- src/infrastructure/cache/drivers/redis-cache.driver.ts. The client (ioredis and the server) is a
-- parameter: the laws of `RedisClient` are the documented meaning of SET … EX, GET and UNLINK.
-- `stringify` and `parse` are JSON's. A connection error is not modelled, nor `deletePattern`,
-- which no code of the repository calls.
pub mod Memory
use Prim.Native.String.{[], ◌∷◌, ◌++◌}
use Prim.Native.Char.{Char, code}
use text.Mathlib.TextLemmas.{append_cancel_left}
use nestjs_starter.Prelude.{
  ℕ, ◌+◌, ◌*◌, ◌≤◌, ◌<◌, String, ◌≡◌, refl, ap, ◌∙◌, sym, subst, ◌⊎◌, inl, inr, Bool, true, false,
  Option, none, some, ◌==◌, if◌then◌else◌, Option-cases,
}
use nestjs_starter.Cache.{CacheDriver}

pub record RedisClient : Type 1 where
  pub Data : Type 0
  pub get : ℕ → String → Data → Option String
  -- `SET key value EX seconds`
  pub set_ex : ℕ → String → String → ℕ → Data → Data
  pub unlink : String → Data → Data
  pub get-set_ex :
      (now at ttl : ℕ) (k k' v w : String) (d : Data)
      → get now k' (set_ex at k v ttl d) ≡ some w
      → ((k ≡ k') × (w ≡ v)) ⊎ (get now k' d ≡ some w)
  pub get-set_ex_fresh :
      (now at ttl : ℕ) (k v : String) (d : Data)
      → now < at + ttl * 1000
      → get now k (set_ex at k v ttl d) ≡ some v
  pub get-unlink : (now : ℕ) (k : String) (d : Data) → get now k (unlink k d) ≡ none
  pub get-unlink_other :
      (now : ℕ) (k k' v : String) (d : Data)
      → get now k' (unlink k d) ≡ some v
      → get now k' d ≡ some v
  pub get-later :
      (now later : ℕ) (k v : String) (d : Data)
      → now ≤ later
      → get later k d ≡ some v
      → get now k d ≡ some v

-- `endsWith(':')`
abbrev pub ends_with_colon : String → Bool
ends_with_colon [] = false
ends_with_colon (c ∷ []) = code c == b':'
ends_with_colon (c ∷ d ∷ s) = ends_with_colon (d ∷ s)

-- the constructor's `prefix`
pub key_prefix : String → String
key_prefix prefix = if ends_with_colon prefix then prefix else prefix ++ ":"

-- `prefixed`
pub prefixed : String → String → String
prefixed prefix key = key_prefix prefix ++ key

prefixed_inj : (prefix k k' : String) → prefixed prefix k ≡ prefixed prefix k' → k ≡ k'
unfolding prefixed
prefixed_inj prefix k k' e = append_cancel_left (key_prefix prefix) k k' e

module _ {V : Type 0} (parse : String → V) where
  -- `raw === null ? null : JSON.parse(raw)`
  abbrev pub decoded : Option String → Option V
  decoded none = none
  decoded (some raw) = some (parse raw)

  abbrev Decoded : Option String → V → Type 0
  Decoded o v = (raw : String) × (o ≡ some raw) × (parse raw ≡ v)

  decoded-some : (o : Option String) (v : V) → decoded o ≡ some v → Decoded o v
  decoded-some none v e = cc
  decoded-some (some raw) v e = (raw, refl, cc)

module _ (R : RedisClient) (prefix : String) {V : Type 0} (stringify : V → String)
    (parse : String → V) where
  pub redis_get : ℕ → String → R.Data → Option V
  redis_get now key d = decoded parse (R.get now (prefixed prefix key) d)

  pub redis_set : ℕ → String → V → ℕ → R.Data → R.Data
  redis_set now key v ttl_seconds = R.set_ex now (prefixed prefix key) (stringify v) ttl_seconds

  pub redis_delete : String → R.Data → R.Data
  redis_delete key = R.unlink (prefixed prefix key)

  pub redis_get-set :
      (now at ttl : ℕ) (k k' : String) (v w : V) (d : R.Data)
      → redis_get now k' (redis_set at k v ttl d) ≡ some w
      → ((k ≡ k') × (w ≡ parse (stringify v))) ⊎ (redis_get now k' d ≡ some w)
  unfolding redis_get redis_set
  redis_get-set now at ttl k k' v w d e =
      let (raw, found, parsed) =
        decoded-some parse
          (R.get now (prefixed prefix k') (R.set_ex at (prefixed prefix k) (stringify v) ttl d)) w
          e in
      elim (R.get-set_ex now at ttl (prefixed prefix k) (prefixed prefix k') (stringify v) raw d
        found) [
          | inl (same, stored) ↦ inl (prefixed_inj prefix k k' same, sym parsed ∙ ap parse stored)
          | inr old ↦ inr (ap (decoded parse) old ∙ ap some parsed)
        ]

  pub redis_get-delete :
      (now : ℕ) (k : String) (d : R.Data) → redis_get now k (redis_delete k d) ≡ none
  unfolding redis_get redis_delete
  redis_get-delete now k d = ap (decoded parse) (R.get-unlink now (prefixed prefix k) d)

  pub redis_get-delete_other :
      (now : ℕ) (k k' : String) (v : V) (d : R.Data)
      → redis_get now k' (redis_delete k d) ≡ some v
      → redis_get now k' d ≡ some v
  unfolding redis_get redis_delete
  redis_get-delete_other now k k' v d e =
      let (raw, found, parsed) = decoded-some parse _ v e in
      ap (decoded parse)
        (R.get-unlink_other now (prefixed prefix k) (prefixed prefix k') raw d found)
      ∙ ap some parsed

  pub redis_get-later :
      (now later : ℕ) (k : String) (v : V) (d : R.Data)
      → now ≤ later
      → redis_get later k d ≡ some v
      → redis_get now k d ≡ some v
  unfolding redis_get
  redis_get-later now later k v d h e =
      let (raw, found, parsed) = decoded-some parse _ v e in
      ap (decoded parse) (R.get-later now later (prefixed prefix k) raw d h found) ∙ ap some parsed

  pub redis_get-absent :
      (now : ℕ) (k : String) (d : R.Data)
      → R.get now (prefixed prefix k) d ≡ none
      → redis_get now k d ≡ none
  unfolding redis_get
  redis_get-absent now k d e = ap (decoded parse) e

  -- Within its time to live an entry is found.
  pub redis_get-set_fresh :
      (now at ttl : ℕ) (k : String) (v : V) (d : R.Data)
      → now < at + ttl * 1000
      → redis_get now k (redis_set at k v ttl d) ≡ some (parse (stringify v))
  unfolding redis_get redis_set
  redis_get-set_fresh now at ttl k v d h =
      ap (decoded parse) (R.get-set_ex_fresh now at ttl (prefixed prefix k) (stringify v) d h)

  abbrev pub redis_driver : CacheDriver V
  redis_driver = record {
    Store = R.Data;
    copy = λ v. parse (stringify v);
    get = redis_get;
    set = redis_set;
    delete = redis_delete;
    get-set = redis_get-set;
    get-delete = redis_get-delete;
    get-delete_other = redis_get-delete_other;
    get-later = redis_get-later;
  }
