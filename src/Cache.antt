-- ===== src/Cache.antt =====
-- src/infrastructure/cache: the facade over a driver, and the keys. The interface `CacheDriver`
-- is drivers/cache-driver.interface.ts; the two drivers are the children.
--
-- `copy` is what a driver hands back for a value that was stored: JSON text forgets what is not a
-- plain field. The laws of the interface are what both drivers promise their clients: an entry is
-- there or not, but never one that was not stored, and a deleted one is gone.
pub mod Keys
pub mod Noop
pub mod Redis
pub mod ReadThrough
use nestjs_starter.Prelude.{ℕ, ◌≤◌, String, ◌≡◌, ◌⊎◌, Option, none, some}

pub record CacheDriver (V : Type 0) : Type 1 where
  pub Store : Type 0
  pub copy : V → V
  -- at an instant
  pub get : ℕ → String → Store → Option V
  -- from an instant on, for a number of seconds
  pub set : ℕ → String → V → ℕ → Store → Store
  pub delete : String → Store → Store
  pub get-set :
      (now at ttl : ℕ) (k k' : String) (v w : V) (s : Store)
      → get now k' (set at k v ttl s) ≡ some w
      → ((k ≡ k') × (w ≡ copy v)) ⊎ (get now k' s ≡ some w)
  pub get-delete : (now : ℕ) (k : String) (s : Store) → get now k (delete k s) ≡ none
  pub get-delete_other :
      (now : ℕ) (k k' : String) (v : V) (s : Store)
      → get now k' (delete k s) ≡ some v
      → get now k' s ≡ some v
  pub get-later :
      (now later : ℕ) (k : String) (v : V) (s : Store)
      → now ≤ later
      → get later k s ≡ some v
      → get now k s ≡ some v

-- `AUTH_USER_SECONDS`
abbrev pub auth_user_seconds : ℕ
auth_user_seconds = 300

module _ {V : Type 0} (D : CacheDriver V) where
  -- what `getOrSet` does with the factory's result
  pub fill : ℕ → String → ℕ → Option V → D.Store → D.Store
  fill now key ttl_seconds none s = s
  fill now key ttl_seconds (some fresh) s = D.set now key fresh ttl_seconds s

  -- `getOrSet` behind its read of the driver
  pub resolved : ℕ → String → ℕ → Option V → Option V → D.Store → Option V × D.Store
  resolved now key ttl_seconds (some cached) fresh s = (some cached, s)
  resolved now key ttl_seconds none fresh s = (fresh, fill now key ttl_seconds fresh s)

  -- the instants of the read and of the write, and what the factory finds
  pub get_or_set : ℕ → ℕ → String → Option V → ℕ → D.Store → Option V × D.Store
  get_or_set now later key fresh ttl_seconds s =
      resolved later key ttl_seconds (D.get now key s) fresh s
